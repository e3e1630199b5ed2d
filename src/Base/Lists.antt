-- ===== src/Base/Lists.antt =====
-- Lists measured by native numbers, predicates on them, and an equality test as an interface.
use Prim.Native.Nat.{ℕ, zero, suc, ◌+◌}
use mathlib.Core.Path.{◌≡◌, refl, subst}
use mathlib.Core.Logic.{◌↔◌, ◌≢◌, ◌⊎◌, inl, inr}
use mathlib.Core.Bool.{Bool, true, false, ◌&&◌, ◌||◌}
use mathlib.Core.Option.{Option, none, some}
use mathlib.Core.List.{List, [], ◌∷◌, ◌++◌, map}
use native.Mathlib.Omega.{arith}
use touchvault.Base.Tests.{◌==◌, ==_iff, if◌then◌else◌}
use touchvault.Base.Int.{ℤ, int_eq, int_eq_iff}

-- A function with another value at one number.
abbrev pub update {ℓ} : {B : Type ℓ} → (ℕ → B) → ℕ → B → ℕ → B
update f i b j = if i == j then b else f j

-- The element at an index, if there is one.
unfoldable pub nth {ℓ} : {A : Type ℓ} → ℕ → List A → Option A
nth n [] = none
nth zero (x ∷ xs) = some x
nth (suc n) (x ∷ xs) = nth n xs

module _ {ℓ} {A : Type ℓ} where
  abbrev pub length : List A → ℕ
  length [] = 0
  length (x ∷ xs) = suc (length xs)

  abbrev pub take : ℕ → List A → List A
  take zero xs = []
  take (suc n) [] = []
  take (suc n) (x ∷ xs) = x ∷ take n xs

  abbrev pub drop : ℕ → List A → List A
  drop zero xs = xs
  drop (suc n) [] = []
  drop (suc n) (x ∷ xs) = drop n xs

  abbrev pub is_empty : List A → Bool
  is_empty [] = true
  is_empty (x ∷ xs) = false

  pub length-append : (xs ys : List A) → length (xs ++ ys) ≡ length xs + length ys
  length-append [] ys = omega arith
  length-append (x ∷ xs) ys = omega (arith, length-append xs ys)

abbrev pub All {ℓ κ} : {A : Type ℓ} → (A → Type κ) → List A → Type κ
All P [] = Unit
All P (x ∷ xs) = P x × All P xs

-- An equality test that decides equality.
pub record Eq {ℓ} (A : Type ℓ) : Type ℓ where
  pub beq : A → A → Bool
  pub beq_iff : (a b : A) → (beq a b ≡ true) ↔ (a ≡ b)

abbrev pub list_eq {ℓ} : {A : Type ℓ} ⦃e : Eq A⦄ → List A → List A → Bool
list_eq [] [] = true
list_eq ⦃e⦄ (x ∷ xs) (y ∷ ys) = e.beq x y && list_eq xs ys
list_eq _ _ = false

pub list_eq_iff {ℓ} : {A : Type ℓ} ⦃e : Eq A⦄ (xs ys : List A) → (list_eq xs ys ≡ true) ↔ (xs ≡ ys)
list_eq_iff [] [] = ground arith
list_eq_iff [] (y ∷ ys) = ground arith
list_eq_iff (x ∷ xs) [] = ground arith
list_eq_iff ⦃e⦄ (x ∷ xs) (y ∷ ys) = ground (arith, e.beq_iff x y, list_eq_iff xs ys)

instance abbrev pub nat_Eq : Eq ℕ
nat_Eq = record { beq = ◌==◌; beq_iff = ==_iff }

instance abbrev pub int_Eq : Eq ℤ
int_Eq = record { beq = int_eq; beq_iff = int_eq_iff }

instance abbrev pub list_Eq {ℓ} : {A : Type ℓ} ⦃e : Eq A⦄ → Eq (List A)
list_Eq = record { beq = list_eq; beq_iff = list_eq_iff }

pub All-zip {ℓ κ μ ν} :
    {A : Type ℓ} (P : A → Type κ) (Q : A → Type μ) (R : A → Type ν) (xs : List A)
    → ((a : A) → P a → Q a → R a)
    → All P xs
    → All Q xs
    → All R xs
All-zip P Q R [] f p q = tt
All-zip P Q R (x ∷ xs) f p q = (f x p.0 q.0, All-zip P Q R xs f p.1 q.1)

pub All-map {ℓ κ μ} :
    {A : Type ℓ} (P : A → Type κ) (Q : A → Type μ) (xs : List A)
    → ((a : A) → P a → Q a)
    → All P xs
    → All Q xs
All-map P Q xs f p = All-zip P P Q xs (λ a h _. f a h) p p

-- A predicate on the images is one on the entries.
pub All-of_map {ℓ κ μ} :
    {A : Type ℓ} {B : Type κ} (P : B → Type μ) (f : A → B) (xs : List A)
    → All P (map f xs)
    → All (λ x. P (f x)) xs
All-of_map P f [] h = tt
All-of_map P f (x ∷ xs) h = (h.0, All-of_map P f xs h.1)

pub All-to_map {ℓ κ μ} :
    {A : Type ℓ} {B : Type κ} (P : B → Type μ) (f : A → B) (xs : List A)
    → All (λ x. P (f x)) xs
    → All P (map f xs)
All-to_map P f [] h = tt
All-to_map P f (x ∷ xs) h = (h.0, All-to_map P f xs h.1)

pub All-append {ℓ κ} :
    {A : Type ℓ} (P : A → Type κ) (xs ys : List A) → All P xs → All P ys → All P (xs ++ ys)
All-append P [] ys h k = k
All-append P (x ∷ xs) ys h k = (h.0, All-append P xs ys h.1 k)

-- No entry occurs twice.
abbrev pub Distinct {ℓ} : {A : Type ℓ} → List A → Type ℓ
Distinct [] = Unit
Distinct (x ∷ xs) = All (λ y. x ≢ y) xs × Distinct xs

module _ {ℓ} {A : Type ℓ} ⦃e : Eq A⦄ where
  abbrev pub contains : List A → A → Bool
  contains [] a = false
  contains (x ∷ xs) a = e.beq x a || contains xs a

  -- The entries are new to a list, and to one another.
  abbrev pub FreshFor : List A → List A → Type ℓ
  FreshFor seen xs = All (λ x. contains seen x ≡ false) xs × Distinct xs

  -- A loop that notes each entry as seen tests for this.
  pub FreshFor-cons :
      (seen : List A) (x : A) (xs : List A)
      → FreshFor seen (x ∷ xs) ↔ ((contains seen x ≡ false) × FreshFor (x ∷ seen) xs)
  FreshFor-cons seen x xs = (
    λ h. (
      h.0.0,
      (
        All-zip (λ y. contains seen y ≡ false) (λ y. x ≢ y) (λ y. contains (x ∷ seen) y ≡ false) xs
            (λ y p q. ground (arith, e.beq_iff x y)) h.0.1 h.1.0,
        h.1.1,
      ),
    ),
    λ h. (
      (
        h.0,
        All-map (λ y. contains (x ∷ seen) y ≡ false) (λ y. contains seen y ≡ false) xs
            (λ y p. ground arith) h.1.0,
      ),
      (
        All-map (λ y. contains (x ∷ seen) y ≡ false) (λ y. x ≢ y) xs
            (λ y p. ground (arith, e.beq_iff x y)) h.1.0,
        h.1.1,
      ),
    ),
  )

  pub FreshFor-nil : (xs : List A) → Distinct xs → FreshFor [] xs
  FreshFor-nil xs d = (All-of xs, d)
    where
      All-of : (xs : List A) → All (λ (x : A). contains [] x ≡ false) xs
      All-of [] = tt
      All-of (x ∷ xs) = (refl, All-of xs)

pub List-cases {ℓ} :
    {A : Type ℓ} (xs : List A) → (xs ≡ []) ⊎ ((x : A) × (rest : List A) × (xs ≡ x ∷ rest))
List-cases [] = inl refl
List-cases (x ∷ rest) = inr (x, rest, refl)

-- What holds of all elements holds of the one at an index.
pub nth-All {ℓ κ} :
    {A : Type ℓ} (Q : A → Type κ) (n : ℕ) (xs : List A) {a : A} → All Q xs → nth n xs ≡ some a → Q a
unfolding nth
nth-All Q n [] h e = absurd (ground arith)
nth-All Q zero (x ∷ xs) h e = subst Q (same e) h.0
  where
    same : {A : Type ℓ} {x a : A} → some x ≡ some a → x ≡ a
    same e = ground arith
nth-All Q (suc n) (x ∷ xs) h e = nth-All Q n xs h.1 e
