-- ===== src/Sealed/Aad/Encoding.antt =====
-- Reading back fields that stand behind a length.
use touchvault.Base.{ℕ, Bytes, List, ◌≡◌, ◌++◌, ◌<◌, ◌^◌, ◌%◌, ◌/◌, [], ◌∷◌, length, arith}
use touchvault.Base.{refl}

-- The four bytes of a number below 2 ^ 32.
abbrev pub be32 : ℕ → Bytes
be32 n = n / 2 ^ 24 % 256 ∷ n / 2 ^ 16 % 256 ∷ n / 2 ^ 8 % 256 ∷ n % 256 ∷ []

-- A field with its length in front.
unfoldable pub prefixed : Bytes → Bytes
prefixed v = be32 (length v % 2 ^ 32) ++ v

pub cons-injective {ℓ} :
    {A : Type ℓ} (x y : A) (xs ys : List A) → x ∷ xs ≡ y ∷ ys → (x ≡ y) × (xs ≡ ys)
cons-injective x y xs ys h = ground arith

pub be32-injective :
    (m n : ℕ) (r s : Bytes)
    → be32 m ++ r ≡ be32 n ++ s
    → m < 2 ^ 32
    → n < 2 ^ 32
    → (m ≡ n) × (r ≡ s)
be32-injective m n r s h hm hn = ground arith

pub append-injective {ℓ} :
    {A : Type ℓ} (xs ys r s : List A)
    → length xs ≡ length ys
    → xs ++ r ≡ ys ++ s
    → (xs ≡ ys) × (r ≡ s)
append-injective [] [] r s l h = (refl, h)
append-injective [] (y ∷ ys) r s l h = absurd (omega arith)
append-injective (x ∷ xs) [] r s l h = absurd (omega arith)
append-injective (x ∷ xs) (y ∷ ys) r s l h =
    ground (arith, append-injective xs ys r s (omega arith))

pub prefixed-injective :
    (v w r s : Bytes)
    → length v < 2 ^ 32
    → length w < 2 ^ 32
    → prefixed v ++ r ≡ prefixed w ++ s
    → (v ≡ w) × (r ≡ s)
unfolding prefixed
prefixed-injective v w r s hv hw h =
    let split =
      be32-injective (length v % 2 ^ 32) (length w % 2 ^ 32) (v ++ r) (w ++ s) h (omega arith)
        (omega arith) in
    append-injective v w r s (omega (arith, split.0)) split.1
