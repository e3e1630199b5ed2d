-- ===== src/Base/Decimal.antt =====
-- Numbers written in decimal, as `%d` of fmt writes them, and read again.
use Prim.Native.Nat.{ℕ, zero, suc, ◌+◌, ◌*◌, ◌/◌, ◌%◌, ◌-◌, ◌≤◌, ◌<◌}
use mathlib.Core.Path.{◌≡◌, sym, ap, ◌∙◌}
use mathlib.Core.Bool.{◌&&◌}
use mathlib.Core.Logic.{◌≢◌, inl, inr}
use mathlib.Core.List.{List, [], ◌∷◌, ◌++◌, append_assoc}
use native.Mathlib.Omega.{arith}
use touchvault.Base.Tests.{ltb, leb, if◌then◌else◌, Bool-cases}
use touchvault.Base.Int.{ℤ, pos, negsuc}

-- With fuel; a number has no more digits than its value and one.
unfoldable pub digits_of : ℕ → ℕ → List ℕ
digits_of zero n = []
digits_of (suc fuel) n =
    let higher = digits_of fuel (n / 10) in
    (if ltb n 10 then [] else higher) ++ ((n % 10 + b'0') ∷ [])

unfoldable pub decimal_nat : ℕ → List ℕ
unfolding digits_of
decimal_nat n = digits_of (suc n) n

unfoldable pub decimal : ℤ → List ℕ
unfolding decimal_nat
decimal (pos n) = decimal_nat n
decimal (negsuc n) = b'-' ∷ decimal_nat (suc n)

-- The number that the digits at the start of a text say, after those that were read.
abbrev leading : ℕ → List ℕ → ℕ
leading n [] = n
leading n (c ∷ cs) =
    let rest = leading (n * 10 + (c - b'0')) cs in if leb b'0' c && ltb c 58 then rest else n

leading_digit :
    (n d : ℕ) (rest : List ℕ) → d < 10 → leading n ((d + b'0') ∷ rest) ≡ leading (n * 10 + d) rest
leading_digit n d rest h = ground (arith, same)
  where
    same : d + b'0' - b'0' ≡ d
    same = omega arith

leading-digits_of :
    (fuel n : ℕ) (rest : List ℕ)
    → n ≤ fuel
    → leading 0 (digits_of (suc fuel) n ++ rest) ≡ leading n rest
unfolding digits_of
leading-digits_of zero n rest h =
    let none_left : n ≡ 0 = omega arith in rw none_left (leading_digit 0 0 rest (omega arith))
leading-digits_of (suc fuel) n rest h = elim (Bool-cases (ltb n 10)) [
  | inl small ↦
      let below : n < 10 = ground arith in
      let same : 0 * 10 + n % 10 ≡ n = omega arith in
      rw small (leading_digit 0 (n % 10) rest (omega arith) ∙ ap (λ k. leading k rest) same)
  | inr large ↦
      let next = (n % 10 + b'0') ∷ rest in
      let above : 10 ≤ n = ground arith in
      let same : n / 10 * 10 + n % 10 ≡ n = omega arith in
      rw large (
        ap (leading 0) (append_assoc (digits_of (suc fuel) (n / 10)) _ rest)
        ∙ leading-digits_of fuel (n / 10) next (omega arith)
        ∙ leading_digit (n / 10) (n % 10) rest (omega arith)
        ∙ ap (λ k. leading k rest) same)
]

-- Two numbers that are written alike, before a text that goes on with a space, are one.
pub decimal_nat-injective :
    (m n : ℕ) (a b : List ℕ) → decimal_nat m ++ (b' ' ∷ a) ≡ decimal_nat n ++ (b' ' ∷ b) → m ≡ n
unfolding decimal_nat
decimal_nat-injective m n a b h =
    sym (leading-digits_of m m (b' ' ∷ a) (omega arith))
    ∙ ap (leading 0) h
    ∙ leading-digits_of n n (b' ' ∷ b) (omega arith)

sign_differs : (m : ℕ) (a b : List ℕ) → decimal_nat m ++ (b' ' ∷ a) ≢ b'-' ∷ b
unfolding decimal_nat digits_of
sign_differs m a b h =
    let zero_only : m ≡ 0 =
      sym (leading-digits_of m m (b' ' ∷ a) (omega arith)) ∙ ap (leading 0) h in
    first m zero_only h
  where
    first : (n : ℕ) → n ≡ 0 → digits_of (suc n) n ++ (b' ' ∷ a) ≢ b'-' ∷ b
    first zero e k = absurd (ground arith)
    first (suc n) e k = absurd (ground arith)

pub decimal-injective :
    (m n : ℤ) (a b : List ℕ) → decimal m ++ (b' ' ∷ a) ≡ decimal n ++ (b' ' ∷ b) → m ≡ n
unfolding decimal
decimal-injective (pos m) (pos n) a b h = ap pos (decimal_nat-injective m n a b h)
decimal-injective (negsuc m) (negsuc n) a b h =
    let same : suc m ≡ suc n = decimal_nat-injective (suc m) (suc n) a b (ground (arith, h)) in
    ground arith
decimal-injective (pos m) (negsuc n) a b h = absurd (sign_differs m a _ h)
decimal-injective (negsuc m) (pos n) a b h = absurd (sign_differs n b _ (sym h))
