-- ===== src/Toy/Counting.antt =====
-- A key that makes a new credential in each enrollment.
use touchvault.Base.{
  ℕ, ◌+◌, ◌==◌, ltb, ◌&&◌, Bytes, Bool, true, false, Option, none, some, List, [], ◌∷◌, ◌++◌, ◌≡◌,
  ◌≢◌, take, arith, refl, contains, list_Eq, list_eq, list_eq_iff, nat_Eq, inl, inr, Bool-cases,
  if◌then◌else◌,
}
use touchvault.Errors.{ok, err, no_prf}
use touchvault.Authenticator.{Authenticator, DeriveRequest, derive_request}
use touchvault.Vault.Working.{IsWorkingKey}
use touchvault.Toy.Keys.{toy, credential, key_answer}
use touchvault.Toy.Working.{outputs_differ, genuine}

-- A credential ID of the key, and one of those that it made before a count.
abbrev pub made_by : ℕ → Bytes → Bool
made_by x (y ∷ n ∷ []) = x == y
made_by x _ = false

abbrev pub made_before : ℕ → ℕ → Bytes → Bool
made_before x s (y ∷ n ∷ []) = (x == y) && ltb n s
made_before x s _ = false

unfoldable pub pick : ℕ → ℕ → List Bytes → Option Bytes
pick x s [] = none
pick x s (id ∷ ids) = if made_before x s id then some id else pick x s ids

-- The n-th credential of a key has the ID that consists of the key's number and n, and the key
-- answers for the first credential on the allow-list that it has made.
abbrev pub counting_key : ℕ → Authenticator ℕ
counting_key x = record {
  enroll = λ req s. (ok (credential (x ∷ s ∷ [])), s + 1);
  derive = λ req s. (
    elim (pick x s req.credential_ids) [
      | none ↦ err no_prf
      | some id ↦ ok (key_answer 32 id true req)
    ],
    s + 1,
  );
}

pub made_before-by : (x s : ℕ) (id : Bytes) → made_before x s id ≡ true → made_by x id ≡ true
made_before-by x s [] h = absurd (ground arith)
made_before-by x s (y ∷ []) h = absurd (ground arith)
made_before-by x s (y ∷ n ∷ []) h = ground arith
made_before-by x s (y ∷ n ∷ z ∷ id) h = absurd (ground arith)

pub made_before-later :
    (x s k : ℕ) (id : Bytes) → made_before x s id ≡ true → made_before x (s + k) id ≡ true
made_before-later x s k [] h = absurd (ground arith)
made_before-later x s k (y ∷ []) h = absurd (ground arith)
made_before-later x s k (y ∷ n ∷ []) h = ground arith
made_before-later x s k (y ∷ n ∷ z ∷ id) h = absurd (ground arith)

pub pick-made :
    (x s : ℕ) (ids : List Bytes) (id : Bytes)
    → made_before x s id ≡ true
    → contains ids id ≡ true
    → (other : Bytes) × (pick x s ids ≡ some other)
      × (made_before x s other ≡ true)
      × (contains ids other ≡ true)
unfolding pick
pick-made x s [] id held listed = absurd (ground arith)
pick-made x s (i ∷ ids) id held listed = elim (Bool-cases (made_before x s i)) [
  | inl there ↦ (i, ground arith, there, ground (arith, list_eq_iff i i))
  | inr missing ↦ elim (Bool-cases (list_eq i id)) [
    | inl same ↦ absurd (ground (arith, list_eq_iff i id))
    | inr differ ↦
        let (other, picked, made, there) = pick-made x s ids id held (ground arith) in
        (other, ground arith, made, ground arith)
  ]
]

pub counting_key-derives :
    (x s : ℕ) (req : DeriveRequest) (id : Bytes)
    → pick x s req.credential_ids ≡ some id
    → ((counting_key x).derive req s).0 ≡ ok (key_answer 32 id true req)
counting_key-derives x s req id picked = ground (arith)

-- A credential has one key.
pub made_by-same : (x y : ℕ) (id : Bytes) → made_by x id ≡ true → made_by y id ≡ true → x ≡ y
made_by-same x y [] h k = absurd (ground arith)
made_by-same x y (z ∷ []) h k = absurd (ground arith)
made_by-same x y (z ∷ n ∷ []) h k = ground arith
made_by-same x y (z ∷ n ∷ t ∷ id) h k = absurd (ground arith)

pub given_ne : (a b : Bytes) → b ≢ [] → a ++ b ≢ []
given_ne [] b given e = given e
given_ne (x ∷ a) b given e = absurd (ground (arith))

abbrev pub counting_key-IsWorkingKey : (x : ℕ) → IsWorkingKey toy (counting_key x) none
counting_key-IsWorkingKey x = record {
  mine = λ rpid id. made_by x id ≡ true;
  holds = λ s rpid id. made_before x s id ≡ true;
  verified = true;
  output = λ rpid id salt. take 32 salt ++ id;
  has_output = λ rpid id salt given. given_ne (take 32 salt) id given;
  depends = λ rpid id a b h k differ. outputs_differ a b id h k differ;
  enrolls = λ req s. (
    credential (x ∷ s ∷ []),
    refl,
    (λ e. absurd (ground arith)),
    refl,
    genuine (x ∷ s ∷ []),
    ground arith,
    ground arith,
  );
  derive_keeps = λ req s rpid id held. made_before-later x s 1 id held;
  draw_keeps = λ n s rpid id held. made_before-later x s 1 id held;
  derives = λ rpid ids salt uv s id held listed has_ids full.
      let (other, picked, made, there) = pick-made x s ids id held listed in
      (
        other,
        made_before-by x s other made,
        there,
        counting_key-derives x s (derive_request rpid ids salt uv) other picked,
      );
}
