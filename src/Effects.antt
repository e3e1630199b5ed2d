-- ===== src/Effects.antt =====
-- Code that changes a state and can return an error. The state comes back after an error too,
-- since what was written stays written.
pub mod Runs
pub mod Programs
use touchvault.Base.{Done, Bool, Option}
use touchvault.Errors.{Error, Result, ok, err, refuse_if, or_error}

abbrev pub M : Type 0 → Type 0 → Type 0
M S A = S → Result A × S

infixl 5 ◌>>=◌ ◌>>◌
abbrev pub ◌>>=◌ : {S A B : Type 0} → M S A → (A → M S B) → M S B
◌>>=◌ m f s = let (r, s') = m s in elim r [ ok a ↦ f a s' | err e ↦ (err e, s') ]

abbrev pub ◌>>◌ : {S B : Type 0} → M S Done → M S B → M S B
m >> k = m >>= λ _. k

module _ {S A : Type 0} where
  abbrev pub pure : A → M S A
  pure a s = (ok a, s)

  -- A call that touches no state.
  abbrev pub try : Result A → M S A
  try r s = (r, s)

  abbrev pub or_raise : Option A → Error → M S A
  or_raise o e s = (or_error o e, s)

module _ {S : Type 0} where
  abbrev pub raise_if : Bool → Error → M S Done
  raise_if test e s = (refuse_if test e, s)

  abbrev pub modify : (S → S) → M S Done
  modify f s = (ok tt, f s)

  -- A value read from the state.
  abbrev pub gets : {A : Type 0} → (S → A) → M S A
  gets f s = (ok (f s), s)
