-- ===== src/Effects/Runs.antt =====
-- How a call ended, and what a chain that succeeded was made of.
use touchvault.Base.{◌≡◌, ◌⊎◌, inl, inr, refl, arith, Done, Bool, false}
use touchvault.Errors.{Error, Result, ok, err, refuse_if}
use touchvault.Effects.{M, ◌>>=◌}

module _ {S A : Type 0} where
  pub Run-cases :
      (r : Result A × S)
      → ((a : A) × (t : S) × (r ≡ (ok a, t))) ⊎ ((e : Error) × (t : S) × (r ≡ (err e, t)))
  Run-cases (ok a, t) = inl (a, t, refl)
  Run-cases (err e, t) = inr (e, t, refl)

-- A chain that succeeded went through a first part that succeeded.
pub >>=-eq-ok :
    {S A B : Type 0} (m : M S A) (f : A → M S B) (s s' : S) {b : B}
    → (m >>= f) s ≡ (ok b, s')
    → (a : A) × (t : S) × (m s ≡ (ok a, t)) × (f a t ≡ (ok b, s'))
>>=-eq-ok m f s s' h = elim (Run-cases (m s)) [
  | inl (a, t, e) ↦ (a, t, e, ground arith)
  | inr (x, t, e) ↦ absurd (ground arith)
]

-- A guard that let the code through had a test that failed.
pub refuse_if-eq-ok : {x : Done} (test : Bool) (e : Error) → refuse_if test e ≡ ok x → test ≡ false
refuse_if-eq-ok test e h = ground arith
