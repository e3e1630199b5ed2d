-- ===== src/Effects/Programs.antt =====
-- Code that others can come between: a method as the reads and writes that it makes, one by one.
use touchvault.Base.{Done, Bool, Option, ◌≡◌, refl}
use touchvault.Errors.{Error, Result, ok, err, refuse_if, or_error}
use touchvault.Effects.{M}
use touchvault.Effects as Effects

-- What is left of a call: its result, or one step on the state and what follows, which may depend
-- on the state that the step found.
pub data Prog (S A : Type 0) : Type 0 where
  done : Result A → Prog S A
  tick : (S → S) → (S → Prog S A) → Prog S A

module _ {S : Type 0} where
  -- All that is left, with no one coming between.
  unfoldable pub run : {A : Type 0} → Prog S A → M S A
  run (done r) s = (r, s)
  run (tick f k) s = run (k s) (f s)

  infixl 5 ◌>>=◌ ◌>>◌
  unfoldable pub ◌>>=◌ : {A B : Type 0} → Prog S A → (A → Prog S B) → Prog S B
  done r >>= g = elim r [ ok a ↦ g a | err e ↦ done (err e) ]
  tick f k >>= g = tick f λ s. k s >>= g

  unfoldable pub ◌>>◌ : {B : Type 0} → Prog S Done → Prog S B → Prog S B
  unfolding ◌>>=◌
  p >> q = p >>= λ _. q

  -- Running two pieces of code one after the other is running the code of both.
  pub run-bind :
      {A B : Type 0} (p : Prog S A) (g : A → Prog S B) (s : S)
      → run (p >>= g) s ≡ Effects.◌>>=◌ (run p) (λ a. run (g a)) s
  unfolding run ◌>>=◌
  run-bind (done (ok a)) g s = refl
  run-bind (done (err e)) g s = refl
  run-bind (tick f k) g s = run-bind (k s) g (f s)

  -- A call that is one step.
  abbrev pub atomic : {A : Type 0} → M S A → Prog S A
  atomic m = tick (λ s. (m s).1) (λ s. done (m s).0)

  abbrev pub gets : {A : Type 0} → (S → A) → Prog S A
  gets f = tick (λ s. s) (λ s. done (ok (f s)))

  abbrev pub modify : (S → S) → Prog S Done
  modify f = tick f (λ _. done (ok tt))

  -- What touches no state.
  abbrev pub pure : {A : Type 0} → A → Prog S A
  pure a = done (ok a)

  abbrev pub or_raise : {A : Type 0} → Option A → Error → Prog S A
  or_raise o e = done (or_error o e)

  abbrev pub raise_if : Bool → Error → Prog S Done
  raise_if test e = done (refuse_if test e)

  abbrev pub try : {A : Type 0} → Result A → Prog S A
  try r = done r
