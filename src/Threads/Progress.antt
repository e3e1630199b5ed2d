-- ===== src/Threads/Progress.antt =====
-- The steps of one goroutine, one after the other, up to the return of its call.
use touchvault.Base.{ℕ, zero, suc, List, [], ◌∷◌, ◌++◌, none, ◌≡◌, ◌≢◌, refl, arith, ◌∙◌, ap}
use touchvault.Errors.{Result}
use touchvault.Effects.Programs.{Prog, done, tick, run}
use touchvault.Threads.{Thread, idle, waits, runs, System, Event, goes, go, turn, turns}

-- A goroutine takes a number of steps, and no other goroutine takes one.
unfoldable pub only : {O : Type 0} → ℕ → ℕ → List (Event O)
only zero i = []
only (suc n) i = goes i ∷ only n i

-- A schedule after another.
pub turns-append :
    {S O A : Type 0} (mutex_of : O → ℕ) (body : O → Prog S A) (es fs : List (Event O))
    (y : System S O A)
    → turns mutex_of body (es ++ fs) y ≡ turns mutex_of body fs (turns mutex_of body es y)
unfolding turns
turns-append mutex_of body [] fs y = refl
turns-append mutex_of body (e ∷ es) fs y = turns-append mutex_of body es fs (turn mutex_of body e y)

module _ {S O A : Type 0} (mutex_of : O → ℕ) (body : O → Prog S A) where
  -- What a goroutine that has locked a mutex leaves when it has returned.
  pub record Returned (i : ℕ) (o : O) (y z : System S O A) (p : Prog S A) : Type 0 where
    pub left : z.holder (mutex_of o) ≡ none
    pub others : (j : ℕ) → j ≢ i → z.thread j ≡ y.thread j
    pub out : z.thread i ≡ idle
    pub logged : z.log ≡ (i, o, (run p y.shared).0) ∷ y.log
    pub changed : z.shared ≡ (run p y.shared).1

  -- The first of several steps, where it is known what the goroutine is about to do.
  pub only-suc :
      (n i : ℕ) (t : Thread S O A) (y : System S O A)
      → y.thread i ≡ t
      → turns mutex_of body (only (suc n) i) y
        ≡ turns mutex_of body (only n i) (go mutex_of body i t y)
  unfolding only turns turn
  only-suc n i t y e =
      ap (λ (u : Thread S O A). turns mutex_of body (only n i) (go mutex_of body i u y)) e

  ticked :
      (i : ℕ) (o : O) (f : S → S) (k : S → Prog S A) (y w : System S O A)
      → Returned i o (go mutex_of body i (runs o (tick f k)) y) w (k y.shared)
      → Returned i o y w (tick f k)
  unfolding go run
  ticked i o f k y w h = record {
    left = h.left;
    others = λ j ne. h.others j ne ∙ ground (arith);
    out = h.out;
    logged = h.logged;
    changed = h.changed;
  }

  go-done :
      (i : ℕ) (o : O) (r : Result A) (y : System S O A)
      → Returned i o y (go mutex_of body i (runs o (done r)) y) (done r)
  unfolding go run
  go-done i o r y = record {
    left = ground (arith);
    others = λ j ne. ground (arith);
    out = ground (arith);
    logged = refl;
    changed = refl;
  }

  pub go-tick :
      (i : ℕ) (o : O) (f : S → S) (k : S → Prog S A) (y : System S O A)
      → (go mutex_of body i (runs o (tick f k)) y).thread i ≡ runs o (k y.shared)
  unfolding go
  go-tick i o f k y = ground (arith)

  -- A goroutine that has locked a mutex returns after some steps of its own.
  pub runs_out :
      (p : Prog S A) (i : ℕ) (o : O) (y : System S O A)
      → y.thread i ≡ runs o p
      → (n : ℕ) × Returned i o y (turns mutex_of body (only n i) y) p
  unfolding turns only
  runs_out (done r) i o y e = (1, rw (only-suc 0 i (runs o (done r)) y e) (go-done i o r y))
  runs_out (tick f k) i o y e =
      let z = go mutex_of body i (runs o (tick f k)) y in
      let moved : z.thread i ≡ runs o (k y.shared) = go-tick i o f k y in
      let (n, returned) = runs_out (k y.shared) i o z moved in
      (
        suc n,
        rw (only-suc n i (runs o (tick f k)) y e)
            (ticked i o f k y (turns mutex_of body (only n i) z) returned),
      )

  pub go-waits :
      (i : ℕ) (o : O) (y : System S O A)
      → y.holder (mutex_of o) ≡ none
      → let z = go mutex_of body i (waits o) y in
        (z.thread i ≡ runs o (body o))
        × (z.shared ≡ y.shared)
        × ((j : ℕ) → j ≢ i → z.thread j ≡ y.thread j)
        × (z.log ≡ y.log)
  unfolding go
  go-waits i o y h = rw (h, go) (ground (arith), refl, λ j ne. ground (arith), refl)
