-- ===== src/Threads/Inside.antt =====
-- Who is past the `Lock` of which mutex.
use touchvault.Base.{ℕ, List, [], ◌∷◌, some, ◌≡◌, refl, arith, Option-cases, inl, inr}
use touchvault.Effects.Programs.{Prog, done, tick}
use touchvault.Threads.{
  Thread, idle, waits, runs, System, Event, calls, goes, begin, go, start_call, turn, turns,
}

-- A goroutine is past the `Lock` of a mutex, and has not returned.
abbrev pub IsInside : {S O A : Type 0} → (O → ℕ) → Thread S O A → ℕ → Type 0
IsInside mutex_of idle m = ⊥
IsInside mutex_of (waits o) m = ⊥
IsInside mutex_of (runs o p) m = mutex_of o ≡ m

-- A mutex is locked by the goroutine that is past its `Lock`, and by no other.
pub record IsLocking {S O A : Type 0} (mutex_of : O → ℕ) (y : System S O A) : Type 0 where
  pub inside : (i m : ℕ) → IsInside mutex_of (y.thread i) m → y.holder m ≡ some i
  pub held : (i m : ℕ) → y.holder m ≡ some i → IsInside mutex_of (y.thread i) m

module _ {S O A : Type 0} (mutex_of : O → ℕ) (body : O → Prog S A) where
  -- A mutex is locked, or changes to the goroutine that takes the step.
  go-IsLocking :
      (i : ℕ) (t : Thread S O A) (y : System S O A)
      → y.thread i ≡ t
      → IsLocking mutex_of y
      → IsLocking mutex_of (go mutex_of body i t y)
  unfolding go
  go-IsLocking i idle y e v = v
  go-IsLocking i (waits o) y e v = elim (Option-cases (y.holder (mutex_of o))) [
    | inr (j, locked) ↦ rw (locked, go) v
    | inl free ↦
        rw (free, go)
          (record {
            inside = λ j m h. ground (arith, v.inside j m, v.held j m, v.inside i m, v.held i m);
            held = λ j m h. ground (arith, v.inside j m, v.held j m, v.inside i m, v.held i m);
          })
  ]
  go-IsLocking i (runs o (done r)) y e v = record {
    inside = λ j m h. ground (arith, v.inside j m, v.held j m, v.inside i m, v.held i m);
    held = λ j m h. ground (arith, v.inside j m, v.held j m, v.inside i m, v.held i m);
  }
  go-IsLocking i (runs o (tick f k)) y e v = record {
    inside = λ j m h. ground (arith, v.inside j m, v.held j m, v.inside i m, v.held i m);
    held = λ j m h. ground (arith, v.inside j m, v.held j m, v.inside i m, v.held i m);
  }

  start_call-IsLocking :
      (i : ℕ) (o : O) (t : Thread S O A) (y : System S O A)
      → y.thread i ≡ t
      → IsLocking mutex_of y
      → IsLocking mutex_of (start_call mutex_of body i o t y)
  unfolding start_call
  start_call-IsLocking i o (waits p) y e v = v
  start_call-IsLocking i o (runs p q) y e v = v
  start_call-IsLocking i o idle y e v = record {
    inside = λ j m h. ground (arith, v.inside j m, v.held j m, v.inside i m, v.held i m);
    held = λ j m h. ground (arith, v.inside j m, v.held j m, v.inside i m, v.held i m);
  }

  pub turn-IsLocking :
      (e : Event O) (y : System S O A)
      → IsLocking mutex_of y
      → IsLocking mutex_of (turn mutex_of body e y)
  unfolding turn
  turn-IsLocking (calls i o) y v = start_call-IsLocking i o (y.thread i) y refl v
  turn-IsLocking (goes i) y v = go-IsLocking i (y.thread i) y refl v

  pub turns-IsLocking :
      (es : List (Event O)) (y : System S O A)
      → IsLocking mutex_of y
      → IsLocking mutex_of (turns mutex_of body es y)
  unfolding turns
  turns-IsLocking [] y v = v
  turns-IsLocking (e ∷ es) y v = turns-IsLocking es (turn mutex_of body e y) (turn-IsLocking e y v)

module _ {S O A : Type 0} (mutex_of : O → ℕ) where
  pub begin-IsLocking : (s : S) → IsLocking {S = S} {O = O} {A = A} mutex_of (begin s)
  begin-IsLocking s = record { inside = λ i m h. absurd h; held = λ i m h. ground (arith) }

  -- Two goroutines that are past the `Lock` of one mutex are one goroutine.
  pub inside_once :
      (y : System S O A) (i j m : ℕ)
      → IsLocking mutex_of y
      → IsInside mutex_of (y.thread i) m
      → IsInside mutex_of (y.thread j) m
      → i ≡ j
  inside_once y i j m v h k = ground (arith, v.inside i m h, v.inside j m k)
