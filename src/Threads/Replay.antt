-- ===== src/Threads/Replay.antt =====
-- One mutex for all calls: what the goroutines did to the state, from the calls that returned.
use touchvault.Base.{ℕ, List, [], ◌∷◌, some, none, ◌≡◌, refl, arith, Option-cases, inl, inr, ap}
use touchvault.Errors.{Result}
use touchvault.Effects.{M}
use touchvault.Effects.Programs.{Prog, done, tick, run}
use touchvault.Threads.{
  Thread, idle, waits, runs, Log, System, Event, calls, goes, begin, go, start_call, turn, turns,
  replay,
}
use touchvault.Threads.Inside.{IsLocking, turn-IsLocking, begin-IsLocking}

-- A log that is replayed to itself: so is what was there before the last call, which then gave its
-- result.
pub replay-cons :
    {S O A : Type 0} (alone : O → M S A) (s past : S) (i : ℕ) (o : O) (r : Result A) (log : Log O A)
    → replay alone ((i, o, r) ∷ log) s ≡ ((i, o, r) ∷ log, past)
    → (t : S) × (replay alone log s ≡ (log, t)) × (alone o t ≡ (r, past))
unfolding replay
replay-cons alone s past i o r log e = ((replay alone log s).1, ground (arith), ground (arith))

module _ {S O A : Type 0} (mutex_of : O → ℕ) (body : O → Prog S A) (alone : O → M S A) (m : ℕ)
    (s : S) where
  -- The calls that returned, each alone in the order of their returns, give the results that they
  -- gave. The state after them is the one that there is, if the mutex is free; a goroutine that has
  -- locked it will bring about what its call alone does to that state.
  pub record IsSerial (y : System S O A) : Type 0 where
    pub past : S
    pub replayed : replay alone y.log s ≡ (y.log, past)
    pub free : y.holder m ≡ none → past ≡ y.shared
    pub busy :
        (i : ℕ) (o : O) (p : Prog S A) → y.thread i ≡ runs o p → run p y.shared ≡ alone o past

  module _ (one : (o : O) → mutex_of o ≡ m)
      (agrees : (o : O) (t : S) → run (body o) t ≡ alone o t) where
    -- What locks the mutex, where a goroutine is in a call.
    locked_by :
        (y : System S O A) (i : ℕ) (o : O) (p : Prog S A)
        → IsLocking mutex_of y
        → y.thread i ≡ runs o p
        → y.holder m ≡ some i
    locked_by y i o p l e = l.inside i m (rw e (one o))

    go-IsSerial :
        (i : ℕ) (t : Thread S O A) (y : System S O A)
        → y.thread i ≡ t
        → IsLocking mutex_of y
        → IsSerial y
        → IsSerial (go mutex_of body i t y)
    unfolding go run replay
    go-IsSerial i idle y e l v = v
    go-IsSerial i (waits o) y e l v = elim (Option-cases (y.holder (mutex_of o))) [
      | inr (j, locked) ↦ rw (locked, go) v
      | inl free ↦
          rw (free, go)
            (record {
              past = v.past;
              replayed = v.replayed;
              free = λ h. ground (arith, one o);
              busy = λ j q p h. ground (
                arith,
                one o,
                v.free,
                locked_by y j q p l,
                agrees o y.shared,
                ap (alone o) (v.free (ground (arith, one o))),
              );
            })
    ]
    go-IsSerial i (runs o (done r)) y e l v = record {
      past = y.shared;
      replayed = ground (arith, v.replayed, v.busy i o (done r) e);
      free = λ h. refl;
      busy = λ j q p h. ground (arith, locked_by y i o (done r) l e, locked_by y j q p l);
    }
    go-IsSerial i (runs o (tick f k)) y e l v = record {
      past = v.past;
      replayed = v.replayed;
      free = λ h. ground (arith, one o, locked_by y i o (tick f k) l e);
      busy = λ j q p h.
          ground
            (arith, v.busy i o (tick f k) e, locked_by y i o (tick f k) l e, locked_by y j q p l);
    }

    start_call-IsSerial :
        (i : ℕ) (o : O) (t : Thread S O A) (y : System S O A)
        → y.thread i ≡ t
        → IsSerial y
        → IsSerial (start_call mutex_of body i o t y)
    unfolding start_call
    start_call-IsSerial i o (waits p) y e v = v
    start_call-IsSerial i o (runs p q) y e v = v
    start_call-IsSerial i o idle y e v = record {
      past = v.past;
      replayed = v.replayed;
      free = v.free;
      busy = λ j q p h. v.busy j q p (ground (arith));
    }

    turn-IsSerial :
        (e : Event O) (y : System S O A)
        → IsLocking mutex_of y
        → IsSerial y
        → IsSerial (turn mutex_of body e y)
    unfolding turn
    turn-IsSerial (calls i o) y l v = start_call-IsSerial i o (y.thread i) y refl v
    turn-IsSerial (goes i) y l v = go-IsSerial i (y.thread i) y refl l v

    turns-IsSerial :
        (es : List (Event O)) (y : System S O A)
        → IsLocking mutex_of y
        → IsSerial y
        → IsSerial (turns mutex_of body es y)
    unfolding turns
    turns-IsSerial [] y l v = v
    turns-IsSerial (e ∷ es) y l v =
        turns-IsSerial es (turn mutex_of body e y) (turn-IsLocking mutex_of body e y l)
          (turn-IsSerial e y l v)

    -- Goroutines that take the steps of their calls in whatever order, from none in a call.
    pub begin-IsSerial : (es : List (Event O)) → IsSerial (turns mutex_of body es (begin s))
    unfolding replay
    begin-IsSerial es =
        turns-IsSerial es (begin s) (begin-IsLocking mutex_of s)
          (record { past = s; replayed = refl; free = λ h. refl; busy = λ i o p h. ground (arith) })
