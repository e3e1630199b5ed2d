-- ===== src/Threads.antt =====
-- Goroutines that call methods, each of which holds one mutex from its first statement to its
-- return, as `s.mu.Lock(); defer s.mu.Unlock()` has it. Which mutex a method takes, and the code
-- between, are parameters. Vault.Goroutines and Vault.Race use this for
-- vault.go.
pub mod Inside
pub mod Replay
pub mod Progress
pub mod Paused
use touchvault.Base.{update, ℕ, List, [], ◌∷◌, Option, some, none, if◌then◌else◌, ◌==◌}
use touchvault.Errors.{Result}
use touchvault.Effects.{M}
use touchvault.Effects.Programs.{Prog, done, tick}

-- Where a goroutine stands: in no call, at the `Lock` of the mutex, or past it with what is left.
pub data Thread (S O A : Type 0) : Type 0 where
  idle : Thread S O A
  waits : O → Thread S O A
  runs : O → Prog S A → Thread S O A

-- The calls that have returned, the latest first: who called, what, and the result.
abbrev pub Log : Type 0 → Type 0 → Type 0
Log O A = List (ℕ × O × Result A)

-- Goroutines and mutexes have numbers. `holder` is the goroutine that a mutex is locked by.
pub record System (S O A : Type 0) : Type 0 where
  pub shared : S
  pub holder : ℕ → Option ℕ
  pub thread : ℕ → Thread S O A
  pub log : Log O A

-- A goroutine that is in no call makes one, or a goroutine takes its next step.
pub data Event (O : Type 0) : Type 0 where
  calls : ℕ → O → Event O
  goes : ℕ → Event O

abbrev pub begin : {S O A : Type 0} → S → System S O A
begin s = record { shared = s; holder = λ m. none; thread = λ i. idle; log = [] }

module _ {S O A : Type 0} (mutex_of : O → ℕ) (body : O → Prog S A) where
  -- One step of a goroutine. At a mutex that is locked it stays where it is.
  unfoldable pub go : ℕ → Thread S O A → System S O A → System S O A
  go i idle y = y
  go i (waits o) y = elim (y.holder (mutex_of o)) [
    | none ↦ record y {
      holder = update y.holder (mutex_of o) (some i);
      thread = update y.thread i (runs o (body o));
    }
    | some j ↦ y
  ]
  go i (runs o (done r)) y = record y {
    holder = update y.holder (mutex_of o) none;
    thread = update y.thread i idle;
    log = (i, o, r) ∷ y.log;
  }
  go i (runs o (tick f k)) y = record y {
    shared = f y.shared;
    thread = update y.thread i (runs o (k y.shared));
  }

  unfoldable pub start_call : ℕ → O → Thread S O A → System S O A → System S O A
  start_call i o idle y = record y { thread = update y.thread i (waits o) }
  start_call i o (waits p) y = y
  start_call i o (runs p q) y = y

  unfoldable pub turn : Event O → System S O A → System S O A
  turn (calls i o) y = start_call i o (y.thread i) y
  turn (goes i) y = go i (y.thread i) y

  -- A schedule: the events one after another.
  unfoldable pub turns : List (Event O) → System S O A → System S O A
  turns [] y = y
  turns (e ∷ es) y = turns es (turn e y)

-- The calls of a log made one after another, the oldest first, each alone: their results in the
-- form of a log, and the state after them. What a call does alone is given.
unfoldable pub replay : {S O A : Type 0} → (O → M S A) → Log O A → S → Log O A × S
replay alone [] s = ([], s)
replay alone ((i, o, _) ∷ log) s =
    let (older, t) = replay alone log s in let (r, u) = alone o t in ((i, o, r) ∷ older, u)
