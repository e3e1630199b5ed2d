-- ===== src/Vault/Goroutines/Serial.antt =====
-- Goroutines with one session, and the same calls made one after another.
use touchvault.Base.{ℕ, List, [], ◌∷◌, none, ◌≡◌, refl, arith, subst, sym, ap, inl, inr}
use touchvault.Effects.Runs.{Run-cases}
use touchvault.Effects.Programs.{Prog}
use touchvault.Platform.{Platform}
use touchvault.Threads.{Log, Event, runs, replay, begin}
use touchvault.Threads.Inside.{turns-IsLocking, begin-IsLocking, inside_once, IsLocking}
use touchvault.Threads.Replay.{IsSerial, begin-IsSerial}
use touchvault.Vault.Session.{Machine, list_names, list_slots, read_string}
use touchvault.Vault.Calls.{
  Call, Reach, here, next, perform, to_read, to_lock, to_put, to_delete, to_enroll, to_remove,
  to_force_remove, to_seal,
}
use touchvault.Vault.Goroutines.{
  Request, asks_names, asks_slots, makes, Reply, respond, program, mu, crew,
}
use touchvault.Vault.Goroutines.Alone.{run-program}

module _ (P : Platform) where
  -- A method does to the session what the call does.
  pub respond-perform : (c : Call P) (m : Machine P) → (respond P (makes c) m).1 ≡ (perform P c m).1
  unfolding respond perform
  respond-perform (to_read name) m = elim (Run-cases (read_string P name m)) [
    | inl (t, n, e) ↦ ground (arith)
    | inr (x, n, e) ↦ ground (arith)
  ]
  respond-perform to_lock m = ground (arith)
  respond-perform (to_put name secret) m = ground (arith)
  respond-perform (to_delete name) m = ground (arith)
  respond-perform (to_enroll auth slot label) m = ground (arith)
  respond-perform (to_remove slot) m = ground (arith)
  respond-perform (to_force_remove slot) m = ground (arith)
  respond-perform to_seal m = ground (arith)

  respond-Reach : (q : Request P) {m n : Machine P} → Reach m n → Reach m (respond P q n).1
  unfolding respond list_names list_slots
  respond-Reach asks_names r = r
  respond-Reach asks_slots r = r
  respond-Reach (makes c) {m} {n} r = subst (Reach m) (sym (respond-perform c n)) (next c r)

  replay-Reach :
      (log : Log (Request P) Reply) (m : Machine P) → Reach m (replay (respond P) log m).1
  unfolding replay
  replay-Reach [] m = here
  replay-Reach ((i, q, r) ∷ log) m = respond-Reach q (replay-Reach log m)

  pub crew-IsLocking :
      (es : List (Event (Request P))) (m : Machine P) → IsLocking (mu P) (crew P es m)
  unfolding crew
  crew-IsLocking es m = turns-IsLocking (mu P) (program P) es (begin m) (begin-IsLocking (mu P) m)

  -- Two goroutines that are past the `Lock` of the mutex of one session are one goroutine.
  pub crew_exclusive :
      (es : List (Event (Request P))) (m : Machine P) (i j : ℕ) (q r : Request P)
      (p o : Prog (Machine P) Reply)
      → (crew P es m).thread i ≡ runs q p
      → (crew P es m).thread j ≡ runs r o
      → i ≡ j
  crew_exclusive es m i j q r p o e f =
      inside_once (mu P) (crew P es m) i j 0 (crew-IsLocking es m) (rw e refl) (rw f refl)

  pub crew-IsSerial :
      (es : List (Event (Request P))) (m : Machine P)
      → IsSerial (mu P) (program P) (respond P) 0 m (crew P es m)
  unfolding crew
  crew-IsSerial es m =
      begin-IsSerial (mu P) (program P) (respond P) 0 m (λ q. refl) (run-program P) es

  past-Reach : (es : List (Event (Request P))) (m : Machine P) → Reach m (crew-IsSerial es m).past
  past-Reach es m =
      let y = crew P es m in
      subst (Reach m)
        (ap (λ (t : Log (Request P) Reply × Machine P). t.1) (crew-IsSerial es m).replayed)
        (replay-Reach y.log m)

  -- Goroutines call methods of one session, and take the steps of the methods in whatever order.
  -- Whenever none of them holds the mutex of the session, the calls that have returned gave the
  -- results that they give one after another, in the order of their returns, each with no one
  -- coming between, and the session and the world are as those calls leave them: in a state that
  -- calls lead to.
  pub crew_lem :
      (es : List (Event (Request P))) (m : Machine P)
      → (crew P es m).holder 0 ≡ none
      → (replay (respond P) (crew P es m).log m ≡ ((crew P es m).log, (crew P es m).shared))
        × Reach m (crew P es m).shared
  crew_lem es m free =
      let v = crew-IsSerial es m in
      (rw (← v.free free) v.replayed, subst (Reach m) (v.free free) (past-Reach es m))
