-- ===== src/Vault/Race/Reading/Always.antt =====
-- The invariant along a schedule, and what reads of several sessions return.
use touchvault.Base.{
  ℕ, true, some, List, [], ◌∷◌, ◌≡◌, refl, sym, subst, Option-cases, inl, inr, All,
}
use touchvault.Effects.Programs.{Prog, done, tick, run}
use touchvault.Platform.{Platform}
use touchvault.Threads.{
  Thread, idle, waits, runs, System, Event, calls, goes, go, start_call, turn, turns, begin,
}
use touchvault.Threads.Inside.{IsLocking, turn-IsLocking, begin-IsLocking}
use touchvault.Vault.Session.{Machine}
use touchvault.Vault.Shared.{Shared}
use touchvault.Vault.Goroutines.{Request, Reply, respond}
use touchvault.Vault.Goroutines.Reading.{is_quiet, state_at}
use touchvault.Vault.Race.{machine_of, in_session, mutex, method, crews}
use touchvault.Vault.Race.Quiet.{Keeps}
use touchvault.Vault.Race.Reading.{was_locked_in, IsQuietEvent, AnsweredIn}
use touchvault.Vault.Race.Reading.Invariant.{IsReading, OnThread}
use touchvault.Vault.Race.Reading.Steps.{
  waits-IsReading, tick-IsReading, done-IsReading, update-all,
}

module _ (P : Platform) (st : Shared P) where
  -- A goroutine in a call takes its next step, whatever is left of the call.
  runs-IsReading :
      (i n : ℕ) (q : Request P) (rest : Prog (Machine P) Reply)
      (y : System (Shared P) (ℕ × Request P) Reply)
      → IsLocking (mutex P) y
      → IsReading P st y
      → y.holder n ≡ some i
      → Keeps rest
      → is_quiet q ≡ true
      → run rest (machine_of P n y.shared)
        ≡ respond P q (state_at P (machine_of P n st) (was_locked_in n y.log))
      → IsReading P st (go (mutex P) (method P) i (runs (n, q) (in_session P n rest)) y)
  unfolding go in_session
  runs-IsReading i n q (done r) y l v holds keeps quiet gives =
      done-IsReading P st y l v i n q holds r quiet gives
  runs-IsReading i n q (tick f k) y l v holds keeps quiet gives =
      tick-IsReading P st y l v i n q holds f k keeps quiet gives

  go-IsReading :
      (i : ℕ) (x : Thread (Shared P) (ℕ × Request P) Reply)
      (y : System (Shared P) (ℕ × Request P) Reply)
      → y.thread i ≡ x
      → OnThread P st y.shared y.log x
      → IsLocking (mutex P) y
      → IsReading P st y
      → IsReading P st (go (mutex P) (method P) i x y)
  unfolding go
  go-IsReading i idle y e on l v = v
  go-IsReading i (waits (n, q)) y e on l v = elim (Option-cases (y.holder n)) [
    | inr (j, locked) ↦ rw (locked, go) v
    | inl free ↦ rw (free, go) (waits-IsReading P st y l v i n q e free)
  ]
  go-IsReading i (runs (n, q) p) y e on l v =
      subst
        (λ (r : Prog (Shared P) Reply).
          IsReading P st (go (mutex P) (method P) i (runs (n, q) r) y))
        (sym on.here)
        (runs-IsReading i n q on.rest y l v (l.inside i n (rw e refl)) on.keeps on.quiet on.gives)

  start_call-IsReading :
      (i n : ℕ) (q : Request P) (x : Thread (Shared P) (ℕ × Request P) Reply)
      (y : System (Shared P) (ℕ × Request P) Reply)
      → is_quiet q ≡ true
      → IsReading P st y
      → IsReading P st (start_call (mutex P) (method P) i (n, q) x y)
  unfolding start_call
  start_call-IsReading i n q (waits o) y quiet v = v
  start_call-IsReading i n q (runs o p) y quiet v = v
  start_call-IsReading i n q idle y quiet v = record {
    doc = v.doc;
    opts = v.opts;
    world = v.world;
    keys = v.keys;
    threads =
        update-all (OnThread P st y.shared y.log) y.thread i (waits (n, q)) quiet
          (λ j ne. v.threads j);
    answered = v.answered;
  }

  turn-IsReading :
      (e : Event (ℕ × Request P)) (y : System (Shared P) (ℕ × Request P) Reply)
      → IsQuietEvent e
      → IsLocking (mutex P) y
      → IsReading P st y
      → IsReading P st (turn (mutex P) (method P) e y)
  unfolding turn
  turn-IsReading (calls i (n, q)) y quiet l v = start_call-IsReading i n q (y.thread i) y quiet v
  turn-IsReading (goes i) y quiet l v = go-IsReading i (y.thread i) y refl (v.threads i) l v

  turns-IsReading :
      (es : List (Event (ℕ × Request P))) (y : System (Shared P) (ℕ × Request P) Reply)
      → All IsQuietEvent es
      → IsLocking (mutex P) y
      → IsReading P st y
      → IsReading P st (turns (mutex P) (method P) es y)
  unfolding turns
  turns-IsReading [] y quiet l v = v
  turns-IsReading (e ∷ es) y (quiet, rest) l v =
      turns-IsReading es (turn (mutex P) (method P) e y) rest
        (turn-IsLocking (mutex P) (method P) e y l) (turn-IsReading e y quiet l v)

  -- Goroutines read several sessions of one vault, list them, serialize them and lock them, and
  -- take the steps of these methods in whatever order, each session with a mutex of its own. A read
  -- of a session that returns before any `Lock` of that session has returned gives what it gives at
  -- the start, and one that returns after gives the error of a locked session, whatever becomes of
  -- the other sessions; `Names`, `Slots` and `Sealed` give what they give at the start. The
  -- document is the one from the start, and the world is too: no touch is asked for.
  pub sessions_read :
      (es : List (Event (ℕ × Request P)))
      → All IsQuietEvent es
      → AnsweredIn st (crews P es st).log
        × ((crews P es st).shared.doc ≡ st.doc)
        × ((crews P es st).shared.world ≡ st.world)
  unfolding crews
  sessions_read es quiet =
      let v = turns-IsReading es (begin st) quiet (begin-IsLocking (mutex P) st) (record {
        doc = refl;
        opts = refl;
        world = refl;
        keys = λ m free. refl;
        threads = λ i. tt;
        answered = tt;
      }) in
      (v.answered, v.doc, v.world)
