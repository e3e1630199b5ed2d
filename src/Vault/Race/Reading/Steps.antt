-- ===== src/Vault/Race/Reading/Steps.antt =====
-- The invariant at each step of a goroutine.
use touchvault.Base.{
  ℕ, Bool, true, false, none, some, ◌∷◌, ◌≡◌, ◌≢◌, refl, arith, ap, ◌∙◌, sym, subst, Bool-cases,
  inl, inr, ◌==◌, ==_iff, if◌then◌else◌, update,
}
use touchvault.Errors.{Result}
use touchvault.Effects.Programs.{Prog, done, tick, run}
use touchvault.Platform.{Platform}
use touchvault.Threads.{Thread, idle, waits, runs, Log, System}
use touchvault.Threads.Inside.{IsLocking, IsInside}
use touchvault.Vault.Session.{Machine, lock}
use touchvault.Vault.Shared.{Shared}
use touchvault.Vault.Goroutines.{Request, Reply, respond, program}
use touchvault.Vault.Goroutines.Alone.{run-program}
use touchvault.Vault.Goroutines.Reading.{is_quiet, is_lock, state_at, respond_quiet}
use touchvault.Vault.Race.{data_key_of, machine_of, put_back, in_session, mutex, method}
use touchvault.Vault.Race.Quiet.{Keeps, program-Keeps}
use touchvault.Vault.Race.Reading.{was_locked_in}
use touchvault.Vault.Race.Reading.Invariant.{
  key_at, IsReading, OnThread, same_machine, data_key_of-put_back, data_key_of-other,
}

key_at-state_at :
    (P : Platform) (st : Shared P) (n : ℕ) (b : Bool)
    → (state_at P (machine_of P n st) b).session.data_key ≡ key_at P st n b
unfolding lock
key_at-state_at P st n true = refl
key_at-state_at P st n false = refl

-- What holds of the new value, and of the old values elsewhere, holds of all values.
pub update-all :
    {B : Type 0} (Q : B → Type 0) (f : ℕ → B) (i : ℕ) (b : B)
    → Q b
    → ((j : ℕ) → j ≢ i → Q (f j))
    → (j : ℕ) → Q (update f i b j)
update-all Q f i b new old j = elim (Bool-cases (i == j)) [
  | inl same ↦ rw same new
  | inr differ ↦ rw differ (old j (λ e. ground (arith, ==_iff i j, e)))
]

module _ (P : Platform) (st : Shared P) (y : System (Shared P) (ℕ × Request P) Reply)
    (l : IsLocking (mutex P) y) (v : IsReading P st y) (i n : ℕ) (q : Request P) where
  -- A goroutine locks the mutex of its session.
  pub waits-IsReading :
      y.thread i ≡ waits (n, q)
      → y.holder n ≡ none
      → IsReading P st (record y {
        holder = update y.holder n (some i);
        thread = update y.thread i (runs (n, q) (method P (n, q)));
      })
  waits-IsReading e free =
      let quiet : is_quiet q ≡ true =
        subst (λ (t : Thread (Shared P) (ℕ × Request P) Reply). OnThread P st y.shared y.log t) e
          (v.threads i) in
      record {
        doc = v.doc;
        opts = v.opts;
        world = v.world;
        keys = λ k h. v.keys k (ground (arith));
        threads =
            update-all (OnThread P st y.shared y.log) y.thread i (runs (n, q) (method P (n, q)))
              (record {
                rest = program P q;
                here = refl;
                keeps = program-Keeps P q quiet;
                quiet = quiet;
                gives =
                    run-program P q (machine_of P n y.shared)
                    ∙ ap (respond P q) (
                        same_machine P st n (was_locked_in n y.log) y.shared v.doc v.opts v.world
                          (v.keys n free));
              })
              (λ j ne. v.threads j);
        answered = v.answered;
      }

module _ (P : Platform) (st : Shared P) (y : System (Shared P) (ℕ × Request P) Reply)
    (l : IsLocking (mutex P) y) (v : IsReading P st y) (i n : ℕ) (q : Request P)
    (holds : y.holder n ≡ some i) (t : Shared P) (log : Log (ℕ × Request P) Reply)
    (same_m : (k : ℕ) → k ≢ n → machine_of P k t ≡ machine_of P k y.shared)
    (same_l : (k : ℕ) → k ≢ n → was_locked_in k log ≡ was_locked_in k y.log) where
  elsewhere :
      (x : Thread (Shared P) (ℕ × Request P) Reply)
      → OnThread P st y.shared y.log x
      → ((k : ℕ) → IsInside (mutex P) x k → k ≢ n)
      → OnThread P st t log x
  elsewhere idle h away = tt
  elsewhere (waits (k, r)) h away = h
  elsewhere (runs (k, r) p) h away =
      let ne = away k refl in
      record {
        rest = h.rest;
        here = h.here;
        keeps = h.keeps;
        quiet = h.quiet;
        gives =
            ap (run h.rest) (same_m k ne)
            ∙ h.gives
            ∙ ap (λ (b : Bool). respond P r (state_at P (machine_of P k st) b)) (sym (same_l k ne));
      }

  -- A goroutine that is in no call of a session that another goroutine has locked.
  other_thread : (j : ℕ) → j ≢ i → OnThread P st t log (y.thread j)
  other_thread j ne =
      elsewhere (y.thread j) (v.threads j)
        (λ k inside same. ground (arith, l.inside j k inside, same, ne))

module _ (P : Platform) (st : Shared P) (y : System (Shared P) (ℕ × Request P) Reply)
    (l : IsLocking (mutex P) y) (v : IsReading P st y) (i n : ℕ) (q : Request P)
    (holds : y.holder n ≡ some i) where
  -- A step of a method.
  pub tick-IsReading :
      (f : Machine P → Machine P) (k : Machine P → Prog (Machine P) Reply)
      → Keeps (tick f k)
      → is_quiet q ≡ true
      → run (tick f k) (machine_of P n y.shared)
        ≡ respond P q (state_at P (machine_of P n st) (was_locked_in n y.log))
      → IsReading P st (record y {
        shared = put_back P n (f (machine_of P n y.shared)) y.shared;
        thread = update y.thread i (runs (n, q) (in_session P n (k (machine_of P n y.shared))));
      })
  unfolding Keeps run
  tick-IsReading f k (kept, rest) quiet gives =
      let m = machine_of P n y.shared in
      let t = put_back P n (f m) y.shared in
      let w = kept m in
      let key = data_key_of-put_back P n (f m) y.shared w.dropped in
      let mine : machine_of P n t ≡ f m = cc (key, w.opts) in
      let others = λ (j : ℕ) (ne : j ≢ n). data_key_of-other P n j (f m) y.shared ne in
      record {
        doc = w.doc ∙ v.doc;
        opts = v.opts;
        world = w.world ∙ v.world;
        keys = λ j free. others j (λ e. ground (arith, e, holds, free)) ∙ v.keys j free;
        threads =
            update-all (OnThread P st t y.log) y.thread i (runs (n, q) (in_session P n (k m)))
              (record {
                rest = k m;
                here = refl;
                keeps = rest m;
                quiet = quiet;
                gives = ap (run (k m)) mine ∙ gives;
              })
              (other_thread P st y l v i n q holds t y.log
                (λ j ne. cc (others j ne, w.doc, w.world)) (λ j ne. refl));
        answered = v.answered;
      }

  -- The return of a method.
  pub done-IsReading :
      (r : Result Reply)
      → is_quiet q ≡ true
      → run (done r) (machine_of P n y.shared)
        ≡ respond P q (state_at P (machine_of P n st) (was_locked_in n y.log))
      → IsReading P st (record y {
        holder = update y.holder n none;
        thread = update y.thread i idle;
        log = (i, (n, q), r) ∷ y.log;
      })
  unfolding run
  done-IsReading r quiet gives =
      let b = was_locked_in n y.log in
      let all = gives ∙ respond_quiet P (machine_of P n st) q b quiet in
      let at_n : data_key_of P n y.shared ≡ key_at P st n (if is_lock q then true else b) =
        ap (λ (x : Result Reply × Machine P). x.1.session.data_key) all
        ∙ key_at-state_at P st n (if is_lock q then true else b) in
      let log' : Log (ℕ × Request P) Reply = (i, (n, q), r) ∷ y.log in
      record {
        doc = v.doc;
        opts = v.opts;
        world = v.world;
        keys = λ k free. elim (Bool-cases (n == k)) [
          | inl same ↦ rw same (
              subst
                (λ (j : ℕ).
                  data_key_of P j y.shared
                  ≡ key_at P st j (if is_lock q then true else was_locked_in j y.log))
                ((==_iff n k).0 same) at_n)
          | inr differ ↦ rw differ (v.keys k (ground (arith, differ)))
        ];
        threads = update-all (OnThread P st y.shared log') y.thread i idle tt (
            other_thread P st y l v i n q holds y.shared log' (λ j ne. refl)
              (λ j ne. ground (arith, ne, ==_iff n j)));
        answered = (ap (λ (x : Result Reply × Machine P). x.0) all, v.answered);
      }
