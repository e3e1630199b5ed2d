-- ===== src/Vault/Race/Reading/Invariant.antt =====
-- What holds at every step of goroutines that only read and lock.
use touchvault.Base.{
  ℕ, zero, suc, Bool, true, false, Bytes, none, some, List, [], ◌∷◌, ◌≡◌, ◌≢◌, refl, arith, ap,
  Option-cases, inl, inr, nth, if◌then◌else◌,
}
use touchvault.Effects.Programs.{Prog, run}
use touchvault.Platform.{Platform}
use touchvault.Threads.{Thread, idle, waits, runs, Log, System}
use touchvault.Vault.Session.{Machine, lock}
use touchvault.Vault.Shared.{Shared, set_nth}
use touchvault.Vault.Goroutines.{Request, Reply, respond}
use touchvault.Vault.Goroutines.Reading.{is_quiet, state_at}
use touchvault.Vault.Race.{data_key_of, machine_of, put_back, in_session}
use touchvault.Vault.Race.Steps.{set_nth-missing}
use touchvault.Vault.Race.Quiet.{Keeps}
use touchvault.Vault.Race.Reading.{was_locked_in, AnsweredIn}

nth-set_nth :
    (n : ℕ) (ks : List Bytes) (d k : Bytes) → nth n ks ≡ some d → nth n (set_nth n k ks) ≡ some k
unfolding nth set_nth
nth-set_nth n [] d k e = absurd (ground (arith))
nth-set_nth zero (x ∷ ks) d k e = refl
nth-set_nth (suc n) (x ∷ ks) d k e = nth-set_nth n ks d k e

nth-set_other : (n j : ℕ) (ks : List Bytes) (k : Bytes) → j ≢ n → nth j (set_nth n k ks) ≡ nth j ks
unfolding nth set_nth
nth-set_other n j [] k ne = refl
nth-set_other zero zero (x ∷ ks) k ne = absurd (ne refl)
nth-set_other zero (suc j) (x ∷ ks) k ne = refl
nth-set_other (suc n) zero (x ∷ ks) k ne = refl
nth-set_other (suc n) (suc j) (x ∷ ks) k ne = nth-set_other n j ks k (λ e. ne (ap suc e))

module _ (P : Platform) where
  -- The data keys after a step of a session.
  pub data_key_of-put_back :
      (n : ℕ) (m : Machine P) (t : Shared P)
      → (data_key_of P n t ≡ [] → m.session.data_key ≡ [])
      → data_key_of P n (put_back P n m t) ≡ m.session.data_key
  unfolding data_key_of
  data_key_of-put_back n m t dropped = elim (Option-cases (nth n t.data_keys)) [
    | inl missing ↦ ground (arith, set_nth-missing n t.data_keys m.session.data_key missing)
    | inr (d, found) ↦ ground (arith, nth-set_nth n t.data_keys d m.session.data_key found)
  ]

  pub data_key_of-other :
      (n j : ℕ) (m : Machine P) (t : Shared P)
      → j ≢ n
      → data_key_of P j (put_back P n m t) ≡ data_key_of P j t
  unfolding data_key_of
  data_key_of-other n j m t ne = ground (arith, nth-set_other n j t.data_keys m.session.data_key ne)

module _ (P : Platform) (st : Shared P) where
  -- The data key of a session by whether it has been locked.
  abbrev pub key_at : ℕ → Bool → Bytes
  key_at n b = if b then [] else data_key_of P n st

  -- A goroutine in a call of a session: what it has left gives what the call alone gives.
  pub record IsReadingOn (t : Shared P) (n : ℕ) (q : Request P) (b : Bool)
      (p : Prog (Shared P) Reply) : Type 0 where
    pub rest : Prog (Machine P) Reply
    pub here : p ≡ in_session P n rest
    pub keeps : Keeps rest
    pub quiet : is_quiet q ≡ true
    pub gives : run rest (machine_of P n t) ≡ respond P q (state_at P (machine_of P n st) b)

  -- A goroutine that is in no call, waits to make a call that only reads or locks, or makes one.
  abbrev pub OnThread :
      Shared P → Log (ℕ × Request P) Reply → Thread (Shared P) (ℕ × Request P) Reply → Type 0
  OnThread t log idle = Unit
  OnThread t log (waits (n, q)) = is_quiet q ≡ true
  OnThread t log (runs (n, q) p) = IsReadingOn t n q (was_locked_in n log) p

  pub record IsReading (y : System (Shared P) (ℕ × Request P) Reply) : Type 0 where
    pub doc : y.shared.doc ≡ st.doc
    pub opts : y.shared.opts ≡ st.opts
    pub world : y.shared.world ≡ st.world
    pub keys :
        (n : ℕ) → y.holder n ≡ none → data_key_of P n y.shared ≡ key_at n (was_locked_in n y.log)
    pub threads : (i : ℕ) → OnThread y.shared y.log (y.thread i)
    pub answered : AnsweredIn st y.log

  pub same_machine :
      (n : ℕ) (b : Bool) (t : Shared P)
      → t.doc ≡ st.doc
      → t.opts ≡ st.opts
      → t.world ≡ st.world
      → data_key_of P n t ≡ key_at n b
      → machine_of P n t ≡ state_at P (machine_of P n st) b
  unfolding lock
  same_machine n true t d o w k = cc (d, o, w, k)
  same_machine n false t d o w k = cc (d, o, w, k)
