-- ===== src/Vault/Goroutines/Sound.antt =====
-- What stays true of a session that goroutines share.
use touchvault.Base.{
  ℕ, Bool, true, false, Bytes, Text, ℤ, List, [], ◌∷◌, ◌++◌, none, Option, ◌≡◌, ◌≢◌, arith, All,
  Distinct, subst, inl, inr, ap, sym,
}
use touchvault.Errors.{Result, ok}
use touchvault.Effects.Runs.{Run-cases}
use touchvault.Authenticator.{Authenticator}
use touchvault.Platform.{Platform, IsFullRead}
use touchvault.Platform.Ciphers.{IsGcm}
use touchvault.Sealed.Document.{SealedVault}
use touchvault.Sealed.Parse.Valid.{slots_of, credentials_of}
use touchvault.Threads.{Log, Event, replay}
use touchvault.Threads.Replay.{replay-cons}
use touchvault.Vault.Session.{
  Machine, put, delete, enroll_key, lock, sealed, list_names, list_slots,
}
use touchvault.Vault.Session.Reading.{read_string_lem}
use touchvault.Vault.Session.Writing.{put-eq-ok, delete-eq-ok}
use touchvault.Vault.Session.Enrolling.{enroll_key-eq-ok}
use touchvault.Vault.Session.Removing.{remove_key-eq-ok}
use touchvault.Vault.Calls.{
  Call, perform, to_read, to_lock, to_put, to_delete, to_enroll, to_remove, to_force_remove,
  to_seal,
}
use touchvault.Vault.Calls.Failed.{perform_failed}
use touchvault.Vault.Calls.Sound.{IsSound}
use touchvault.Vault.Calls.Preserved.{perform-IsSound}
use touchvault.Vault.Goroutines.{Request, asks_names, asks_slots, makes, Reply, respond, crew}
use touchvault.Vault.Goroutines.Serial.{crew-IsSerial, respond-perform}

module _ {P : Platform} where
  abbrev pub is_force : Request P → Bool
  is_force (makes (to_force_remove slot)) = true
  is_force _ = false

  -- Any method but `ForceRemoveKey`.
  abbrev pub IsUnforced : ℕ × Request P × Result Reply → Type 0
  IsUnforced (i, q, r) = is_force q ≡ false

append_nonempty {ℓ} : {A : Type ℓ} (xs : List A) (x : A) → xs ++ (x ∷ []) ≢ []
append_nonempty [] x e = absurd (ground (arith, e))
append_nonempty (y ∷ ys) x e = absurd (ground (arith, e))

module _ (P : Platform) (m m' : Machine P) (keyed : m.session.doc.keys ≢ []) where
  enrolled_keys :
      (auth : Authenticator P.Outside) (slot : ℤ) (label : Text)
      → enroll_key P auth slot label m ≡ (ok tt, m')
      → m'.session.doc.keys ≢ []
  enrolled_keys auth slot label done =
      let a = enroll_key-eq-ok P auth slot label m m' done in
      rw a.after (append_nonempty m.session.doc.keys a.entry)

  put_keys :
      (name : Text) (secret : Option (Result Bytes))
      → put P name secret m ≡ (ok tt, m')
      → m'.session.doc.keys ≢ []
  put_keys name secret done =
      let (p, entry, w, value, named, unlocked, made, after) = put-eq-ok P name secret m m' done in
      rw after keyed

  deleted_keys : (name : Text) → delete P name m ≡ (ok tt, m') → m'.session.doc.keys ≢ []
  deleted_keys name done =
      let (rest, unlocked, deleted, after) = delete-eq-ok P name m m' done in rw after keyed

module _ (P : Platform) where
  performed_keys :
      (m m' : Machine P) (c : Call P)
      → perform P c m ≡ (ok tt, m')
      → is_force (makes c) ≡ false
      → Distinct (slots_of m.session.doc.keys)
      → Distinct (credentials_of m.session.doc.keys)
      → m.session.doc.keys ≢ []
      → m'.session.doc.keys ≢ []
  unfolding perform lock sealed
  performed_keys m m' (to_read name) done f d d' keyed =
      let same = read_string_lem P name m in ground (arith, same)
  performed_keys m m' to_lock done f d d' keyed = ground (arith)
  performed_keys m m' (to_put name secret) done f d d' keyed =
      put_keys P m m' keyed name secret done
  performed_keys m m' (to_delete name) done f d d' keyed = deleted_keys P m m' keyed name done
  performed_keys m m' (to_enroll auth slot label) done f d d' keyed =
      enrolled_keys P m m' keyed auth slot label done
  performed_keys m m' (to_remove slot) done f d d' keyed =
      (remove_key-eq-ok P slot slot [] m m' d d' done).1
  performed_keys m m' (to_force_remove slot) done f d d' keyed = absurd (ground (arith))
  performed_keys m m' to_seal done f d d' keyed = ground (arith)

  perform_keys :
      (m : Machine P) (c : Call P)
      → is_force (makes c) ≡ false
      → Distinct (slots_of m.session.doc.keys)
      → Distinct (credentials_of m.session.doc.keys)
      → m.session.doc.keys ≢ []
      → (perform P c m).1.session.doc.keys ≢ []
  perform_keys m c f d d' keyed = elim (Run-cases (perform P c m)) [
    | inl (x, m', e) ↦ rw e (performed_keys m m' c e f d d' keyed)
    | inr (x, m', e) ↦ rw e (rw (perform_failed P m m' x c e) keyed)
  ]

module _ (P : Platform) (h : SealedVault) (data_key : Bytes) (law : IsGcm P.crypto)
    (full : IsFullRead P) (m : Machine P) (i : IsSound P h data_key m.session)
    (keyed : m.session.doc.keys ≢ []) where
  -- A sound session with a key.
  abbrev IsKeyed : Machine P → Type 0
  IsKeyed n = IsSound P h data_key n.session × (n.session.doc.keys ≢ [])

  respond-IsKeyed :
      (q : Request P) (n : Machine P) → is_force q ≡ false → IsKeyed n → IsKeyed (respond P q n).1
  unfolding respond list_names list_slots
  respond-IsKeyed asks_names n f k = k
  respond-IsKeyed asks_slots n f k = k
  respond-IsKeyed (makes c) n f (sound, some_key) =
      subst (λ (t : Machine P). IsKeyed t) (sym (respond-perform P c n))
        (
          perform-IsSound P h data_key law full n c sound,
          perform_keys P n c f sound.well_formed.slots_differ sound.well_formed.credentials_differ
              some_key,
        )

  replayed-IsKeyed :
      (log : Log (Request P) Reply) (past : Machine P)
      → replay (respond P) log m ≡ (log, past)
      → All IsUnforced log
      → IsKeyed past
  unfolding replay
  replayed-IsKeyed [] past e h' =
      subst (λ (t : Machine P). IsKeyed t) (ap (λ (x : Log (Request P) Reply × Machine P). x.1) e)
        (i, keyed)
  replayed-IsKeyed ((j, q, r) ∷ log) past e (unforced, h') =
      let (t, before, step) = replay-cons (respond P) m past j q r log e in
      subst (λ (t : Machine P). IsKeyed t) (ap (λ (x : Result Reply × Machine P). x.1) step)
        (respond-IsKeyed q t unforced (replayed-IsKeyed log t before h'))

  -- Goroutines share a session that is sound and whose vault has a key, where the ciphers and the
  -- entropy source work as documented. They take the steps of the methods that they call in
  -- whatever order. Whenever none of them holds the mutex of the session, and no call of
  -- `ForceRemoveKey` has returned, the session is sound and the vault has a key left.
  pub crew-IsSound :
      (es : List (Event (Request P)))
      → (crew P es m).holder 0 ≡ none
      → All IsUnforced (crew P es m).log
      → IsSound P h data_key (crew P es m).shared.session
        × ((crew P es m).shared.session.doc.keys ≢ [])
  crew-IsSound es free unforced =
      let v = crew-IsSerial P es m in
      subst (λ (t : Machine P). IsKeyed t) (v.free free)
        (replayed-IsKeyed (crew P es m).log v.past v.replayed unforced)
