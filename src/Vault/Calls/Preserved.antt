-- ===== src/Vault/Calls/Preserved.antt =====
-- The methods on a sound session.
use touchvault.Base.{Bytes, Text, ℤ, [], ◌∷◌, ◌++◌, Option, false, ◌≡◌, ◌≢◌}
use touchvault.Base.{All-of_map, All-to_map, All-append, inl, inr, arith}
use touchvault.Base.{is_negative, is_empty, sym, refl, ◌∙◌, if◌then◌else◌}
use touchvault.Errors.{Result, ok}
use touchvault.Effects.Runs.{Run-cases}
use touchvault.Authenticator.{Authenticator}
use touchvault.Platform.{Platform, IsFullRead}
use touchvault.Platform.Ciphers.{IsGcm}
use touchvault.Sealed.Document.{SealedVault}
use touchvault.Sealed.Find.{find_key, slot_occupied}
use touchvault.Crypto.Pure.{open_secret, unwrap_data_key}
use touchvault.Crypto.Fields.{seal_secret-fields, wrap_data_key-fields}
use touchvault.Crypto.RoundTrip.{open-seal_secret, unwrap-wrap}
use touchvault.Vault.Options.{default_label}
use touchvault.Vault.Session.{
  Machine, put_secret, keys_without, put, delete, enroll_key, remove_key, force_remove_key, key,
  lock, sealed, remove_entry,
}
use touchvault.Vault.Session.Reading.{read_string_lem}
use touchvault.Vault.Session.Writing.{put-eq-ok, delete-eq-ok}
use touchvault.Vault.Session.Enrolling.{enroll_key-eq-ok}
use touchvault.Vault.Calls.{
  Call, perform, Reach, here, next, to_read, to_lock, to_put, to_delete, to_enroll, to_remove,
  to_force_remove, to_seal,
}
use touchvault.Vault.Calls.Failed.{perform_failed}
use touchvault.Vault.Calls.Entries.{
  put_secret-All, delete_secret-All, put_secret-names_differ, delete_secret-names_differ,
  keys_without-All, keys_without-Distinct, append-Distinct, slot_in-new, find_key_in-new,
}
use touchvault.Vault.Calls.Sound.{
  IsSound, Opens, Unwraps, set_secrets-IsSound, set_keys-IsSound, held_unlocked, open_secret-header,
  unwrap_data_key-header,
}

module _ (P : Platform) (h : SealedVault) (data_key : Bytes) (law : IsGcm P.crypto)
    (full : IsFullRead P) (m m' : Machine P) (i : IsSound P h data_key m.session) where
  put-IsSound :
      (name : Text) (secret : Option (Result Bytes))
      → put P name secret m ≡ (ok tt, m')
      → IsSound P h data_key m'.session
  put-IsSound name secret done =
      let (p, entry, w, value, named, unlocked, made, after) = put-eq-ok P name secret m m' done in
      let s = m.session in
      let fields = seal_secret-fields P s.doc s.data_key name p m.world w made in
      let opens : open_secret P.crypto h data_key entry ≡ ok p =
        sym (open_secret-header P h data_key s data_key entry i)
        ∙ rw (← held_unlocked P h data_key s i unlocked)
            (open-seal_secret P law full s.doc s.data_key p name m.world w made) in
      rw after (
        set_secrets-IsSound P h data_key s (put_secret entry s.doc.secrets) i
          (All-to_map (λ n. n ≢ []) (λ t. t.name) (put_secret entry s.doc.secrets)
            (put_secret-All (λ t. t.name ≢ []) entry s.doc.secrets (ground arith)
              (All-of_map (λ n. n ≢ []) (λ t. t.name) s.doc.secrets i.well_formed.names_nonempty)))
          (put_secret-names_differ entry s.doc.secrets i.well_formed.names_differ)
          (put_secret-All (Opens P.crypto h data_key) entry s.doc.secrets (p, opens)
            i.secrets_open))

  delete-IsSound : (name : Text) → delete P name m ≡ (ok tt, m') → IsSound P h data_key m'.session
  delete-IsSound name done =
      let (kept, unlocked, deleted, after) = delete-eq-ok P name m m' done in
      let ss = m.session.doc.secrets in
      rw after (
        set_secrets-IsSound P h data_key m.session kept i
          (All-to_map (λ n. n ≢ []) (λ t. t.name) kept
            (delete_secret-All (λ t. t.name ≢ []) name ss kept deleted
              (All-of_map (λ n. n ≢ []) (λ t. t.name) ss i.well_formed.names_nonempty)))
          (delete_secret-names_differ name ss kept deleted i.well_formed.names_differ)
          (delete_secret-All (Opens P.crypto h data_key) name ss kept deleted i.secrets_open))

  keys_without-IsSound :
      (slot : ℤ)
      → let ks = keys_without slot m.session.doc.keys in
        IsSound P h data_key (record (m.session) { doc = record (m.session.doc) { keys = ks } })
  keys_without-IsSound slot =
      let ks = m.session.doc.keys in
      let v = i.well_formed in
      set_keys-IsSound P h data_key m.session (keys_without slot ks) i
        (All-to_map (λ n. is_negative n ≡ false) (λ k. k.slot) (keys_without slot ks)
          (keys_without-All (λ k. is_negative k.slot ≡ false) slot ks
            (All-of_map (λ n. is_negative n ≡ false) (λ k. k.slot) ks v.slots_nonneg)))
        (keys_without-Distinct (λ k. k.slot) slot ks v.slots_differ)
        (All-to_map (λ id. id ≢ []) (λ k. k.credential_id) (keys_without slot ks)
          (keys_without-All (λ k. k.credential_id ≢ []) slot ks
            (All-of_map (λ id. id ≢ []) (λ k. k.credential_id) ks v.credentials_nonempty)))
        (keys_without-Distinct (λ k. k.credential_id) slot ks v.credentials_differ)
        (keys_without-All (Unwraps P.crypto h data_key) slot ks i.keys_unwrap)

  remove_key-IsSound :
      (slot : ℤ) → remove_key P slot m ≡ (ok tt, m') → IsSound P h data_key m'.session
  unfolding remove_key remove_entry key
  remove_key-IsSound slot done =
      let e : record (m.session) {
        doc = record (m.session.doc) { keys = keys_without slot m.session.doc.keys };
      }
          ≡ m'.session =
        ground arith in
      rw (← e) (keys_without-IsSound slot)

  force_remove_key-IsSound :
      (slot : ℤ) → force_remove_key P slot m ≡ (ok tt, m') → IsSound P h data_key m'.session
  unfolding force_remove_key remove_entry key
  force_remove_key-IsSound slot done =
      let e : record (m.session) {
        doc = record (m.session.doc) { keys = keys_without slot m.session.doc.keys };
      }
          ≡ m'.session =
        ground arith in
      rw (← e) (keys_without-IsSound slot)

  enroll_key-IsSound :
      (auth : Authenticator P.Outside) (slot : ℤ) (label : Text)
      → enroll_key P auth slot label m ≡ (ok tt, m')
      → IsSound P h data_key m'.session
  unfolding find_key slot_occupied
  enroll_key-IsSound auth slot label done =
      let a = enroll_key-eq-ok P auth slot label m m' done in
      let s = m.session in
      let ks = s.doc.keys in
      let v = i.well_formed in
      let name = if is_empty label then default_label else label in
      let fields =
        wrap_data_key-fields P s.doc s.data_key a.cred.credential_id a.answer.secret slot name a.w₂
          a.w₃ a.wrapped in
      let wraps =
        unwrap-wrap P law full s.doc s.data_key a.cred.credential_id a.answer.secret slot name a.w₂
          a.w₃ a.wrapped in
      let unwraps : unwrap_data_key P.crypto h a.entry a.answer.secret ≡ ok data_key =
        sym (unwrap_data_key-header P h data_key s a.entry a.answer.secret i)
        ∙ rw (← held_unlocked P h data_key s i a.unlocked) wraps in
      rw a.after (
        set_keys-IsSound P h data_key s (ks ++ (a.entry ∷ [])) i
          (All-to_map (λ n. is_negative n ≡ false) (λ k. k.slot) (ks ++ (a.entry ∷ []))
            (All-append (λ k. is_negative k.slot ≡ false) ks (a.entry ∷ [])
              (All-of_map (λ n. is_negative n ≡ false) (λ k. k.slot) ks v.slots_nonneg)
              (rw fields.0 a.nonneg, tt)))
          (append-Distinct (λ k. k.slot) ks a.entry (rw fields.0 (slot_in-new ks slot a.free))
            v.slots_differ)
          (All-to_map (λ id. id ≢ []) (λ k. k.credential_id) (ks ++ (a.entry ∷ []))
            (All-append (λ k. k.credential_id ≢ []) ks (a.entry ∷ [])
              (All-of_map (λ id. id ≢ []) (λ k. k.credential_id) ks v.credentials_nonempty)
              (rw fields.2 a.enrollment.has_id, tt)))
          (append-Distinct (λ k. k.credential_id) ks a.entry
            (rw fields.2 (find_key_in-new ks a.cred.credential_id a.fresh)) v.credentials_differ)
          (All-append (Unwraps P.crypto h data_key) ks (a.entry ∷ []) i.keys_unwrap
            ((a.answer.secret, unwraps), tt)))

module _ (P : Platform) (h : SealedVault) (data_key : Bytes) (law : IsGcm P.crypto)
    (full : IsFullRead P) where
  performed-IsSound :
      (m m' : Machine P) (c : Call P)
      → perform P c m ≡ (ok tt, m')
      → IsSound P h data_key m.session
      → IsSound P h data_key m'.session
  unfolding perform lock sealed
  performed-IsSound m m' (to_read name) done i =
      let e : m ≡ m' = ground (arith, read_string_lem P name m) in rw (← e) i
  performed-IsSound m m' to_lock done i =
      let e : record m { session = record (m.session) { data_key = [] } } ≡ m' = ground arith in
      rw (← e) (record {
        header = i.header;
        held = inl refl;
        well_formed = i.well_formed;
        secrets_open = i.secrets_open;
        keys_unwrap = i.keys_unwrap;
      })
  performed-IsSound m m' (to_put name secret) done i =
      put-IsSound P h data_key law full m m' i name secret done
  performed-IsSound m m' (to_delete name) done i =
      delete-IsSound P h data_key law full m m' i name done
  performed-IsSound m m' (to_enroll auth slot label) done i =
      enroll_key-IsSound P h data_key law full m m' i auth slot label done
  performed-IsSound m m' (to_remove slot) done i =
      remove_key-IsSound P h data_key law full m m' i slot done
  performed-IsSound m m' (to_force_remove slot) done i =
      force_remove_key-IsSound P h data_key law full m m' i slot done
  performed-IsSound m m' to_seal done i = let e : m ≡ m' = ground arith in rw (← e) i

  -- Every call keeps the invariant, whether it succeeds or fails.
  pub perform-IsSound :
      (m : Machine P) (c : Call P)
      → IsSound P h data_key m.session
      → IsSound P h data_key (perform P c m).1.session
  perform-IsSound m c i = elim (Run-cases (perform P c m)) [
    | inl (x, m', e) ↦ rw e (performed-IsSound m m' c e i)
    | inr (x, m', e) ↦ rw e (rw (perform_failed P m m' x c e) i)
  ]

  -- Where the ciphers and the entropy source work as documented, in every state that calls lead to,
  -- with any authenticators, readers and failures on the way, the header of the document is the
  -- first one, the session is locked or holds the first data key, the document is well formed,
  -- every secret in it opens under that data key, and every key in it unwraps that data key, if
  -- that held of the first state.
  pub Reach-IsSound :
      {m n : Machine P}
      → IsSound P h data_key m.session
      → Reach m n
      → IsSound P h data_key n.session
  Reach-IsSound i here = i
  Reach-IsSound i (next {n} c r) = perform-IsSound n c (Reach-IsSound i r)
