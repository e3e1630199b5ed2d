-- ===== src/Vault/Calls/Derived.antt =====
-- The keys of a vault, each of which unwraps the data key with the output that hmac-secret has for
-- its credential.
use touchvault.Base.{
  ℤ, Bytes, Text, Bool, [], ◌∷◌, ◌≡◌, ◌∙◌, sym, All, All-append, arith, inl, inr, is_empty,
  if◌then◌else◌, list_Eq, list_eq_iff, nat_Eq, subst,
}
use touchvault.Errors.{ok}
use touchvault.Effects.Runs.{Run-cases}
use touchvault.Authenticator.{Authenticator, IsHmacSecret, DeriveResult, derive_request}
use touchvault.Platform.{Platform, IsFullRead}
use touchvault.Platform.Ciphers.{IsGcm}
use touchvault.Sealed.Document.{SealedVault, SealedKey}
use touchvault.Sealed.Find.{uv_requirement}
use touchvault.Crypto.Pure.{unwrap_data_key}
use touchvault.Crypto.Fields.{wrap_data_key-fields}
use touchvault.Crypto.RoundTrip.{unwrap-wrap}
use touchvault.Vault.Options.{default_label}
use touchvault.Vault.Session.{
  Machine, enroll_key, remove_key, force_remove_key, remove_entry, keys_without, key, lock, sealed,
}
use touchvault.Vault.Session.Reading.{read_string_lem}
use touchvault.Vault.Session.Writing.{put-eq-ok, delete-eq-ok}
use touchvault.Vault.Session.Enrolling.{enroll_key-eq-ok}
use touchvault.Vault.Calls.{
  Call, perform, to_read, to_lock, to_put, to_delete, to_enroll, to_remove, to_force_remove,
  to_seal,
}
use touchvault.Vault.Calls.Failed.{perform_failed}
use touchvault.Vault.Calls.Entries.{keys_without-All}
use touchvault.Vault.Calls.Sound.{IsSound, held_unlocked, unwrap_data_key-header}

-- An answer for an allow-list of one credential is of that credential, with its output.
pub derived_alone :
    {S : Type 0} (output : Text → Bytes → Bytes → Bool → Bytes) (auth : Authenticator S)
    (prf : IsHmacSecret output auth) (rpid : Text) (id salt : Bytes)
    (uv : touchvault.Authenticator.UserVerification) (s : S) (r : DeriveResult)
    → (auth.derive (derive_request rpid (id ∷ []) salt uv) s).0 ≡ ok r
    → r.secret ≡ output rpid id salt r.user_verified
derived_alone output auth prf rpid id salt uv s r answered =
    let req = derive_request rpid (id ∷ []) salt uv in
    let same : id ≡ r.credential_id =
      ground (arith, prf.listed req s r answered, list_eq_iff id r.credential_id) in
    rw same (prf.outputs req s r answered)

-- The authenticator of a call, where it has one, computes hmac-secret.
abbrev pub Honest : {P : Platform} → (Text → Bytes → Bytes → Bool → Bytes) → Call P → Type 0
Honest output (to_enroll auth slot label) = IsHmacSecret output auth
Honest output _ = Unit

module _ (P : Platform) (output : Text → Bytes → Bytes → Bool → Bytes) (h : SealedVault)
    (data_key : Bytes) where
  -- A key unwraps the data key with the output for its credential over the salt.
  abbrev pub Derives : SealedKey → Type 0
  Derives k =
      unwrap_data_key P.crypto h k (output h.rpid k.credential_id h.salt h.user_verified)
      ≡ ok data_key

  module _ (law : IsGcm P.crypto) (full : IsFullRead P) (m m' : Machine P)
      (i : IsSound P h data_key m.session) (all : All Derives m.session.doc.keys) where
    enroll_key-Derives :
        (auth : Authenticator P.Outside) (slot : ℤ) (label : Text)
        → IsHmacSecret output auth
        → enroll_key P auth slot label m ≡ (ok tt, m')
        → All Derives m'.session.doc.keys
    enroll_key-Derives auth slot label prf done =
        let a = enroll_key-eq-ok P auth slot label m m' done in
        let s = m.session in
        let name = if is_empty label then default_label else label in
        let fields =
          wrap_data_key-fields P s.doc s.data_key a.cred.credential_id a.answer.secret slot name
            a.w₂ a.w₃ a.wrapped in
        let wraps =
          unwrap-wrap P law full s.doc s.data_key a.cred.credential_id a.answer.secret slot name
            a.w₂ a.w₃ a.wrapped in
        let unwraps : unwrap_data_key P.crypto h a.entry a.answer.secret ≡ ok data_key =
          sym (unwrap_data_key-header P h data_key s a.entry a.answer.secret i)
          ∙ rw (← held_unlocked P h data_key s i a.unlocked) wraps in
        let secret : a.answer.secret ≡ output h.rpid a.entry.credential_id h.salt h.user_verified =
          ground (
            arith,
            i.header,
            fields.2,
            a.same_uv,
            derived_alone output auth prf s.doc.rpid a.cred.credential_id s.doc.salt
                (uv_requirement s.doc) a.enrollment.before_derive a.answer
                a.enrollment.derive_answer,
          ) in
        rw a.after (All-append Derives s.doc.keys (a.entry ∷ []) all (rw secret at unwraps, tt))

    keys_without-Derives :
        (slot : ℤ)
        → keys_without slot m.session.doc.keys ≡ m'.session.doc.keys
        → All Derives m'.session.doc.keys
    keys_without-Derives slot e =
        subst (λ ks. All Derives ks) e (keys_without-All Derives slot m.session.doc.keys all)

    same_keys : m.session.doc.keys ≡ m'.session.doc.keys → All Derives m'.session.doc.keys
    same_keys e = subst (λ ks. All Derives ks) e all

    performed-Derives :
        (c : Call P)
        → Honest output c
        → perform P c m ≡ (ok tt, m')
        → All Derives m'.session.doc.keys
    unfolding perform lock sealed remove_key force_remove_key remove_entry key
    performed-Derives (to_read name) q done = same_keys (ground (arith, read_string_lem P name m))
    performed-Derives to_lock q done = same_keys (ground arith)
    performed-Derives (to_put name secret) q done =
        let (p, entry, w, value, named, unlocked, made, after) =
          put-eq-ok P name secret m m' done in
        same_keys (ground (arith, after))
    performed-Derives (to_delete name) q done =
        let (kept, unlocked, deleted, after) = delete-eq-ok P name m m' done in
        same_keys (ground (arith, after))
    performed-Derives (to_enroll auth slot label) q done = enroll_key-Derives auth slot label q done
    performed-Derives (to_remove slot) q done = keys_without-Derives slot (ground arith)
    performed-Derives (to_force_remove slot) q done = keys_without-Derives slot (ground arith)
    performed-Derives to_seal q done = same_keys (ground arith)

  -- Every call whose authenticator computes hmac-secret keeps this of the keys.
  pub perform-Derives :
      (law : IsGcm P.crypto) (full : IsFullRead P) (m : Machine P) (c : Call P)
      → Honest output c
      → IsSound P h data_key m.session
      → All Derives m.session.doc.keys
      → All Derives (perform P c m).1.session.doc.keys
  perform-Derives law full m c q i all = elim (Run-cases (perform P c m)) [
    | inl (x, m', e) ↦ rw e (performed-Derives law full m m' i all c q e)
    | inr (x, m', e) ↦ rw e (rw (perform_failed P m m' x c e) all)
  ]
