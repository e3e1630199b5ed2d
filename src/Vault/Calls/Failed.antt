-- ===== src/Vault/Calls/Failed.antt =====
-- A call that fails.
use touchvault.Base.{ℤ, Bytes, Text, Option, some, none, ◌≡◌, arith, inl, inr, Option-cases}
use touchvault.Base.{is_empty, if◌then◌else◌}
use touchvault.Errors.{Error, Result, ok, err}
use touchvault.Effects.Runs.{Run-cases}
use touchvault.Authenticator.{Authenticator}
use touchvault.Platform.{Platform}
use touchvault.Sealed.Find.{uv_requirement}
use touchvault.Crypto.Seal.{seal_secret, wrap_data_key}
use touchvault.Entropy.{verify_derivation_depends_on_salt}
use touchvault.Vault.Options.{default_label}
use touchvault.Vault.Create.{enroll_and_derive}
use touchvault.Vault.Session.{
  Machine, key, lock, put, delete, delete_secret, enroll_key, remove_key, remove_entry,
  force_remove_key, sealed,
}
use touchvault.Vault.Session.Reading.{read_string_lem}
use touchvault.Vault.Calls.{
  Call, perform, to_read, to_lock, to_put, to_delete, to_enroll, to_remove, to_force_remove,
  to_seal,
}

module _ (P : Platform) (m m' : Machine P) (e : Error) where
  put_failed :
      (name : Text) (secret : Option (Result Bytes))
      → put P name secret m ≡ (err e, m')
      → m'.session ≡ m.session
  unfolding put key
  put_failed name none h = ground arith
  put_failed name (some (err x)) h = ground arith
  put_failed name (some (ok p)) h =
      elim (Run-cases (seal_secret P m.session.doc m.session.data_key name p m.world)) [
        | inr (x, w, failed) ↦ ground arith
        | inl (entry, w, made) ↦ ground arith
      ]

  delete_failed : (name : Text) → delete P name m ≡ (err e, m') → m'.session ≡ m.session
  unfolding delete key
  delete_failed name h = elim (Option-cases (delete_secret name m.session.doc.secrets)) [
    | inl missing ↦ ground arith
    | inr (kept, found) ↦ ground arith
  ]

  remove_key_failed : (slot : ℤ) → remove_key P slot m ≡ (err e, m') → m'.session ≡ m.session
  unfolding remove_key remove_entry key
  remove_key_failed slot h = ground arith

  force_remove_key_failed :
      (slot : ℤ) → force_remove_key P slot m ≡ (err e, m') → m'.session ≡ m.session
  unfolding force_remove_key remove_entry key
  force_remove_key_failed slot h = ground arith

  enroll_key_failed :
      (auth : Authenticator P.Outside) (slot : ℤ) (label : Text)
      → enroll_key P auth slot label m ≡ (err e, m')
      → m'.session ≡ m.session
  unfolding enroll_key key
  enroll_key_failed auth slot label h =
      let doc = m.session.doc in
      let uv = uv_requirement doc in
      elim (Run-cases (enroll_and_derive P auth doc m.session.opts uv m.world)) [
        | inr (x, w₁, failed) ↦ ground arith
        | inl (ca, w₁, made) ↦
            let (cred, answer) = ca in
            elim (Run-cases (
              verify_derivation_depends_on_salt P auth doc.rpid cred.credential_id doc.salt
                answer.secret uv answer.user_verified w₁)) [
                  | inr (x, w₂, failed) ↦ ground arith
                  | inl (u, w₂, verified) ↦
                      elim (Run-cases (
                        wrap_data_key P doc m.session.data_key cred.credential_id answer.secret slot
                          (if is_empty label then default_label else label) w₂)) [
                            | inr (x, w₃, failed) ↦ ground arith
                            | inl (entry, w₃, wrapped) ↦ ground arith
                          ]
                ]
      ]

  -- Whichever method fails, and wherever it fails, the document, the options and the data key are
  -- the ones from before the call.
  pub perform_failed : (c : Call P) → perform P c m ≡ (err e, m') → m'.session ≡ m.session
  unfolding perform lock sealed
  perform_failed (to_read name) h = ground (arith, read_string_lem P name m)
  perform_failed to_lock h = absurd (ground arith)
  perform_failed (to_put name secret) h = put_failed name secret h
  perform_failed (to_delete name) h = delete_failed name h
  perform_failed (to_enroll auth slot label) h = enroll_key_failed auth slot label h
  perform_failed (to_remove slot) h = remove_key_failed slot h
  perform_failed (to_force_remove slot) h = force_remove_key_failed slot h
  perform_failed to_seal h = ground arith
