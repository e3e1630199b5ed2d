-- ===== src/Vault/Working/Enrolling.antt =====
-- `EnrollKey` where everything around the core works.
use touchvault.Base.{
  List, All-to_map, All-of_map, All-append, All, subst, if◌then◌else◌, ◌++◌, ℤ, Bytes, Text, true,
  false, none, [], ◌∷◌, ◌≡◌, ◌≢◌, length, arith, refl, is_empty, is_negative, nat_Eq, ◌∙◌, is_empty,
  list_Eq,
}
use touchvault.Errors.{ok}
use touchvault.Authenticator.{Authenticator, salt_len}
use touchvault.Platform.{Platform, IsFullRead, NeverFails}
use touchvault.Platform.Ciphers.{IsGcm}
use touchvault.Sealed.Document.{SealedKey}
use touchvault.Sealed.Find.{find_key, slot_occupied, uv_requirement}
use touchvault.Sealed.Parse.Valid.{IsWellFormed, credentials_of}
use touchvault.Crypto.Pure.{unwrap_data_key}
use touchvault.Vault.Options.{Vault, default_label}
use touchvault.Vault.Open.{unlock}
use touchvault.Vault.Session.{Machine, set_keys, key, enroll_key}
use touchvault.Vault.Working.{IsWorkingKey}
use touchvault.Vault.Working.Entries.{wrap_data_key-outside, wrap_data_key_total}
use touchvault.Vault.Working.Enrolled.{enroll_and_derive_total, verify_total}
use touchvault.Vault.Working.Unlocks.{
  unlock_working, find_key_in-append, find_key_in-none, contains-last,
}
use touchvault.Crypto.Fields.{wrap_data_key-fields, unwrap_data_key-keys}
use touchvault.Crypto.RoundTrip.{unwrap-wrap}

credentials-append :
    (ks : List SealedKey) (e : SealedKey)
    → All (λ i. i ≢ []) (credentials_of ks)
    → e.credential_id ≢ []
    → All (λ i. i ≢ []) (credentials_of (ks ++ (e ∷ [])))
credentials-append ks e h q =
    All-to_map (λ i. i ≢ []) (λ k. k.credential_id) (ks ++ (e ∷ []))
      (All-append (λ k. k.credential_id ≢ []) ks (e ∷ [])
        (All-of_map (λ i. i ≢ []) (λ k. k.credential_id) ks h) (q, tt))

module _ (P : Platform) (law : IsGcm P.crypto) (full : IsFullRead P) (never : NeverFails P) where
  enroll_key_returns :
      (auth : Authenticator P.Outside) (slot : ℤ) (name : Text) (m : Machine P)
      (working : IsWorkingKey P auth m.session.opts.roots)
      → length m.session.doc.salt ≡ salt_len
      → is_empty m.session.data_key ≡ false
      → is_negative slot ≡ false
      → slot_occupied m.session.doc slot ≡ false
      → All (λ k. ¬ working.mine m.session.doc.rpid k.credential_id) m.session.doc.keys
      → working.verified ≡ m.session.doc.user_verified
      → (id : Bytes) × (entry : SealedKey) × (m' : Machine P) × (enroll_key P auth slot name m
          ≡ (ok tt, m'))
        × (m'.session ≡ record (m.session) {
          doc = record (m.session.doc) { keys = m.session.doc.keys ++ (entry ∷ []) };
        })
        × (entry.credential_id ≡ id)
        × working.holds m'.world.outside m.session.doc.rpid id
        × (id ≢ [])
        × (find_key m.session.doc id ≡ none)
        × (unwrap_data_key P.crypto m'.session.doc entry
              (working.output m.session.doc.rpid id m.session.doc.salt)
            ≡ ok m.session.data_key)
  unfolding enroll_key key find_key
  enroll_key_returns auth slot name m working size unlocked nonneg free others same_uv =
      let doc = m.session.doc in
      let opts = m.session.opts in
      let d = m.session.data_key in
      let uv = uv_requirement doc in
      let (cred, w₁, enrolled, mine, held₁, has_id) =
        enroll_and_derive_total P never auth opts working doc uv m.world size in
      let id = cred.credential_id in
      let prf = working.output doc.rpid id doc.salt in
      let new = find_key_in-none (working.mine doc.rpid) doc.keys id others mine in
      let (w₂, passed, held₂) =
        verify_total P never auth opts working doc.rpid id doc.salt uv w₁ held₁ has_id size in
      let label = if is_empty name then default_label else name in
      let (entry, w₃, wrapped) =
        wrap_data_key_total P law never doc d id prf slot label w₂
          (working.has_output doc.rpid id doc.salt has_id) in
      let fields = wrap_data_key-fields P doc d id prf slot label w₂ w₃ wrapped in
      let opens = unwrap-wrap P law full doc d id prf slot label w₂ w₃ wrapped in
      let (n, drew) = wrap_data_key-outside P doc d id prf slot label w₂ w₃ entry wrapped in
      (
        id,
        entry,
        set_keys P (doc.keys ++ (entry ∷ [])) (record m { world = w₃ }),
        ground (arith),
        refl,
        fields.2,
        subst (λ t. working.holds t doc.rpid id) drew
            (working.draw_keeps n w₂.outside doc.rpid id held₂),
        has_id,
        new,
        unwrap_data_key-keys P.crypto doc (doc.keys ++ (entry ∷ [])) entry prf ∙ opens,
      )

  -- Where the ciphers and the entropy source work as documented, `EnrollKey` of a working key
  -- succeeds in an unlocked session with a well-formed document that was proven salt-dependent, for
  -- a slot that is free and not negative, where no credential that is enrolled is that key's, and
  -- the key verifies the operator as the document says. The session keeps its data key. Whatever
  -- happens then outside the process, as long as the key keeps the credentials that it holds, the
  -- key unlocks the document to that session.
  pub enroll_key_total :
      (auth : Authenticator P.Outside) (slot : ℤ) (name : Text) (m : Machine P)
      (working : IsWorkingKey P auth m.session.opts.roots) (later : P.Outside → P.Outside)
      → ((s : P.Outside) (id : Bytes)
          → working.holds s m.session.doc.rpid id
          → working.holds (later s) m.session.doc.rpid id)
      → IsWellFormed m.session.doc
      → m.session.doc.entropy_verified ≡ true
      → is_empty m.session.data_key ≡ false
      → is_negative slot ≡ false
      → slot_occupied m.session.doc slot ≡ false
      → All (λ k. ¬ working.mine m.session.doc.rpid k.credential_id) m.session.doc.keys
      → working.verified ≡ m.session.doc.user_verified
      → (m' : Machine P) × (enroll_key P auth slot name m ≡ (ok tt, m'))
        × ((unlock P
              (record { doc = m'.session.doc; opts = m'.session.opts })
              auth
              (record (m'.world) { outside = later m'.world.outside })).0
            ≡ ok m'.session)
        × (m'.session.data_key ≡ m.session.data_key)
  unfolding find_key
  enroll_key_total auth slot name m working later lasting valid proven unlocked nonneg free others
        same_uv =
      let (id, entry, m', done, after, same_id, held, has_id, new, opens) =
        enroll_key_returns auth slot name m working valid.salt unlocked nonneg free others
          same_uv in
      let ks = m.session.doc.keys in
      let v : Vault P = record { doc = m'.session.doc; opts = m'.session.opts } in
      let found = find_key_in-append ks entry (rw same_id new) in
      (
        m',
        done,
        unlock_working P never auth m.session.opts working v
            (record (m'.world) { outside = later m'.world.outside }) id entry m'.session.data_key
            (rw after (lasting m'.world.outside id held))
            (λ other listed its.
              contains-last (working.mine m.session.doc.rpid) ks entry other others
                (rw after at listed) (rw after at its)
              ∙ same_id)
            (rw after (credentials-append ks entry valid.credentials_nonempty (rw same_id has_id)))
            (rw after valid.salt) (rw after proven) (rw after same_uv)
            (ground (arith, after, same_id, found)) (rw after (rw after at opens)),
        ground (arith, after),
      )
