-- ===== src/Vault/Session/Enrolling.antt =====
-- What `EnrollKey` changes.
use touchvault.Base.{ap, ℕ, ℤ, Bytes, Text, true, false, [], ◌∷◌, ◌++◌, ◌≡◌, ◌≢◌, ◌<◌, arith}
use touchvault.Base.{append_assoc, ◌∙◌, inl, inr, none, is_empty}
use touchvault.Base.{is_negative, if◌then◌else◌}
use touchvault.Errors.{ok}
use touchvault.Effects.Runs.{Run-cases}
use touchvault.Authenticator.{Authenticator, EnrollResult, DeriveResult, derive_request, salt_len}
use touchvault.Platform.{Platform, IsFullRead}
use touchvault.Platform.Ciphers.{IsGcm}
use touchvault.World.{World, enrolled, derived}
use touchvault.Attestation.{verify_genuine_hardware}
use touchvault.Sealed.Document.{SealedVault, SealedKey}
use touchvault.Sealed.Find.{find_key, slot_occupied, uv_requirement}
use touchvault.Crypto.Pure.{unwrap_data_key}
use touchvault.Crypto.Seal.{wrap_data_key}
use touchvault.Crypto.Fields.{wrap_data_key-fields}
use touchvault.Crypto.RoundTrip.{unwrap-wrap}
use touchvault.Entropy.{flip_last, verify_derivation_depends_on_salt}
use touchvault.Entropy.Gate.{verify-eq-ok, Truncates, verify_truncated}
use touchvault.Vault.Options.{rp_name, default_label}
use touchvault.Vault.Create.{enroll_and_derive, enroll_request}
use touchvault.Vault.Enrollment.{Enrolled, enroll_and_derive-eq-ok}
use touchvault.Vault.Session.{Machine, key, enroll_key, set_keys}

module _ (P : Platform) (auth : Authenticator P.Outside) (slot : ℤ) (label : Text)
    (m m' : Machine P) where
  abbrev doc : SealedVault
  doc = m.session.doc

  -- The steps that an `EnrollKey` that succeeded went through.
  pub record Added : Type 0 where
    pub unlocked : is_empty m.session.data_key ≡ false
    pub nonneg : is_negative slot ≡ false
    pub free : slot_occupied doc slot ≡ false
    pub cred : EnrollResult
    pub answer : DeriveResult
    pub entry : SealedKey
    pub w₁ : World P
    pub w₂ : World P
    pub w₃ : World P
    pub enrollment : Enrolled P auth doc m.session.opts (uv_requirement doc) m.world w₁ cred answer
    pub fresh : find_key doc cred.credential_id ≡ none
    pub same_uv : answer.user_verified ≡ doc.user_verified
    pub verified :
        verify_derivation_depends_on_salt P auth doc.rpid cred.credential_id doc.salt answer.secret
          (uv_requirement doc)
          answer.user_verified
          w₁
        ≡ (ok tt, w₂)
    pub wrapped :
        wrap_data_key P doc m.session.data_key cred.credential_id answer.secret slot
          (if is_empty label then default_label else label)
          w₂
        ≡ (ok entry, w₃)
    pub after : m' ≡ set_keys P (doc.keys ++ (entry ∷ [])) (record m { world = w₃ })

  pub enroll_key-eq-ok : enroll_key P auth slot label m ≡ (ok tt, m') → Added
  unfolding enroll_key key
  enroll_key-eq-ok h =
      let uv = uv_requirement doc in
      let name = if is_empty label then default_label else label in
      elim (Run-cases (enroll_and_derive P auth doc m.session.opts uv m.world)) [
        | inr (e, w₁, failed) ↦ absurd (ground arith)
        | inl (ca, w₁, made) ↦
            let (cred, answer) = ca in
            let id = cred.credential_id in
            elim (Run-cases (
              verify_derivation_depends_on_salt P auth doc.rpid id doc.salt answer.secret uv
                answer.user_verified w₁)) [
                  | inr (e, w₂, failed) ↦ absurd (ground arith)
                  | inl (u, w₂, verified) ↦
                      elim (Run-cases
                        (wrap_data_key P doc m.session.data_key id answer.secret slot name w₂)) [
                          | inr (e, w₃, failed) ↦ absurd (ground arith)
                          | inl (entry, w₃, wrapped) ↦ record {
                            unlocked = ground arith;
                            nonneg = ground arith;
                            free = ground arith;
                            cred = cred;
                            answer = answer;
                            entry = entry;
                            w₁ = w₁;
                            w₂ = w₂;
                            w₃ = w₃;
                            enrollment =
                                enroll_and_derive-eq-ok P auth doc m.session.opts uv m.world w₁ cred
                                  answer made;
                            fresh = ground arith;
                            same_uv = ground arith;
                            verified = verified;
                            wrapped = wrapped;
                            after = ground arith;
                          }
                        ]
                ]
      ]

  -- Where the ciphers and the entropy source work as documented, an `EnrollKey` that succeeded went
  -- into an empty slot, with a credential that the authenticator returned for an enrollment, that is
  -- new and whose attestation was verified. It asked for three touches: to enroll the key, to derive
  -- from it over the vault's salt, and to derive over the salt with its last byte flipped. What the
  -- authenticator answered when it was asked to derive with that credential over the vault's salt
  -- says that a touch was made and that the operator was verified as the document says. The new
  -- entry comes after those that were there, the output of that answer unwraps the data key from it,
  -- and nothing else of the session is changed.
  pub enroll_key_lem :
      (law : IsGcm P.crypto) (full : IsFullRead P)
      → enroll_key P auth slot label m ≡ (ok tt, m')
      → (cred : EnrollResult) × (answer : DeriveResult) × (entry : SealedKey) × (user_id : Bytes)
        × (verify_genuine_hardware P cred m.session.opts.roots ≡ ok tt)
        × (is_negative slot ≡ false)
        × (slot_occupied doc slot ≡ false)
        × (entry.slot ≡ slot)
        × (entry.credential_id ≡ cred.credential_id)
        × (find_key doc cred.credential_id ≡ none)
        × (answer.user_verified ≡ doc.user_verified)
        × (unwrap_data_key P.crypto doc entry answer.secret ≡ ok m.session.data_key)
        × (m'.session ≡ record (m.session) { doc = record doc { keys = doc.keys ++ (entry ∷ []) } })
        × (m'.world.gestures
            ≡ m.world.gestures
              ++ (enrolled
                    (enroll_request doc.rpid (rp_name m.session.opts) user_id (uv_requirement doc))
                  ∷ derived (
                      derive_request doc.rpid
                        (cred.credential_id ∷ [])
                        doc.salt
                        (uv_requirement doc))
                  ∷ derived (
                      derive_request doc.rpid
                        (cred.credential_id ∷ [])
                        (flip_last doc.salt)
                        (uv_requirement doc))
                  ∷ []))
        × (answer.user_present ≡ true)
        × (before_enroll : P.Outside) × (before_derive : P.Outside) × ((auth.enroll
              (enroll_request doc.rpid (rp_name m.session.opts) user_id (uv_requirement doc))
              before_enroll).0
            ≡ ok cred)
        × ((auth.derive
              (derive_request doc.rpid (cred.credential_id ∷ []) doc.salt (uv_requirement doc))
              before_derive).0
            ≡ ok answer)
  enroll_key_lem law full h =
      let a = enroll_key-eq-ok h in
      let name = if is_empty label then default_label else label in
      let fields =
        wrap_data_key-fields P doc m.session.data_key a.cred.credential_id a.answer.secret slot name
          a.w₂ a.w₃ a.wrapped in
      let (_, _, _, _, _, _, _, probed) =
        verify-eq-ok P auth doc.rpid a.cred.credential_id doc.salt a.answer.secret
          (uv_requirement doc) a.answer.user_verified a.w₁ a.w₂ a.verified in
      (
        a.cred,
        a.answer,
        a.entry,
        a.enrollment.user_id,
        a.enrollment.genuine,
        a.nonneg,
        a.free,
        fields.0,
        fields.2,
        a.fresh,
        a.same_uv,
        unwrap-wrap P law full doc m.session.data_key a.cred.credential_id a.answer.secret slot name
            a.w₂ a.w₃ a.wrapped,
        ap (λ (n : Machine P). n.session) a.after,
        ap (λ (n : Machine P). n.world.gestures) a.after
            ∙ rw (fields.3, probed, a.enrollment.gestures) (append_assoc m.world.gestures _ _),
        a.enrollment.present,
        a.enrollment.before_enroll,
        a.enrollment.before_derive,
        a.enrollment.enroll_answer,
        a.enrollment.derive_answer,
      )

  -- With an authenticator that reads only the first so many bytes of the salt, fewer than 32, so
  -- that its output depends on those bytes, the relying party, the allow-list and the verification
  -- alone, no key is added.
  pub enroll_key_truncated :
      (n : ℕ) → Truncates auth n → n < salt_len → enroll_key P auth slot label m ≢ (ok tt, m')
  enroll_key_truncated n t small h =
      let a = enroll_key-eq-ok h in
      verify_truncated P auth n t doc.rpid a.cred.credential_id doc.salt (uv_requirement doc)
        a.answer a.w₁ a.w₂ small
        (t.truncated _ a.enrollment.before_derive a.answer a.enrollment.derive_answer) a.verified
