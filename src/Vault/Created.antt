-- ===== src/Vault/Created.antt =====
-- What `Create` returns.
use touchvault.Base.{ℕ, Bytes, Bool, true, [], ◌∷◌, ◌++◌, ◌≡◌, ◌≢◌, ◌<◌, arith}
use touchvault.Base.{append_assoc, ◌∙◌, inl, inr, refl, length}
use touchvault.Errors.{ok}
use touchvault.Effects.Runs.{Run-cases}
use touchvault.Authenticator.{
  Authenticator, uv_discouraged, EnrollResult, DeriveResult, derive_request, salt_len,
}
use touchvault.Platform.{Platform, IsFullRead}
use touchvault.Platform.Ciphers.{IsGcm}
use touchvault.World.{World, enrolled, derived, random_bytes}
use touchvault.Sealed.Document.{SealedVault, SealedKey}
use touchvault.Sealed.Parse.Valid.{IsWellFormed}
use touchvault.Crypto.Pure.{data_key_len, unwrap_data_key}
use touchvault.Crypto.Seal.{new_salt, new_data_key, wrap_data_key}
use touchvault.Crypto.Fields.{random_bytes-eq-ok, wrap_data_key-fields, unwrap_data_key-keys}
use touchvault.Crypto.RoundTrip.{unwrap-wrap}
use touchvault.Attestation.{verify_genuine_hardware}
use touchvault.Entropy.{flip_last, verify_derivation_depends_on_salt}
use touchvault.Entropy.Gate.{verify-eq-ok, Truncates, verify_truncated}
use touchvault.Vault.Options.{Options, Session, validate, label, rp_name, first_slot}
use touchvault.Vault.Create.{create, blank, enroll_and_derive, enroll_request}
use touchvault.Vault.Enrollment.{Enrolled, enroll_and_derive-eq-ok}

-- The document after the gate has passed.
abbrev pub proven_doc : {P : Platform} → Options P → Bytes → Bool → SealedVault
proven_doc {P} opts salt uv = record (blank P opts.rpid salt) {
  user_verified = uv;
  entropy_verified = true;
}

module _ (P : Platform) (auth : Authenticator P.Outside) (opts : Options P) where
  -- The steps that a `Create` that succeeded went through.
  pub record Created (w w' : World P) (s : Session P) : Type 0 where
    pub named : opts.rpid ≢ []
    pub salt : Bytes
    pub cred : EnrollResult
    pub answer : DeriveResult
    pub entry : SealedKey
    pub w₁ : World P
    pub w₂ : World P
    pub w₃ : World P
    pub w₄ : World P
    pub salted : random_bytes P salt_len w ≡ (ok salt, w₁)
    pub enrollment : Enrolled P auth (blank P opts.rpid salt) opts uv_discouraged w₁ w₂ cred answer
    pub verified :
        verify_derivation_depends_on_salt P auth opts.rpid cred.credential_id salt answer.secret
          uv_discouraged answer.user_verified w₂
        ≡ (ok tt, w₃)
    pub keyed : random_bytes P data_key_len w₃ ≡ (ok s.data_key, w₄)
    pub wrapped :
        wrap_data_key P
          (proven_doc opts salt answer.user_verified)
          s.data_key
          cred.credential_id
          answer.secret
          first_slot
          (label opts)
          w₄
        ≡ (ok entry, w')
    pub document : s.doc ≡ record (proven_doc opts salt answer.user_verified) { keys = entry ∷ [] }
    pub options : s.opts ≡ opts

  pub create-eq-ok :
      (w w' : World P) (s : Session P) → create P auth opts w ≡ (ok s, w') → Created w w' s
  unfolding create validate new_salt new_data_key
  create-eq-ok w w' s h = elim (Run-cases (random_bytes P salt_len w)) [
    | inr (e, w₁, failed) ↦ absurd (ground arith)
    | inl (salt, w₁, salted) ↦
        elim (Run-cases
          (enroll_and_derive P auth (blank P opts.rpid salt) opts uv_discouraged w₁)) [
            | inr (e, w₂, failed) ↦ absurd (ground arith)
            | inl (ca, w₂, made) ↦
                let (cred, answer) = ca in
                let id = cred.credential_id in
                let doc = proven_doc opts salt answer.user_verified in
                elim (Run-cases (
                  verify_derivation_depends_on_salt P auth opts.rpid id salt answer.secret
                    uv_discouraged answer.user_verified w₂)) [
                      | inr (e, w₃, failed) ↦ absurd (ground arith)
                      | inl (u, w₃, verified) ↦ elim (Run-cases (random_bytes P data_key_len w₃)) [
                        | inr (e, w₄, failed) ↦ absurd (ground arith)
                        | inl (k, w₄, keyed) ↦
                            elim (Run-cases
                              (wrap_data_key P doc k id answer.secret first_slot (label opts) w₄)) [
                                | inr (e, w₅, failed) ↦ absurd (ground arith)
                                | inl (entry, w₅, wrapped) ↦
                                    let finish : (w₅ ≡ w') × (k ≡ s.data_key) =
                                      (ground arith, ground arith) in
                                    record {
                                      named = ground arith;
                                      salt = salt;
                                      cred = cred;
                                      answer = answer;
                                      entry = entry;
                                      w₁ = w₁;
                                      w₂ = w₂;
                                      w₃ = w₃;
                                      w₄ = w₄;
                                      salted = salted;
                                      enrollment =
                                          enroll_and_derive-eq-ok P auth (blank P opts.rpid salt)
                                            opts uv_discouraged w₁ w₂ cred answer made;
                                      verified = verified;
                                      keyed = rw (← finish.1) keyed;
                                      wrapped = rw (← finish.0, ← finish.1) wrapped;
                                      document = ground arith;
                                      options = ground arith;
                                    }
                              ]
                      ]
                    ]
          ]
  ]

single-IsWellFormed :
    {P : Platform} (opts : Options P) (salt : Bytes) (uv : Bool) (entry : SealedKey)
    → opts.rpid ≢ []
    → length salt ≡ salt_len
    → entry.slot ≡ first_slot
    → entry.credential_id ≢ []
    → IsWellFormed (record (proven_doc opts salt uv) { keys = entry ∷ [] })
single-IsWellFormed opts salt uv entry named full slot has_id = record {
  format = refl;
  salt = full;
  rpid = named;
  slots_nonneg = (ground arith, tt);
  slots_differ = (tt, tt);
  credentials_nonempty = (has_id, tt);
  credentials_differ = (tt, tt);
  names_nonempty = tt;
  names_differ = tt;
}

module _ (P : Platform) (law : IsGcm P.crypto) (full : IsFullRead P)
    (auth : Authenticator P.Outside) (opts : Options P) (w w' : World P) (s : Session P)
    (created : create P auth opts w ≡ (ok s, w')) where
  -- Where the ciphers and the entropy source work as documented, a vault that `Create` returns is
  -- well formed, and its gate was passed. It has no secrets, and one key, in slot 0: a credential
  -- that the authenticator returned for an enrollment, whose attestation was verified. What the
  -- authenticator answered when it was asked to derive with that credential over the vault's salt
  -- says that a touch was made, and that the operator was verified as the document says, and its
  -- output unwraps the session's data key of 32 bytes. Three touches were asked for: to enroll a
  -- key, to derive from it over the salt, and to derive over the salt with its last byte flipped.
  pub create_lem :
      (cred : EnrollResult) × (answer : DeriveResult) × (entry : SealedKey) × (user_id : Bytes)
      × (verify_genuine_hardware P cred opts.roots ≡ ok tt)
      × IsWellFormed s.doc
      × (s.doc.rpid ≡ opts.rpid)
      × (s.doc.entropy_verified ≡ true)
      × (s.doc.user_verified ≡ answer.user_verified)
      × (answer.user_present ≡ true)
      × (s.doc.secrets ≡ [])
      × (s.doc.keys ≡ entry ∷ [])
      × (entry.slot ≡ first_slot)
      × (entry.credential_id ≡ cred.credential_id)
      × (unwrap_data_key P.crypto s.doc entry answer.secret ≡ ok s.data_key)
      × (length s.data_key ≡ data_key_len)
      × (w'.gestures
          ≡ w.gestures
            ++ (enrolled (enroll_request opts.rpid (rp_name opts) user_id uv_discouraged)
                ∷ derived
                    (derive_request opts.rpid (cred.credential_id ∷ []) s.doc.salt uv_discouraged)
                ∷ derived (
                    derive_request opts.rpid
                      (cred.credential_id ∷ [])
                      (flip_last s.doc.salt)
                      uv_discouraged)
                ∷ []))
      × (before_enroll : P.Outside) × (before_derive : P.Outside) × ((auth.enroll
            (enroll_request opts.rpid (rp_name opts) user_id uv_discouraged)
            before_enroll).0
          ≡ ok cred)
      × ((auth.derive
            (derive_request opts.rpid (cred.credential_id ∷ []) s.doc.salt uv_discouraged)
            before_derive).0
          ≡ ok answer)
  create_lem =
      let c = create-eq-ok P auth opts w w' s created in
      let doc = proven_doc opts c.salt c.answer.user_verified in
      let salted = random_bytes-eq-ok P full salt_len w c.w₁ c.salted in
      let keyed = random_bytes-eq-ok P full data_key_len c.w₃ c.w₄ c.keyed in
      let fields =
        wrap_data_key-fields P doc s.data_key c.cred.credential_id c.answer.secret first_slot
          (label opts) c.w₄ w' c.wrapped in
      let opens =
        unwrap-wrap P law full doc s.data_key c.cred.credential_id c.answer.secret first_slot
          (label opts) c.w₄ w' c.wrapped in
      let (_, _, _, _, _, _, _, probed) =
        verify-eq-ok P auth opts.rpid c.cred.credential_id c.salt c.answer.secret uv_discouraged
          c.answer.user_verified c.w₂ c.w₃ c.verified in
      (
        c.cred,
        c.answer,
        c.entry,
        c.enrollment.user_id,
        c.enrollment.genuine,
        rw c.document (
            single-IsWellFormed opts c.salt c.answer.user_verified c.entry c.named salted.0 fields.0
              (rw fields.2 c.enrollment.has_id)),
        ground arith,
        ground arith,
        ground arith,
        c.enrollment.present,
        ground arith,
        ground arith,
        fields.0,
        fields.2,
        rw c.document
            (unwrap_data_key-keys P.crypto doc (c.entry ∷ []) c.entry c.answer.secret ∙ opens),
        keyed.0,
        rw (c.document, fields.3, keyed.1, probed, c.enrollment.gestures, salted.1)
            (append_assoc w.gestures _ _),
        c.enrollment.before_enroll,
        c.enrollment.before_derive,
        c.enrollment.enroll_answer,
        rw c.document c.enrollment.derive_answer,
      )

module _ (P : Platform) (auth : Authenticator P.Outside) (opts : Options P) where
  -- With an authenticator that reads only the first so many bytes of the salt, fewer than 32, so
  -- that its output depends on those bytes, the relying party, the allow-list and the verification
  -- alone, no vault is created.
  pub create_truncated :
      (n : ℕ)
      → Truncates auth n
      → n < salt_len
      → (w w' : World P) (s : Session P) → create P auth opts w ≢ (ok s, w')
  create_truncated n t small w w' s created =
      let c = create-eq-ok P auth opts w w' s created in
      verify_truncated P auth n t opts.rpid c.cred.credential_id c.salt uv_discouraged c.answer c.w₂
        c.w₃ small (t.truncated _ c.enrollment.before_derive c.answer c.enrollment.derive_answer)
        c.verified
