-- ===== src/Vault/Touches/Creating.antt =====
-- What `Create` asks of the operator.
use touchvault.Base.{
  Bytes, Bool, true, false, [], ◌≡◌, arith, refl, inl, inr, is_empty, if◌then◌else◌, ◌∙◌,
}
use touchvault.Errors.{ok}
use touchvault.Effects.Runs.{Run-cases}
use touchvault.Authenticator.{
  Authenticator, UserVerification, EnrollResult, DeriveResult, salt_len, uv_discouraged,
}
use touchvault.Platform.{Platform}
use touchvault.World.{World, random_bytes}
use touchvault.Sealed.Document.{SealedVault}
use touchvault.Crypto.Pure.{data_key_len}
use touchvault.Crypto.Seal.{new_salt, new_data_key, wrap_data_key}
use touchvault.Entropy.{verify_derivation_depends_on_salt}
use touchvault.Vault.Options.{Options, validate, label, first_slot}
use touchvault.Vault.Create.{create, blank, enroll_and_derive}
use touchvault.Vault.Enrollment.{enroll_and_derive-eq-ok}
use touchvault.Vault.Created.{proven_doc}
use touchvault.Vault.Touches.{
  Touched, gestures-random_bytes, untouched, enroll_and_derive-Touched, gestures-verify,
  gestures-wrap_data_key, more_touches,
}

module _ (P : Platform) (auth : Authenticator P.Outside) (opts : Options P) (w : World P) where
  created_touches :
      (salt : Bytes) (w₀ w₁ : World P) (cred : EnrollResult) (answer : DeriveResult)
      → is_empty opts.rpid ≡ false
      → random_bytes P salt_len w ≡ (ok salt, w₀)
      → enroll_and_derive P auth (blank P opts.rpid salt) opts uv_discouraged w₀
        ≡ (ok (cred, answer), w₁)
      → Touched P auth opts (blank P opts.rpid salt) uv_discouraged w₀ (create P auth opts w).1
  unfolding create validate new_salt new_data_key
  created_touches salt w₀ w₁ cred answer named drawn made =
      let doc = blank P opts.rpid salt in
      let e = enroll_and_derive-eq-ok P auth doc opts uv_discouraged w₀ w₁ cred answer made in
      let id = cred.credential_id in
      let uv = uv_discouraged in
      let (k, small, asked) =
        gestures-verify P auth opts opts.rpid id salt answer.secret uv answer.user_verified w₁ in
      let gate =
        verify_derivation_depends_on_salt P auth opts.rpid id salt answer.secret uv
          answer.user_verified w₁ in
      let after : (create P auth opts w).1.gestures ≡ gate.1.gestures = elim (Run-cases gate) [
        | inr (x, w₂, failed) ↦ ground arith
        | inl (u, w₂, through) ↦ elim (Run-cases (random_bytes P data_key_len w₂)) [
          | inr (x, w₃, failed) ↦ ground (arith, gestures-random_bytes P data_key_len w₂)
          | inl (data_key, w₃, keyed) ↦
              let proven = proven_doc opts salt answer.user_verified in
              let same =
                gestures-wrap_data_key P auth opts proven data_key id answer.secret first_slot
                  (label opts) w₃ in
              let kept = gestures-random_bytes P data_key_len w₂ in
              elim (Run-cases
                (wrap_data_key P proven data_key id answer.secret first_slot (label opts) w₃)) [
                  | inr (x, w₄, failed) ↦ ground (arith, same, kept)
                  | inl (entry, w₄, wrapped) ↦ ground (arith, same, kept)
                ]
        ]
      ] in
      more_touches P auth opts doc uv w₀ w₁ _ cred answer k e small (after ∙ asked)

  moved :
      (doc : SealedVault) (uv : UserVerification) (w₀ w' : World P)
      → w₀.gestures ≡ w.gestures
      → Touched P auth opts doc uv w₀ w'
      → Touched P auth opts doc uv w w'
  moved doc uv w₀ w' same t = record {
    count = t.count;
    user_id = t.user_id;
    id = t.id;
    at_most = t.at_most;
    cred = t.cred;
    before = t.before;
    its_own = t.its_own;
    gestures = rw same at t.gestures;
  }

  named_touches :
      is_empty opts.rpid ≡ false
      → (salt : Bytes) × Touched P auth opts
          (blank P opts.rpid salt)
          uv_discouraged
          w
          (create P auth opts w).1
  unfolding create validate new_salt
  named_touches named = elim (Run-cases (random_bytes P salt_len w)) [
    | inr (x, w₀, failed) ↦ (
      [],
      untouched P auth opts (blank P opts.rpid []) uv_discouraged w _
          (ground (arith, gestures-random_bytes P salt_len w)),
    )
    | inl (salt, w₀, drawn) ↦
        let doc = blank P opts.rpid salt in
        let same : w₀.gestures ≡ w.gestures = ground (arith, gestures-random_bytes P salt_len w) in
        let rest : Touched P auth opts doc uv_discouraged w₀ (create P auth opts w).1 =
          elim (Run-cases (enroll_and_derive P auth doc opts uv_discouraged w₀)) [
            | inl (ca, w₁, made) ↦ created_touches salt w₀ w₁ ca.0 ca.1 named drawn made
            | inr (x, w₁, failed) ↦
                let t = enroll_and_derive-Touched P auth opts doc uv_discouraged w₀ in
                record {
                  count = t.count;
                  user_id = t.user_id;
                  id = t.id;
                  at_most = t.at_most;
                  cred = t.cred;
                  before = t.before;
                  its_own = t.its_own;
                  gestures = ground (arith, t.gestures);
                }
          ] in
        (salt, moved doc uv_discouraged w₀ _ same rest)
  ]

  by_name :
      (nameless : Bool)
      → is_empty opts.rpid ≡ nameless
      → let after = (create P auth opts w).1 in
        if nameless
        then (after.gestures ≡ w.gestures)
        else (salt : Bytes) × Touched P auth opts (blank P opts.rpid salt) uv_discouraged w after
  unfolding create validate
  by_name true e = ground arith
  by_name false e = named_touches e

  -- Whatever becomes of a `Create`: one with no relying party is refused with no touch. Otherwise
  -- at most three touches are asked for, in this order: to make a credential, to derive over a salt
  -- from the credential that the authenticator returned, and to derive from it over that salt with
  -- its last byte flipped.
  pub create-Touched :
      let after = (create P auth opts w).1 in
      if is_empty opts.rpid
      then (after.gestures ≡ w.gestures)
      else (salt : Bytes) × Touched P auth opts (blank P opts.rpid salt) uv_discouraged w after
  create-Touched = by_name (is_empty opts.rpid) refl
