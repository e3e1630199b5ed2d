-- ===== src/Vault/Working/Enrolled.antt =====
-- Enrolling a working key, and the gate.
use touchvault.Base.{
  subst, sym, Bytes, Text, true, [], ◌∷◌, ◌≡◌, ◌≢◌, length, arith, list_eq_iff, nat_Eq,
}
use touchvault.Errors.{ok}
use touchvault.Authenticator.{
  Authenticator, UserVerification, EnrollResult, DeriveResult, derive_request, salt_len,
}
use touchvault.Platform.{Platform, NeverFails}
use touchvault.World.{World, ask_enroll, ask_derive}
use touchvault.Attestation.Genuine.{verify_genuine_hardware_iff}
use touchvault.Sealed.Document.{SealedVault}
use touchvault.Entropy.{flip_last, verify_derivation_depends_on_salt}
use touchvault.Entropy.Gate.{length-flip_last, flip_last-ne}
use touchvault.Vault.Options.{Options, rp_name, user_id_len}
use touchvault.Vault.Create.{enroll_and_derive, enroll_request}
use touchvault.Vault.Working.{IsWorkingKey}
use touchvault.Vault.Working.Entries.{random_bytes_total}

module _ (P : Platform) (never : NeverFails P) (auth : Authenticator P.Outside) (opts : Options P)
    (working : IsWorkingKey P auth opts.roots) where
  abbrev pub working_answer : Text → Bytes → Bytes → DeriveResult
  working_answer rpid id salt = record {
    secret = working.output rpid id salt;
    credential_id = id;
    user_present = true;
    user_verified = working.verified;
  }

  -- Asked with one credential that it holds, the key answers for that one.
  derives_alone :
      (rpid : Text) (id salt : Bytes) (uv : UserVerification) (s : P.Outside)
      → working.holds s rpid id
      → id ≢ []
      → length salt ≡ salt_len
      → (auth.derive (derive_request rpid (id ∷ []) salt uv) s).0 ≡ ok (working_answer rpid id salt)
  derives_alone rpid id salt uv s held has_id full =
      let (other, _, listed, answered) =
        working.derives rpid (id ∷ []) salt uv s id held (ground (arith, list_eq_iff id id))
          (has_id, tt) full in
      let same : id ≡ other = ground (arith, listed, list_eq_iff id other) in
      subst
        (λ o.
          (auth.derive (derive_request rpid (id ∷ []) salt uv) s).0
          ≡ ok (working_answer rpid o salt))
        (sym same) answered

  pub enroll_and_derive_total :
      (doc : SealedVault) (uv : UserVerification) (w : World P)
      → length doc.salt ≡ salt_len
      → (cred : EnrollResult) × (w' : World P) × (enroll_and_derive P auth doc opts uv w
          ≡ (ok (cred, working_answer doc.rpid cred.credential_id doc.salt), w'))
        × working.mine doc.rpid cred.credential_id
        × working.holds w'.outside doc.rpid cred.credential_id
        × (cred.credential_id ≢ [])
  unfolding enroll_and_derive
  enroll_and_derive_total doc uv w full =
      let (user_id, w₁, drawn) = random_bytes_total P never user_id_len w in
      let request = enroll_request doc.rpid (rp_name opts) user_id uv in
      let (cred, answered, has_id, free, genuine, mine, held) =
        working.enrolls request w₁.outside in
      let passed = (verify_genuine_hardware_iff P cred opts.roots).1 genuine in
      let w₂ = (ask_enroll P auth request w₁).1 in
      let ask = derive_request doc.rpid (cred.credential_id ∷ []) doc.salt uv in
      let derived =
        derives_alone doc.rpid cred.credential_id doc.salt uv w₂.outside held has_id full in
      let w₃ = (ask_derive P auth ask w₂).1 in
      (
        cred,
        w₃,
        ground (arith, has_id, working.has_output doc.rpid cred.credential_id doc.salt has_id),
        mine,
        working.derive_keeps ask w₂.outside doc.rpid cred.credential_id held,
        has_id,
      )

  pub verify_total :
      (rpid : Text) (id salt : Bytes) (uv : UserVerification) (w : World P)
      → working.holds w.outside rpid id
      → id ≢ []
      → length salt ≡ salt_len
      → (w' : World P) × (verify_derivation_depends_on_salt P auth rpid id salt
            (working.output rpid id salt)
            uv
            working.verified
            w
          ≡ (ok tt, w'))
        × working.holds w'.outside rpid id
  unfolding verify_derivation_depends_on_salt
  verify_total rpid id salt uv w held has_id full =
      let probe = flip_last salt in
      let full_probe : length probe ≡ salt_len = rw length-flip_last full in
      let ask = derive_request rpid (id ∷ []) probe uv in
      let derived = derives_alone rpid id probe uv w.outside held has_id full_probe in
      let differs =
        working.depends rpid id probe salt full_probe full
          (flip_last-ne salt (λ e. absurd (ground (arith, full, e)))) in
      (
        (ask_derive P auth ask w).1,
        ground (
          arith,
          working.has_output rpid id salt has_id,
          working.has_output rpid id probe has_id,
          list_eq_iff (working.output rpid id probe) (working.output rpid id salt),
        ),
        working.derive_keeps ask w.outside rpid id held,
      )
