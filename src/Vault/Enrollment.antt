-- ===== src/Vault/Enrollment.antt =====
-- What an enrollment that succeeded was made of.
use touchvault.Base.{some, Bytes, true, false, [], ◌∷◌, ◌++◌, ◌≡◌, ◌≢◌, arith}
use touchvault.Base.{append_assoc, inl, inr, Option-cases}
use touchvault.Errors.{ok, Result-cases}
use touchvault.Authenticator.{
  Authenticator, UserVerification, EnrollResult, DeriveResult, derive_request,
}
use touchvault.Platform.{Platform}
use touchvault.World.{World, enrolled, derived, random_bytes}
use touchvault.Sealed.Document.{SealedVault}
use touchvault.Attestation.{verify_genuine_hardware}
use touchvault.Vault.Options.{Options, rp_name, user_id_len}
use touchvault.Vault.Create.{enroll_and_derive, enroll_request}

module _ (P : Platform) (auth : Authenticator P.Outside) (doc : SealedVault) (opts : Options P)
    (uv : UserVerification) where
  -- The facts that an enrollment rests on: what the key answered, and what was checked.
  pub record Enrolled (w w' : World P) (cred : EnrollResult) (answer : DeriveResult) : Type 0 where
    pub user_id : Bytes
    pub before_draw : P.Outside
    pub drawn : (P.rand_read user_id_len before_draw).0 ≡ some user_id
    pub before_enroll : P.Outside
    pub before_derive : P.Outside
    pub enroll_answer :
        (auth.enroll (enroll_request doc.rpid (rp_name opts) user_id uv) before_enroll).0 ≡ ok cred
    pub not_resident : cred.resident_key ≡ false
    pub has_id : cred.credential_id ≢ []
    pub genuine : verify_genuine_hardware P cred opts.roots ≡ ok tt
    pub derive_answer :
        (auth.derive
          (derive_request doc.rpid (cred.credential_id ∷ []) doc.salt uv)
          before_derive).0
        ≡ ok answer
    pub present : answer.user_present ≡ true
    pub has_secret : answer.secret ≢ []
    pub gestures :
        w'.gestures
        ≡ w.gestures
          ++ (enrolled (enroll_request doc.rpid (rp_name opts) user_id uv)
              ∷ derived (derive_request doc.rpid (cred.credential_id ∷ []) doc.salt uv)
              ∷ [])

  pub enroll_and_derive-eq-ok :
      (w w' : World P) (cred : EnrollResult) (answer : DeriveResult)
      → enroll_and_derive P auth doc opts uv w ≡ (ok (cred, answer), w')
      → Enrolled w w' cred answer
  unfolding enroll_and_derive random_bytes
  enroll_and_derive-eq-ok w w' cred answer h =
      elim (Option-cases (P.rand_read user_id_len w.outside).0) [
        | inl failed ↦ absurd (ground arith)
        | inr (user_id, drawn) ↦
            let s = (P.rand_read user_id_len w.outside).1 in
            let request = enroll_request doc.rpid (rp_name opts) user_id uv in
            let t = (auth.enroll request s).1 in
            elim (Result-cases (auth.enroll request s).0) [
              | inr (e, failed) ↦ absurd (ground arith)
              | inl (c, answered) ↦
                  let ask = derive_request doc.rpid (c.credential_id ∷ []) doc.salt uv in
                  elim (Result-cases (auth.derive ask t).0) [
                    | inr (e, failed) ↦ absurd (ground arith)
                    | inl (a, derived_a) ↦
                        let same : (c ≡ cred) × (a ≡ answer) = (ground arith, ground arith) in
                        record {
                          user_id = user_id;
                          before_draw = w.outside;
                          drawn = drawn;
                          before_enroll = s;
                          before_derive = t;
                          enroll_answer = rw (← same.0) answered;
                          not_resident = ground arith;
                          has_id = ground arith;
                          genuine = ground arith;
                          derive_answer = rw (← same.0, ← same.1) derived_a;
                          present = ground arith;
                          has_secret = ground arith;
                          gestures = ground (
                            arith,
                            append_assoc w.gestures (enrolled request ∷ []) (derived ask ∷ []),
                          );
                        }
                  ]
            ]
      ]
