-- ===== src/Vault/Touches.antt =====
-- What is asked of the operator while a key is enrolled, whatever becomes of it.
pub mod Enrolling
pub mod Creating
use touchvault.Base.{
  ℕ, ℤ, pos, Bytes, Text, Bool, true, false, List, [], ◌∷◌, ◌++◌, ◌≡◌, ◌≤◌, ◌⊎◌, ◌+◌, length, take,
  arith, refl, inl, inr, append_assoc, append-nil, Option-cases, none, some, is_empty, not, ◌==◌,
  is_negative, suc, bool_ne, ◌||◌, if◌then◌else◌, ◌∙◌, sym, ap, Bool-cases,
}
use touchvault.Errors.{Result, ok, err, Result-cases}
use touchvault.Effects.{M}
use touchvault.Effects.Runs.{Run-cases}
use touchvault.Authenticator.{
  Authenticator, UserVerification, EnrollResult, DeriveResult, derive_request, salt_len,
  uv_discouraged,
}
use touchvault.Attestation.{verify_genuine_hardware}
use touchvault.Platform.{Platform}
use touchvault.World.{World, Gesture, enrolled, derived, random_bytes}
use touchvault.Sealed.Document.{SealedVault, SealedKey}
use touchvault.Sealed.Find.{find_key, slot_occupied, uv_requirement}
use touchvault.Crypto.Pure.{data_key_len}
use touchvault.Crypto.Seal.{new_salt, new_data_key, wrap_data_key, seal}
use touchvault.Entropy.{flip_last, verify_derivation_depends_on_salt}
use touchvault.Vault.Options.{
  Options, Session, default_label, rp_name, user_id_len, validate, label, first_slot,
}
use touchvault.Vault.Create.{create, blank, enroll_and_derive, enroll_request}
use touchvault.Vault.Enrollment.{Enrolled, enroll_and_derive-eq-ok}
use touchvault.Vault.Created.{proven_doc}
use touchvault.Vault.Session.{Machine, enroll_key, key, is_enrolled}

pub gestures-random_bytes :
    (P : Platform) (n : ℕ) (w : World P) → (random_bytes P n w).1.gestures ≡ w.gestures
unfolding random_bytes
gestures-random_bytes P n w = refl

module _ (P : Platform) (auth : Authenticator P.Outside) (opts : Options P) where
  -- The touches of an enrollment: to make a credential, to derive from it over the salt, and to
  -- derive over the salt with its last byte flipped.
  abbrev pub touches : SealedVault → UserVerification → (user_id id : Bytes) → List Gesture
  touches doc uv user_id id =
      enrolled (enroll_request doc.rpid (rp_name opts) user_id uv)
      ∷ derived (derive_request doc.rpid (id ∷ []) doc.salt uv)
      ∷ derived (derive_request doc.rpid (id ∷ []) (flip_last doc.salt) uv)
      ∷ []

  -- So many of them were asked for, from the first on, and the credential that was derived from,
  -- where any was, is the one that the authenticator returned for the enrollment.
  pub record Touched (doc : SealedVault) (uv : UserVerification) (w w' : World P) : Type 0 where
    pub count : ℕ
    pub user_id : Bytes
    pub id : Bytes
    pub at_most : count ≤ 3
    pub cred : EnrollResult
    pub before : P.Outside
    pub its_own :
        (count ≤ 1)
        ⊎ (((auth.enroll (enroll_request doc.rpid (rp_name opts) user_id uv) before).0 ≡ ok cred)
            × (id ≡ cred.credential_id))
    pub gestures : w'.gestures ≡ w.gestures ++ take count (touches doc uv user_id id)

  -- What stands in for the credential where none was derived from.
  abbrev no_credential : EnrollResult
  no_credential = record {
    credential_id = [];
    prf_enabled = false;
    resident_key = false;
    attestation_format = [];
    attestation_alg = pos 0;
    attestation_signature = [];
    authenticator_data = [];
    client_data_hash = [];
    attestation_certs = [];
  }

  -- No touch, one, and two.
  pub untouched :
      (doc : SealedVault) (uv : UserVerification) (w w' : World P)
      → w'.gestures ≡ w.gestures
      → Touched doc uv w w'
  untouched doc uv w w' same = record {
    count = 0;
    user_id = [];
    id = [];
    at_most = omega arith;
    cred = no_credential;
    before = w.outside;
    its_own = inl (omega arith);
    gestures = same ∙ sym (append-nil w.gestures);
  }

  pub enroll_and_derive-Touched :
      (doc : SealedVault) (uv : UserVerification) (w : World P)
      → Touched doc uv w (enroll_and_derive P auth doc opts uv w).1
  unfolding enroll_and_derive random_bytes
  enroll_and_derive-Touched doc uv w = elim (Option-cases (P.rand_read user_id_len w.outside).0) [
    | inl failed ↦ untouched doc uv w _ (ground arith)
    | inr (user_id, drawn) ↦
        let s = (P.rand_read user_id_len w.outside).1 in
        let request = enroll_request doc.rpid (rp_name opts) user_id uv in
        let t = (auth.enroll request s).1 in
        elim (Result-cases (auth.enroll request s).0) [
          | inr (e, failed) ↦ record {
            count = 1;
            user_id = user_id;
            id = [];
            at_most = omega arith;
            cred = no_credential;
            before = s;
            its_own = inl (omega arith);
            gestures = ground arith;
          }
          | inl (c, answered) ↦ elim (Bool-cases (c.resident_key || is_empty c.credential_id)) [
            | inl refused ↦ record {
              count = 1;
              user_id = user_id;
              id = [];
              at_most = omega arith;
              cred = no_credential;
              before = s;
              its_own = inl (omega arith);
              gestures = ground arith;
            }
            | inr fine ↦ elim (Result-cases (verify_genuine_hardware P c opts.roots)) [
              | inr (e, failed) ↦ record {
                count = 1;
                user_id = user_id;
                id = [];
                at_most = omega arith;
                cred = no_credential;
                before = s;
                its_own = inl (omega arith);
                gestures = ground arith;
              }
              | inl (u, genuine) ↦
                  let ask = derive_request doc.rpid (c.credential_id ∷ []) doc.salt uv in
                  record {
                    count = 2;
                    user_id = user_id;
                    id = c.credential_id;
                    at_most = omega arith;
                    cred = c;
                    before = s;
                    its_own = inr (answered, refl);
                    gestures =
                        ground (
                          arith,
                          append_assoc w.gestures (enrolled request ∷ []) (derived ask ∷ []),
                        );
                  }
            ]
          ]
        ]
  ]

  -- The gate asks for one touch at most.
  pub gestures-verify :
      (rpid : Text) (id salt real : Bytes) (uv : UserVerification) (observed : Bool) (w : World P)
      → (k : ℕ) × (k ≤ 1)
        × ((verify_derivation_depends_on_salt P auth rpid id salt real uv observed w).1.gestures
            ≡ w.gestures
              ++ take k (derived (derive_request rpid (id ∷ []) (flip_last salt) uv) ∷ []))
  unfolding verify_derivation_depends_on_salt
  gestures-verify rpid id salt real uv observed w =
      elim (Bool-cases (not (length salt == salt_len) || is_empty real)) [
        | inl refused ↦ (0, omega arith, ground (arith, append-nil w.gestures))
        | inr asked ↦ (1, omega arith, ground arith)
      ]

  pub gestures-wrap_data_key :
      (v : SealedVault) (data_key id prf : Bytes) (slot : ℤ) (name : Text) (w : World P)
      → (wrap_data_key P v data_key id prf slot name w).1.gestures ≡ w.gestures
  unfolding wrap_data_key seal random_bytes
  gestures-wrap_data_key v data_key id prf slot name w = ground arith

  -- After an enrollment with two touches, so many more.
  pub more_touches :
      (doc : SealedVault) (uv : UserVerification) (w w₁ w' : World P) (cred : EnrollResult)
      (answer : DeriveResult) (k : ℕ)
      → Enrolled P auth doc opts uv w w₁ cred answer
      → k ≤ 1
      → w'.gestures
        ≡ w₁.gestures
          ++ take k (
              derived (derive_request doc.rpid (cred.credential_id ∷ []) (flip_last doc.salt) uv)
              ∷ [])
      → Touched doc uv w w'
  more_touches doc uv w w₁ w' cred answer k e small more = record {
    count = suc (suc k);
    user_id = e.user_id;
    id = cred.credential_id;
    at_most = omega (arith, small);
    cred = cred;
    before = e.before_enroll;
    its_own = inr (e.enroll_answer, refl);
    gestures = rw (more, e.gestures) (append_assoc w.gestures _ _);
  }
