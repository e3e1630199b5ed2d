-- ===== src/Tests/Gate.antt =====
-- The gate, enrollment and attestation, applied at runs.
use touchvault.Vault.Create.{blank, create, enroll_request}
use touchvault.Base.{
  if◌then◌else◌, is_empty, ◌≡◌, ◌≢◌, ◌↔◌, ◌++◌, refl, arith, [], ◌∷◌, none, true, Bytes, nat_Eq,
  length, codes, List, All, some,
}
use touchvault.Errors.{ok}
use touchvault.Authenticator.{
  EnrollResult, DeriveResult, derive_request, uv_discouraged, DeriveRequest, salt_len,
}
use touchvault.World.{World, enrolled, derived}
use touchvault.Attestation.{verify_genuine_hardware}
use touchvault.Attestation.Genuine.{IsGenuine, verify_genuine_hardware_iff}
use touchvault.Attestation.Describe.{bundled_roots}
use touchvault.Attestation.Roots.{
  Use, asks, changes, untouched, pool_at, ask_roots, verify_with, use_all,
}
use touchvault.Attestation.Roots.Intact.{bundled_roots_lem}
use touchvault.Sealed.Document.{SealedKey}
use touchvault.Sealed.Parse.Valid.{IsWellFormed}
use touchvault.Crypto.Pure.{unwrap_data_key, data_key_len}
use touchvault.Entropy.{flip_last, verify_derivation_depends_on_salt}
use touchvault.Entropy.Gate.{verify-eq-ok}
use touchvault.Vault.Touches.{Touched}
use touchvault.Vault.Touches.Creating.{create-Touched}
use touchvault.Vault.Options.{first_slot, rp_name}
use touchvault.Vault.Created.{create_lem, create_truncated}
use touchvault.Toy.Cipher.{toy-IsGcm}
use touchvault.Toy.Keys.{
  toy, toy-IsFullRead, first_key, short_key, short_key-Truncates, toy_options, start, credential,
}
use touchvault.Tests.Created.{made_session, made_world, created, salt}

create_lem_example :
    (cred : EnrollResult) × (answer : DeriveResult) × (entry : SealedKey) × (user_id : Bytes)
    × (verify_genuine_hardware toy cred none ≡ ok tt)
    × IsWellFormed made_session.doc
    × (made_session.doc.rpid ≡ toy_options.rpid)
    × (made_session.doc.entropy_verified ≡ true)
    × (made_session.doc.user_verified ≡ answer.user_verified)
    × (answer.user_present ≡ true)
    × (made_session.doc.secrets ≡ [])
    × (made_session.doc.keys ≡ entry ∷ [])
    × (entry.slot ≡ first_slot)
    × (entry.credential_id ≡ cred.credential_id)
    × (unwrap_data_key toy.crypto made_session.doc entry answer.secret ≡ ok made_session.data_key)
    × (length made_session.data_key ≡ data_key_len)
    × (made_world.gestures
        ≡ start.gestures
          ++ (enrolled
                (enroll_request toy_options.rpid (rp_name toy_options) user_id uv_discouraged)
              ∷ derived (
                  derive_request toy_options.rpid
                    (cred.credential_id ∷ [])
                    made_session.doc.salt
                    uv_discouraged)
              ∷ derived (
                  derive_request toy_options.rpid
                    (cred.credential_id ∷ [])
                    (flip_last made_session.doc.salt)
                    uv_discouraged)
              ∷ []))
    × (before_enroll : toy.Outside) × (before_derive : toy.Outside) × ((first_key.enroll
          (enroll_request toy_options.rpid (rp_name toy_options) user_id uv_discouraged)
          before_enroll).0
        ≡ ok cred)
    × ((first_key.derive
          (derive_request toy_options.rpid
            (cred.credential_id ∷ [])
            made_session.doc.salt
            uv_discouraged)
          before_derive).0
        ≡ ok answer)
create_lem_example =
    create_lem toy toy-IsGcm toy-IsFullRead first_key toy_options start made_world made_session
      created

create_truncated_example : create toy short_key toy_options start ≢ (ok made_session, made_world)
create_truncated_example =
    create_truncated toy short_key toy_options 31 short_key-Truncates (omega arith) start made_world
      made_session

abbrev probe : DeriveRequest
probe = derive_request (codes "acme") ((7 ∷ []) ∷ []) (flip_last salt) uv_discouraged

abbrev probed : World toy
probed = record { outside = 41; gestures = derived probe ∷ [] }

gate_passed :
    verify_derivation_depends_on_salt toy first_key
      (codes "acme")
      (7 ∷ [])
      salt
      (salt ++ (7 ∷ []))
      uv_discouraged
      true
      start
    ≡ (ok tt, probed)
unfolding verify_derivation_depends_on_salt flip_last
gate_passed = refl

verify-eq-ok_example :
    (got : DeriveResult) × ((first_key.derive probe start.outside).0 ≡ ok got)
    × (length salt ≡ salt_len)
    × (got.user_present ≡ true)
    × (got.user_verified ≡ true)
    × (got.secret ≢ [])
    × (got.secret ≢ salt ++ (7 ∷ []))
    × (probed.gestures ≡ start.gestures ++ (derived probe ∷ []))
verify-eq-ok_example =
    verify-eq-ok toy first_key (codes "acme") (7 ∷ []) salt (salt ++ (7 ∷ [])) uv_discouraged true
      start probed gate_passed

verify_genuine_hardware_iff_example :
    (verify_genuine_hardware toy (credential (7 ∷ [])) none ≡ ok tt)
    ↔ IsGenuine toy (credential (7 ∷ [])) none
verify_genuine_hardware_iff_example = verify_genuine_hardware_iff toy (credential (7 ∷ [])) none

-- A key that reads too little of the salt is touched three times, and then refused.
create-Touched_example :
    let after = (create toy short_key toy_options start).1 in
    if is_empty toy_options.rpid
    then (after.gestures ≡ start.gestures)
    else (salt : Bytes) × Touched toy short_key toy_options
        (blank toy toy_options.rpid salt)
        uv_discouraged
        start
        after
create-Touched_example = create-Touched toy short_key toy_options start

-- Two callers ask for the roots, and the first one empties its pool.
abbrev uses : List (Use toy.certs)
uses = asks ∷ asks ∷ changes 1 (λ pool. toy.certs.pool_from_pem []) ∷ []

bundled_roots_lem_example :
    let s = use_all toy uses untouched in
    ((verify_with toy (credential []) none s).0 ≡ verify_genuine_hardware toy (credential []) none)
    × (let (b, t) = ask_roots s in
        (pool_at t b ≡ some (bundled_roots toy.certs))
        × All (λ a. b ≢ some a) s.given
        × (b ≢ t.roots))
bundled_roots_lem_example = bundled_roots_lem toy uses (credential [])
