-- ===== src/Tests/Sessions.antt =====
-- A session that is given a secret and a second key, is refused one, and is locked.
use touchvault.Base.{pos, ◌≡◌, ◌++◌, refl, [], ◌∷◌, some, none, true, false, Bytes, Text, Distinct}
use touchvault.Base.{codes, is_negative, nat_Eq, if◌then◌else◌}
use touchvault.Errors.{ok, err, derivation_ignores_salt, locked}
use touchvault.Authenticator.{Authenticator, EnrollResult, DeriveResult, derive_request}
use touchvault.World.{random_bytes, enrolled, derived}
use touchvault.Attestation.{
  verify_genuine_hardware, check_aaguid_matches, chosen_roots, fido_intermediates,
  parse_pem_certificates, parse_pem, parse_chain, find_extension,
}
use touchvault.Entropy.{flip_last, verify_derivation_depends_on_salt}
use touchvault.Sealed.Document.{SealedKey}
use touchvault.Sealed.Aad.{key_aad, secret_aad}
use touchvault.Sealed.Find.{find_key, slot_occupied, uv_requirement}
use touchvault.Sealed.Parse.Valid.{IsWellFormed}
use touchvault.Crypto.Pure.{unwrap_data_key, new_gcm, derive_kek}
use touchvault.Crypto.Seal.{seal_secret, seal, wrap_data_key}
use touchvault.Vault.Options.{rp_name}
use touchvault.Vault.Create.{enroll_and_derive, enroll_request}
use touchvault.Vault.Session.{
  Machine, put, key, put_secret, delete, delete_secret, sealed, read_string, enroll_key, remove_key,
  force_remove_key, lock,
}
use touchvault.Vault.Session.Locking.{lock_forgets, locked_m}
use touchvault.Vault.Calls.Preserved.{Reach-IsSound}
use touchvault.Vault.Session.Enrolling.{enroll_key_lem}
use touchvault.Vault.Calls.{Call, perform, to_enroll, to_lock, to_put, here, next}
use touchvault.Vault.Touches.{Touched}
use touchvault.Vault.Touches.Enrolling.{early, enroll_key-Touched}
use touchvault.Vault.Calls.Failed.{perform_failed}
use touchvault.Vault.Calls.Sound.{IsSound}
use touchvault.Vault.Reopening.{create-IsSound}
use touchvault.Toy.Cipher.{toy-IsGcm}
use touchvault.Toy.Keys.{toy, key_of, toy-IsFullRead, first_key, second_key, toy_options, start}
use touchvault.Tests.Created.{made_session, made_world, created, salt, key_material}
use touchvault.Tests.Reopened.{made}

pub made-IsSound : IsSound toy made_session.doc made_session.data_key made_session
made-IsSound =
    create-IsSound toy toy-IsGcm toy-IsFullRead first_key toy_options start made_world made_session
      created

abbrev after_call : Machine toy → Call toy → Machine toy
after_call m c = (perform toy c m).1

abbrev api : Text
api = codes "api"

abbrev with_api : Machine toy
with_api = (put toy api (some (ok (codes "hi"))) made).1

api_was_put : put toy api (some (ok (codes "hi"))) made ≡ (ok tt, with_api)
unfolding put key seal_secret seal new_gcm random_bytes secret_aad put_secret
api_was_put = refl

abbrev without_api : Machine toy
without_api = (delete toy api with_api).1

api_was_deleted : delete toy api with_api ≡ (ok tt, without_api)
unfolding delete put key seal_secret seal new_gcm random_bytes secret_aad put_secret delete_secret
api_was_deleted = refl

api_alone : Distinct (touchvault.Sealed.Parse.Valid.names_of with_api.session.doc.secrets)
unfolding put key seal_secret seal new_gcm random_bytes secret_aad put_secret
api_alone = (tt, tt)

-- A key that fails the gate: three touches are made, and the session is as it was.
abbrev weak_key : Authenticator toy.Outside
weak_key = key_of 31 (9 ∷ []) true

abbrev refused : Machine toy
refused = (enroll_key toy weak_key (pos 1) [] made).1

weak_refused :
    perform toy (to_enroll weak_key (pos 1) []) made ≡ (err derivation_ignores_salt, refused)
unfolding perform enroll_key key random_bytes enroll_and_derive verify_genuine_hardware rp_name
    check_aaguid_matches chosen_roots fido_intermediates parse_pem_certificates parse_pem
    parse_chain find_extension verify_derivation_depends_on_salt flip_last slot_occupied find_key
    uv_requirement
weak_refused = refl

-- The slot is free, so touches may be asked for.
enroll_key-Touched_example :
    if early toy weak_key made (pos 1) []
    then (refused.world.gestures ≡ made.world.gestures)
    else Touched toy weak_key made.session.opts made.session.doc
        (uv_requirement made.session.doc)
        made.world
        refused.world
enroll_key-Touched_example = enroll_key-Touched toy weak_key made (pos 1) []

perform_failed_example : refused.session ≡ made.session
perform_failed_example =
    perform_failed toy made refused derivation_ignores_salt (to_enroll weak_key (pos 1) [])
      weak_refused

lock_forgets_example :
    let m = locked_m toy made in
    (read_string toy api m ≡ (err locked, m))
    × (put toy api none m ≡ (err locked, m))
    × (delete toy api m ≡ (err locked, m))
    × (enroll_key toy second_key (pos 1) [] m ≡ (err locked, m))
    × (remove_key toy (pos 1) m ≡ (err locked, m))
    × (force_remove_key toy (pos 1) m ≡ (err locked, m))
    × ((lock toy m).1 ≡ m)
    × (m.session.doc ≡ made.session.doc)
    × ((sealed toy m).0 ≡ (sealed toy made).0)
lock_forgets_example = lock_forgets toy made api none second_key (pos 1) []

abbrev two_keys : Machine toy
two_keys = (enroll_key toy second_key (pos 3) (codes "spare") made).1

enrolled_second : enroll_key toy second_key (pos 3) (codes "spare") made ≡ (ok tt, two_keys)
unfolding enroll_key key random_bytes enroll_and_derive verify_genuine_hardware rp_name
    check_aaguid_matches chosen_roots fido_intermediates parse_pem_certificates parse_pem
    parse_chain find_extension verify_derivation_depends_on_salt flip_last slot_occupied find_key
    uv_requirement wrap_data_key seal derive_kek new_gcm key_aad
enrolled_second = refl

enroll_key_lem_example :
    (cred : EnrollResult) × (answer : DeriveResult) × (entry : SealedKey) × (user_id : Bytes)
    × (verify_genuine_hardware toy cred none ≡ ok tt)
    × (is_negative (pos 3) ≡ false)
    × (slot_occupied made.session.doc (pos 3) ≡ false)
    × (entry.slot ≡ pos 3)
    × (entry.credential_id ≡ cred.credential_id)
    × (find_key made.session.doc cred.credential_id ≡ none)
    × (answer.user_verified ≡ made.session.doc.user_verified)
    × (unwrap_data_key toy.crypto made.session.doc entry answer.secret ≡ ok key_material)
    × (two_keys.session ≡ record (made.session) {
      doc = record (made.session.doc) { keys = made.session.doc.keys ++ (entry ∷ []) };
    })
    × (two_keys.world.gestures
        ≡ made.world.gestures
          ++ (enrolled (
                enroll_request
                  (codes "acme")
                  (rp_name toy_options)
                  user_id
                  (uv_requirement made.session.doc))
              ∷ derived (
                  derive_request
                    (codes "acme")
                    (cred.credential_id ∷ [])
                    salt
                    (uv_requirement made.session.doc))
              ∷ derived (
                  derive_request
                    (codes "acme")
                    (cred.credential_id ∷ [])
                    (flip_last salt)
                    (uv_requirement made.session.doc))
              ∷ []))
    × (answer.user_present ≡ true)
    × (before_enroll : toy.Outside) × (before_derive : toy.Outside) × ((second_key.enroll
          (enroll_request
            (codes "acme")
            (rp_name toy_options)
            user_id
            (uv_requirement made.session.doc))
          before_enroll).0
        ≡ ok cred)
    × ((second_key.derive
          (derive_request
            (codes "acme")
            (cred.credential_id ∷ [])
            salt
            (uv_requirement made.session.doc))
          before_derive).0
        ≡ ok answer)
enroll_key_lem_example =
    enroll_key_lem toy second_key (pos 3) (codes "spare") made two_keys toy-IsGcm toy-IsFullRead
      enrolled_second

-- The machine after a secret was put and the session was locked.
abbrev put_and_locked : Machine toy
put_and_locked =
    let filled = (perform toy (to_put (codes "api") (some (ok (codes "hi")))) made).1 in
    (perform toy to_lock filled).1

Reach-IsSound_example : IsSound toy made_session.doc made_session.data_key put_and_locked.session
Reach-IsSound_example =
    Reach-IsSound toy made_session.doc made_session.data_key toy-IsGcm toy-IsFullRead made-IsSound
      (next to_lock (next (to_put (codes "api") (some (ok (codes "hi")))) here))
