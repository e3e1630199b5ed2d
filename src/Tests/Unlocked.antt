-- ===== src/Tests/Unlocked.antt =====
-- Unlocking, applied at runs.
use touchvault.Base.{
  ◌≡◌, ◌++◌, ◌||◌, refl, [], ◌∷◌, some, true, false, Text, not, is_empty, if◌then◌else◌,
}
use touchvault.Base.{codes, ◌↔◌}
use touchvault.Vault.Unlocking.Errors.{UnlockRefused, unlock_error_iff}
use touchvault.Errors.{ok, err, user_verification_mismatch}
use touchvault.Authenticator.{Authenticator, DeriveResult}
use touchvault.World.{derived}
use touchvault.Sealed.Document.{SealedKey}
use touchvault.Sealed.Aad.{key_aad}
use touchvault.Sealed.Find.{find_key, credential_ids}
use touchvault.Crypto.Pure.{unwrap_data_key, open_bytes, new_gcm, derive_kek}
use touchvault.Vault.Options.{Vault}
use touchvault.Vault.Open.{unlock, unlock_request}
use touchvault.Vault.Unlocking.{gestures-unlock, unlock-eq-ok}
use touchvault.Vault.Relabelled.{relabelled, unlock-relabelled}
use touchvault.Toy.Keys.{toy, first_key, key_of, toy_options, start}
use touchvault.Tests.Created.{unlocked_world, made_session, salt, key_material}

abbrev closed_vault : Vault toy
closed_vault = record { doc = made_session.doc; opts = toy_options }

abbrev answer : DeriveResult
answer = record {
  secret = salt ++ (7 ∷ []);
  credential_id = 7 ∷ [];
  user_present = true;
  user_verified = true;
}

unlocks : unlock toy closed_vault first_key start ≡ (ok made_session, unlocked_world)
unfolding unlock find_key credential_ids unwrap_data_key derive_kek open_bytes new_gcm key_aad
unlocks = refl

gestures-unlock_example : (unlock toy closed_vault first_key start).1.gestures ≡ (
    if is_empty made_session.doc.keys || not made_session.doc.entropy_verified
    then start.gestures
    else start.gestures ++ (derived (unlock_request made_session.doc) ∷ []))
gestures-unlock_example = gestures-unlock toy closed_vault first_key start

unlock-eq-ok_example :
    (a : DeriveResult) × (entry : SealedKey) × (made_session.doc.entropy_verified ≡ true)
    × ((first_key.derive (unlock_request made_session.doc) start.outside).0 ≡ ok a)
    × (a.user_present ≡ true)
    × (a.user_verified ≡ made_session.doc.user_verified)
    × (find_key made_session.doc a.credential_id ≡ some entry)
    × (unwrap_data_key toy.crypto made_session.doc entry a.secret ≡ ok key_material)
    × (made_session.doc ≡ closed_vault.doc)
    × (made_session.opts ≡ closed_vault.opts)
unlock-eq-ok_example =
    unlock-eq-ok toy closed_vault first_key start unlocked_world made_session unlocks

abbrev cleared_key : Authenticator toy.Outside
cleared_key = key_of 32 (7 ∷ []) false

unlock_error_iff_example :
    ((unlock toy closed_vault cleared_key start).0 ≡ err user_verification_mismatch)
    ↔ UnlockRefused toy closed_vault cleared_key start user_verification_mismatch
unlock_error_iff_example =
    unlock_error_iff toy closed_vault cleared_key start user_verification_mismatch

cleared_refused : (unlock toy closed_vault cleared_key start).0 ≡ err user_verification_mismatch
unfolding unlock find_key credential_ids
cleared_refused = refl

abbrev renamed : Text → Text
renamed label = codes "not " ++ label

unlock-relabelled_example :
    (unlock toy
      (record closed_vault { doc = relabelled renamed made_session.doc })
      first_key
      start).0
    ≡ ok (record made_session { doc = relabelled renamed made_session.doc })
unlock-relabelled_example =
    unlock-relabelled renamed toy closed_vault first_key start unlocked_world made_session unlocks
