-- ===== src/Tests/Windows.antt =====
-- A vault created over a webauthn.dll.
use touchvault.Base.{ℕ, pos, ◌≡◌, ◌<◌, ◌⊎◌, refl, [], ◌∷◌, some, none, Text, map, codes}
use touchvault.Errors.{ok}
use touchvault.Authenticator.{EnrollResult, validate}
use touchvault.World.{random_bytes}
use touchvault.Attestation.{
  verify_genuine_hardware, check_aaguid_matches, chosen_roots, fido_intermediates,
  parse_pem_certificates, parse_pem, parse_chain, find_extension,
}
use touchvault.Entropy.{verify_derivation_depends_on_salt, flip_last}
use touchvault.Crypto.Seal.{new_salt, new_data_key, wrap_data_key, seal}
use touchvault.Crypto.Pure.{derive_kek, new_gcm}
use touchvault.Sealed.Aad.{key_aad}
use touchvault.Sealed.Find.{credential_ids}
use touchvault.Vault.Options
use touchvault.Vault.Options.{rp_name, label}
use touchvault.Vault.Create.{create, enroll_and_derive}
use touchvault.Fido.Dll.{MakeCall}
use touchvault.Fido.Dll.Outputs.{CredentialAttestation, CommonAttestation}
use touchvault.Fido.Constants.{
  extension_identifier_hmac_secret, attestation_conveyance_direct, attestation_decode_common,
}
use touchvault.Fido.Bindings.{wide, as_bytes, byte_ptr, x5c_certs, client_json}
use touchvault.Fido.Bindings.Making.{make_credential, decoded, raw, resident}
use touchvault.Fido.Bindings.Asserting.{get_assertion, assertion_call, hints}
use touchvault.Fido.Windows.{enroll, derive, flags_of, answering}
use touchvault.Fido.Unlocking.{windows}
use touchvault.Fido.Creating.{create-windows}
use touchvault.Toy.Keys.{toy, toy-IsFullRead, toy_options, start}
use touchvault.Toy.Device.{toy_dll}
use touchvault.Tests.Created.{made_session, made_world}

created_over_dll : create toy (windows toy_dll) toy_options start ≡ (ok made_session, made_world)
unfolding create Options.validate new_salt new_data_key random_bytes enroll_and_derive
    verify_genuine_hardware rp_name label check_aaguid_matches chosen_roots fido_intermediates
    parse_pem_certificates parse_pem parse_chain find_extension verify_derivation_depends_on_salt
    flip_last wrap_data_key seal derive_kek new_gcm key_aad enroll derive validate make_credential
    wide decoded raw resident as_bytes x5c_certs get_assertion flags_of answering byte_ptr
    assertion_call hints
created_over_dll = refl

create-windows_example :
    (call : MakeCall Text) × (out : CredentialAttestation Text) × (hmac_id : Text)
    × (cred : EnrollResult) × (before : ℕ) × (after : ℕ) × (toy_dll.make_credential call before
        ≡ ((0, some out), after))
    × (some (codes "acme") ≡ some call.rp.id)
    × (call.options.require_resident_key ≡ pos 0)
    × (call.options.attestation_conveyance ≡ attestation_conveyance_direct)
    × (some extension_identifier_hmac_secret ≡ some hmac_id)
    × (map (λ e. e.identifier) call.options.ext.extensions ≡ hmac_id ∷ [])
    × (credential_ids made_session.doc ≡ as_bytes out.credential_id out.credential_id_len ∷ [])
    × ((out.version < 3) ⊎ (out.resident_key ≡ pos 0))
    × (cred.credential_id ≡ as_bytes out.credential_id out.credential_id_len)
    × (cred.authenticator_data ≡ as_bytes out.authenticator_data out.authenticator_data_len)
    × (cred.client_data_hash ≡ toy_dll.sha256 client_json)
    × (att : CommonAttestation Text) × (format : Text) × (out.attestation_decode_type
        ≡ attestation_decode_common)
    × (out.attestation_decode ≡ some att)
    × (out.format_type ≡ some format)
    × (cred.attestation_format ≡ toy_dll.utf16_text format)
    × (cred.attestation_alg ≡ att.alg_id)
    × (cred.attestation_signature ≡ as_bytes att.signature att.signature_len)
    × (cred.attestation_certs ≡ x5c_certs att.x5c_count att.x5c)
    × (verify_genuine_hardware toy cred none ≡ ok tt)
create-windows_example =
    create-windows toy toy_dll toy-IsFullRead toy_options start made_world made_session
      created_over_dll
