-- ===== src/Fido/Bindings/Making.antt =====
-- syscall_windows.go: `MakeCredential`.
use touchvault.Base.{pos, Bool, true, false, none, some, [], ◌∷◌}
use touchvault.Base.{leb, not, ◌==◌, int_eq, if◌then◌else◌}
use touchvault.Errors.{ok, dll_failed, nothing_returned}
use touchvault.Effects.{M, ◌>>=◌, ◌>>◌, pure, raise_if, or_raise}
use touchvault.Fido.Constants.{
  hash_algorithm_sha256, credential_type_public_key, cose_algorithm_es256,
  attachment_cross_platform, attestation_conveyance_direct, attestation_decode_common,
  extension_identifier_hmac_secret, structure_version, make_credential_options_version,
  credential_attestation_version_resident_key,
}
use touchvault.Fido.Dll.{MakeCall, Dll}
use touchvault.Fido.Dll.Outputs.{CredentialAttestation}
use touchvault.Fido.Bindings.{
  as_bytes, byte_ptr, len_u32, dll_uv, client_json, hmac_true, MakeCredentialRequest,
  MakeCredentialResult, client_data, x5c_certs, wide,
}

module _ {S : Type 0} (D : Dll S) where
  -- The attestation that the DLL decoded, into the result.
  unfoldable pub decoded :
      CredentialAttestation D.Wide → MakeCredentialResult → MakeCredentialResult
  decoded out result =
      elim (if out.attestation_decode_type == attestation_decode_common
        then out.attestation_decode
        else none) [
          | none ↦ result
          | some att ↦ record result {
            attestation_format = elim out.format_type [
              | none ↦ result.attestation_format
              | some w ↦ D.utf16_text w
            ];
            attestation_alg = att.alg_id;
            attestation_signature = as_bytes att.signature att.signature_len;
            attestation_certs = x5c_certs att.x5c_count att.x5c;
          }
        ]

  -- What is read of a resident key: nothing of a structure that does not have the field.
  unfoldable pub resident : CredentialAttestation D.Wide → Bool × Bool
  resident out =
      if leb credential_attestation_version_resident_key out.version
      then (true, not (int_eq out.resident_key (pos 0)))
      else (false, false)

  -- What is read of the DLL's structure before its attestation is looked at.
  unfoldable pub raw : CredentialAttestation D.Wide → MakeCredentialResult
  raw out =
      let (known, is_resident) = resident out in
      record {
        credential_id = as_bytes out.credential_id out.credential_id_len;
        resident_key = is_resident;
        resident_key_known = known;
        authenticator_data = as_bytes out.authenticator_data out.authenticator_data_len;
        attestation_format = [];
        attestation_alg = pos 0;
        attestation_signature = [];
        attestation_certs = [];
        client_data_hash = D.sha256 client_json;
      }

  -- The call that `MakeCredential` makes, with the texts converted.
  unfoldable pub make_call :
      MakeCredentialRequest
      → (rp_id rp_name user_name credential_type hash_alg hmac_id : D.Wide) → MakeCall D.Wide
  make_call req rp_id rp_name user_name credential_type hash_alg hmac_id = record {
    window = req.window_handle;
    rp = record { version = structure_version; id = rp_id; name = rp_name; icon = 0 };
    user = record {
      version = structure_version;
      id_len = len_u32 req.user_id;
      id = byte_ptr req.user_id;
      name = user_name;
      icon = 0;
      display_name = user_name;
    };
    params = record {
      count = 1;
      parameters =
          record {
            version = structure_version;
            credential_type = credential_type;
            alg = cose_algorithm_es256;
          }
          ∷ [];
    };
    client = client_data hash_alg;
    options = record {
      version = make_credential_options_version;
      timeout_milliseconds = req.timeout_ms;
      exclude_credentials = record { count = 0; credentials = 0 };
      ext = record {
        count = 1;
        extensions = record { identifier = hmac_id; value_len = 4; value = some hmac_true } ∷ [];
      };
      authenticator_attachment = attachment_cross_platform;
      require_resident_key = pos 0;
      user_verification_req = dll_uv req.require_uv;
      attestation_conveyance = attestation_conveyance_direct;
      flags = 0;
    };
  }

  -- `MakeCredential`
  unfoldable pub make_credential : MakeCredentialRequest → M S MakeCredentialResult
  make_credential req = do
    rp_id ← wide D req.rpid
    rp_name ← wide D req.rp_name
    user_name ← wide D req.user_name
    credential_type ← wide D credential_type_public_key
    hash_alg ← wide D hash_algorithm_sha256
    hmac_id ← wide D extension_identifier_hmac_secret
    let call = make_call req rp_id rp_name user_name credential_type hash_alg hmac_id
    (hr, answer) ← λ s. let (r, t) = D.make_credential call s in (ok r, t)
    raise_if (not (hr == 0)) dll_failed
    out ← or_raise answer nothing_returned
    pure (decoded out (raw out))
