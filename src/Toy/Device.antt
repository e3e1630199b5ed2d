-- ===== src/Toy/Device.antt =====
-- A webauthn.dll that creates credentials, and answers an assertion with its salt and one byte
-- more.
use touchvault.Base.{ℕ, suc, pos, negsuc, ◌++◌, [], ◌∷◌, some, none, Option, Bytes, Text, codes}
use touchvault.Fido.Dll.{Dll, MakeCall, AssertionCall}
use touchvault.Fido.Dll.Outputs.{CredentialAttestation, Assertion}
use touchvault.Toy.Cipher.{fit}

-- So many bytes of what a pointer leads to.
abbrev bytes_at : Option Bytes → Bytes
bytes_at none = []
bytes_at (some b) = b

abbrev assertion_of : AssertionCall Text → Assertion Text
assertion_of call = record {
  authenticator_data_len = 33;
  authenticator_data = some (fit 32 [] ++ (5 ∷ []));
  version = 3;
  signature_len = 0;
  signature = none;
  credential = record { version = 1; id_len = 0; id = none; credential_type = none };
  user_id_len = 0;
  user_id = none;
  ext = record { count = 0; extensions = [] };
  cred_large_blob_len = 0;
  cred_large_blob = none;
  cred_large_blob_status = 0;
  hmac_secret = some (record {
    first_len = 33;
    first = some (bytes_at call.options.hmac_secret_salt_values.global_salt.first ++ (7 ∷ []));
    second_len = 0;
    second = 0;
  });
}

abbrev attestation_of : MakeCall Text → CredentialAttestation Text
attestation_of call = record {
  version = 3;
  format_type = some (codes "packed");
  authenticator_data_len = 1;
  authenticator_data = some (1 ∷ 2 ∷ []);
  attestation_len = 0;
  attestation = none;
  attestation_decode_type = 1;
  attestation_decode = some (record {
    version = 1;
    alg = none;
    alg_id = negsuc 6;
    signature_len = 2;
    signature = some (1 ∷ 2 ∷ []);
    x5c_count = 1;
    x5c = some (record { data_len = 1; content = some (5 ∷ []) } ∷ []);
    ver = none;
    cert_info_len = 0;
    cert_info = none;
    pub_area_len = 0;
    pub_area = none;
  });
  attestation_object_len = 0;
  attestation_object = none;
  credential_id_len = 1;
  credential_id = some (7 ∷ []);
  ext = record { count = 0; extensions = [] };
  used_transport = 1;
  ep_att = pos 0;
  large_blob_supported = pos 0;
  resident_key = pos 0;
}

-- Its state counts the calls.
abbrev pub toy_dll : Dll ℕ
toy_dll = record {
  Wide = Text;
  utf16_ptr = λ t. some t;
  utf16_text = λ t. t;
  api_version = 7;
  console_window = λ n. 1;
  make_credential = λ call n. ((0, some (attestation_of call)), suc n);
  get_assertion = λ call n. ((0, some (assertion_of call)), suc n);
  sha256 = λ b. 2 ∷ [];
}
