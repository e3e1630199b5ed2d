-- ===== src/Fido/Constants.antt =====
-- fido/internal/winwebauthn/consts_windows.go, as it is.
use touchvault.Base.{ℕ, ℤ, negsuc, Text, codes}

abbrev pub hash_algorithm_sha256 : Text
hash_algorithm_sha256 = codes "SHA-256"

abbrev pub credential_type_public_key : Text
credential_type_public_key = codes "public-key"

abbrev pub cose_algorithm_es256 : ℤ
cose_algorithm_es256 = negsuc 6

abbrev pub attachment_cross_platform : ℕ
attachment_cross_platform = 2

abbrev pub user_verification_required : ℕ
user_verification_required = 1

abbrev pub user_verification_discouraged : ℕ
user_verification_discouraged = 3

abbrev pub attestation_conveyance_direct : ℕ
attestation_conveyance_direct = 3

abbrev pub attestation_decode_common : ℕ
attestation_decode_common = 1

abbrev pub extension_identifier_hmac_secret : Text
extension_identifier_hmac_secret = codes "hmac-secret"

abbrev pub assertion_hmac_secret_values_flag : ℕ
assertion_hmac_secret_values_flag = 0x100000

abbrev pub transport_any : ℕ
transport_any = 0

-- The version of each structure that the program passes, but those of the options.
abbrev pub structure_version : ℕ
structure_version = 1

abbrev pub make_credential_options_version : ℕ
make_credential_options_version = 1

abbrev pub credential_attestation_version_resident_key : ℕ
credential_attestation_version_resident_key = 3

abbrev pub get_assertion_options_version_salt : ℕ
get_assertion_options_version_salt = 6

abbrev pub get_assertion_options_version_hints : ℕ
get_assertion_options_version_hints = 7

abbrev pub api_version_for_hints : ℕ
api_version_for_hints = 7

abbrev pub credential_hint_security_key : Text
credential_hint_security_key = codes "security-key"
