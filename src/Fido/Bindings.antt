-- ===== src/Fido/Bindings.antt =====
-- fido/internal/winwebauthn/syscall_windows.go: the calls of webauthn.dll. The freeing of what the
-- DLL allocated, after it was copied, is left out.
pub mod Making
pub mod Asserting
pub mod Asked
pub mod Created
use touchvault.Base.{ℕ, ℤ, pos, Bytes, Text, Bool, true, false, Option, none, some, List, [], ◌∷◌}
use touchvault.Base.{◌%◌, ◌^◌, length, take, map, codes, leb, not, ◌==◌, int_eq, if◌then◌else◌}
use touchvault.Errors.{ok, or_error, not_utf16, dll_failed, nothing_returned}
use touchvault.Effects.{M, ◌>>=◌, ◌>>◌, pure, raise_if, or_raise}
use touchvault.Fido.Constants.{
  hash_algorithm_sha256, credential_type_public_key, cose_algorithm_es256,
  attachment_cross_platform, user_verification_required, user_verification_discouraged,
  attestation_conveyance_direct, attestation_decode_common, extension_identifier_hmac_secret,
  assertion_hmac_secret_values_flag, transport_any, structure_version,
  make_credential_options_version, credential_attestation_version_resident_key,
  get_assertion_options_version_salt, get_assertion_options_version_hints, api_version_for_hints,
  credential_hint_security_key,
}
use touchvault.Fido.Dll.{MakeCall, AssertionCall, Dll}
use touchvault.Fido.Dll.Inputs.{ClientData, CredentialEx}
use touchvault.Fido.Dll.Outputs.{X5cEntry, CredentialAttestation}

-- `asBytes`. A length beyond the memory, which the DLL does not return, is cut.
unfoldable pub as_bytes : Option Bytes → ℕ → Bytes
as_bytes none n = []
as_bytes (some memory) n = take n memory

-- `bytePtr`
unfoldable pub byte_ptr : Bytes → Option Bytes
byte_ptr [] = none
byte_ptr (x ∷ b) = some (x ∷ b)

-- The conversion `uint32(len(b))`.
unfoldable pub len_u32 {ℓ} : {A : Type ℓ} → List A → ℕ
len_u32 b = length b % 2 ^ 32

-- `uvRequirement`
unfoldable pub dll_uv : Bool → ℕ
dll_uv require = if require then user_verification_required else user_verification_discouraged

abbrev pub client_json : Bytes
client_json = codes "{}"

-- `int32(1)` in memory.
abbrev pub hmac_true : Bytes
hmac_true = 1 ∷ 0 ∷ 0 ∷ 0 ∷ []

pub record MakeCredentialRequest : Type 0 where
  pub window_handle : ℕ
  pub rpid : Text
  pub rp_name : Text
  pub user_id : Bytes
  pub user_name : Text
  pub require_uv : Bool
  pub timeout_ms : ℕ

pub record MakeCredentialResult : Type 0 where
  pub credential_id : Bytes
  pub resident_key : Bool
  pub resident_key_known : Bool
  pub authenticator_data : Bytes
  pub attestation_format : Text
  pub attestation_alg : ℤ
  pub attestation_signature : Bytes
  pub attestation_certs : List Bytes
  pub client_data_hash : Bytes

pub record GetAssertionRequest : Type 0 where
  pub window_handle : ℕ
  pub rpid : Text
  pub credential_ids : List Bytes
  pub salt : Bytes
  pub require_uv : Bool
  pub timeout_ms : ℕ

pub record GetAssertionResult : Type 0 where
  pub authenticator_data : Bytes
  pub answering_credential : Bytes
  pub hmac_secret : Bytes

abbrev pub client_data : {Wide : Type 0} → Wide → ClientData Wide
client_data hash_alg = record {
  version = structure_version;
  json_len = len_u32 client_json;
  json = byte_ptr client_json;
  hash_alg_id = hash_alg;
}

-- One entry of the allow-list.
unfoldable pub credential_ex : {Wide : Type 0} → Wide → Bytes → CredentialEx Wide
credential_ex credential_type id = record {
  version = structure_version;
  id_len = len_u32 id;
  id = byte_ptr id;
  credential_type = credential_type;
  transports = transport_any;
}

-- The chain of an attestation: `unsafe.Slice` of so many entries, each copied.
unfoldable pub x5c_certs : ℕ → Option (List X5cEntry) → List Bytes
x5c_certs count none = []
x5c_certs count (some entries) = map (λ e. as_bytes e.content e.data_len) (take count entries)

module _ {S : Type 0} (D : Dll S) where
  unfoldable pub wide : Text → M S D.Wide
  wide t = or_raise (D.utf16_ptr t) not_utf16
