-- ===== src/Fido/Dll/Outputs.antt =====
-- The structures of types_windows.go that the DLL fills in.
use touchvault.Base.{ℕ, ℤ, Bytes, Option, List}
use touchvault.Fido.Dll.Inputs.{Extensions, HmacSecretSalt}

pub record Credential (Wide : Type 0) : Type 0 where
  pub version : ℕ
  pub id_len : ℕ
  pub id : Option Bytes
  pub credential_type : Option Wide

pub record X5cEntry : Type 0 where
  pub data_len : ℕ
  pub content : Option Bytes

pub record CommonAttestation (Wide : Type 0) : Type 0 where
  pub version : ℕ
  pub alg : Option Wide
  pub alg_id : ℤ
  pub signature_len : ℕ
  pub signature : Option Bytes
  pub x5c_count : ℕ
  pub x5c : Option (List X5cEntry)
  pub ver : Option Wide
  pub cert_info_len : ℕ
  pub cert_info : Option Bytes
  pub pub_area_len : ℕ
  pub pub_area : Option Bytes

-- A DLL that reports a version below 3 has not allocated the fields from `usedTransport` on, or
-- from `epAtt` on; what a field holds then is nothing that the program may read.
pub record CredentialAttestation (Wide : Type 0) : Type 0 where
  pub version : ℕ
  pub format_type : Option Wide
  pub authenticator_data_len : ℕ
  pub authenticator_data : Option Bytes
  pub attestation_len : ℕ
  pub attestation : Option Bytes
  pub attestation_decode_type : ℕ
  pub attestation_decode : Option (CommonAttestation Wide)
  pub attestation_object_len : ℕ
  pub attestation_object : Option Bytes
  pub credential_id_len : ℕ
  pub credential_id : Option Bytes
  pub ext : Extensions Wide
  pub used_transport : ℕ
  pub ep_att : ℤ
  pub large_blob_supported : ℤ
  pub resident_key : ℤ

pub record Assertion (Wide : Type 0) : Type 0 where
  pub version : ℕ
  pub authenticator_data_len : ℕ
  pub authenticator_data : Option Bytes
  pub signature_len : ℕ
  pub signature : Option Bytes
  pub credential : Credential Wide
  pub user_id_len : ℕ
  pub user_id : Option Bytes
  pub ext : Extensions Wide
  pub cred_large_blob_len : ℕ
  pub cred_large_blob : Option Bytes
  pub cred_large_blob_status : ℕ
  pub hmac_secret : Option HmacSecretSalt
