-- ===== src/Fido/Dll/Inputs.antt =====
-- The structures of types_windows.go that the program fills in. A `uintptr` is a number, and 0 is
-- null; a null pointer to an array is the empty list.
use touchvault.Base.{ℕ, ℤ, Bytes, Option, List}

pub record RpEntityInformation (Wide : Type 0) : Type 0 where
  pub version : ℕ
  pub id : Wide
  pub name : Wide
  pub icon : ℕ

pub record UserEntityInformation (Wide : Type 0) : Type 0 where
  pub version : ℕ
  pub id_len : ℕ
  pub id : Option Bytes
  pub name : Wide
  pub icon : ℕ
  pub display_name : Wide

pub record CoseCredentialParameter (Wide : Type 0) : Type 0 where
  pub version : ℕ
  pub credential_type : Wide
  pub alg : ℤ

pub record CoseCredentialParameters (Wide : Type 0) : Type 0 where
  pub count : ℕ
  pub parameters : List (CoseCredentialParameter Wide)

pub record ClientData (Wide : Type 0) : Type 0 where
  pub version : ℕ
  pub json_len : ℕ
  pub json : Option Bytes
  pub hash_alg_id : Wide

pub record Extension (Wide : Type 0) : Type 0 where
  pub identifier : Wide
  pub value_len : ℕ
  pub value : Option Bytes

pub record Extensions (Wide : Type 0) : Type 0 where
  pub count : ℕ
  pub extensions : List (Extension Wide)

-- The older list, which stays empty.
pub record Credentials : Type 0 where
  pub count : ℕ
  pub credentials : ℕ

pub record CredentialEx (Wide : Type 0) : Type 0 where
  pub version : ℕ
  pub id_len : ℕ
  pub id : Option Bytes
  pub credential_type : Wide
  pub transports : ℕ

pub record CredentialList (Wide : Type 0) : Type 0 where
  pub count : ℕ
  pub credentials : List (CredentialEx Wide)

pub record HmacSecretSalt : Type 0 where
  pub first_len : ℕ
  pub first : Option Bytes
  pub second_len : ℕ
  pub second : ℕ

pub record HmacSecretSaltValues : Type 0 where
  pub global_salt : HmacSecretSalt
  pub list_count : ℕ
  pub list : ℕ

pub record MakeCredentialOptions (Wide : Type 0) : Type 0 where
  pub version : ℕ
  pub timeout_milliseconds : ℕ
  pub exclude_credentials : Credentials
  pub ext : Extensions Wide
  pub authenticator_attachment : ℕ
  pub require_resident_key : ℤ
  pub user_verification_req : ℕ
  pub attestation_conveyance : ℕ
  pub flags : ℕ

pub record GetAssertionOptions (Wide : Type 0) : Type 0 where
  pub version : ℕ
  pub timeout_milliseconds : ℕ
  pub allow_credentials : Credentials
  pub ext : Extensions Wide
  pub authenticator_attachment : ℕ
  pub user_verification_req : ℕ
  pub flags : ℕ
  pub u2f_app_id : ℕ
  pub u2f_app_id_used : ℕ
  pub cancellation_id : ℕ
  pub allow_credential_list : CredentialList Wide
  pub cred_large_blob_operation : ℕ
  pub cred_large_blob_len : ℕ
  pub cred_large_blob : ℕ
  pub hmac_secret_salt_values : HmacSecretSaltValues
  pub browser_in_private_mode : ℤ
  pub linked_device : ℕ
  pub auto_fill : ℤ
  pub json_ext_len : ℕ
  pub json_ext : ℕ
  pub credential_hints_count : ℕ
  pub credential_hints : List Wide
