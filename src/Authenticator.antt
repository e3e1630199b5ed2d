-- ===== src/Authenticator.antt =====
-- authenticator.go: the port behind which a FIDO2 security key stands, its requests and results,
-- and the request checks that every provider shares.
pub mod Laws
use touchvault.Base.{
  contains, list_Eq, nat_Eq, ◌≡◌, ℕ, ℤ, pos, Done, Bytes, Text, Bool, true, false, List, [], ◌∷◌,
  length,
}
use touchvault.Base.{◌==◌, is_empty, ltb_ℤ, codes, not, if◌then◌else◌}
use touchvault.Errors.{Result, ok, err, no_credential_id, salt_length, refuse_if}
use touchvault.Errors.Chain.{◌>>=◌, ◌>>◌}
use touchvault.Effects.{M}

abbrev pub salt_len : ℕ
salt_len = 32

-- `60 * time.Second`, in nanoseconds.
abbrev pub default_timeout : ℤ
default_timeout = pos 60_000_000_000

pub data UserVerification : Type 0 where
  uv_discouraged uv_required : UserVerification

abbrev pub uv_is_required : UserVerification → Bool
uv_is_required uv_required = true
uv_is_required uv_discouraged = false

-- `UserVerification.String`
unfoldable pub uv_string : UserVerification → Text
uv_string uv = if uv_is_required uv then codes "required" else codes "discouraged"

pub record EnrollRequest : Type 0 where
  pub rpid : Text
  pub rp_name : Text
  pub user_id : Bytes
  pub user_name : Text
  pub uv : UserVerification
  pub timeout : ℤ

pub record EnrollResult : Type 0 where
  pub credential_id : Bytes
  pub prf_enabled : Bool
  pub resident_key : Bool
  pub attestation_format : Text
  pub attestation_alg : ℤ
  pub attestation_signature : Bytes
  pub authenticator_data : Bytes
  pub client_data_hash : Bytes
  pub attestation_certs : List Bytes

pub record DeriveRequest : Type 0 where
  pub rpid : Text
  pub credential_ids : List Bytes
  pub salt : Bytes
  pub uv : UserVerification
  pub timeout : ℤ

-- A request that leaves the timeout unset, as all of the core's do.
abbrev pub derive_request : Text → List Bytes → Bytes → UserVerification → DeriveRequest
derive_request rpid credential_ids salt uv = record {
  rpid = rpid;
  credential_ids = credential_ids;
  salt = salt;
  uv = uv;
  timeout = pos 0;
}

pub record DeriveResult : Type 0 where
  pub secret : Bytes
  pub credential_id : Bytes
  pub user_present : Bool
  pub user_verified : Bool

-- The interface `Authenticator`, over the state of the world outside.
pub record Authenticator (S : Type 0) : Type 0 where
  pub enroll : EnrollRequest → M S EnrollResult
  pub derive : DeriveRequest → M S DeriveResult

-- The loop of `Validate` over the allow-list.
pub check_ids : List Bytes → Result Done
check_ids [] = ok tt
check_ids (id ∷ ids) = do refuse_if (is_empty id) no_credential_id; check_ids ids

-- `DeriveRequest.Validate`
unfoldable pub validate : DeriveRequest → Result Done
unfolding check_ids
validate r = do
  refuse_if (is_empty r.credential_ids) no_credential_id
  check_ids r.credential_ids
  refuse_if (not (length r.salt == salt_len)) salt_length

unfoldable pub or_default : ℤ → ℤ
or_default d = if ltb_ℤ (pos 0) d then d else default_timeout

-- `DeriveRequest.TimeoutOrDefault`
unfoldable pub derive_timeout_or_default : DeriveRequest → ℤ
unfolding or_default
derive_timeout_or_default r = or_default r.timeout

-- `EnrollRequest.TimeoutOrDefault`
unfoldable pub enroll_timeout_or_default : EnrollRequest → ℤ
unfolding or_default
enroll_timeout_or_default r = or_default r.timeout

-- What hmac-secret is: "CTAP2 authenticators keep two independent per-credential secrets", so the
-- output depends on the relying party, the credential, the salt, and whether the operator was
-- verified; and the credential that answers is one of the allow-list. One `output` goes for all
-- keys, since a credential has its secret from the key that made it, and no two have one ID.
pub record IsHmacSecret {S : Type 0} (output : Text → Bytes → Bytes → Bool → Bytes)
    (auth : Authenticator S) : Type 0 where
  pub outputs :
      (req : DeriveRequest) (s : S) (r : DeriveResult)
      → (auth.derive req s).0 ≡ ok r
      → r.secret ≡ output req.rpid r.credential_id req.salt r.user_verified
  pub listed :
      (req : DeriveRequest) (s : S) (r : DeriveResult)
      → (auth.derive req s).0 ≡ ok r
      → contains req.credential_ids r.credential_id ≡ true
