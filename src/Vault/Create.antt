-- ===== src/Vault/Create.antt =====
-- vault.go: enrolling a key, and `Create`.
use touchvault.Base.{pos, Text, true, false, [], ◌∷◌, is_empty, not, Bytes}
use touchvault.Errors.{no_prf, not_present, resident_key, no_credential_id}
use touchvault.Effects.{M, ◌>>=◌, ◌>>◌, pure, try, raise_if}
use touchvault.Authenticator.{
  Authenticator, EnrollRequest, EnrollResult, derive_request, DeriveResult, UserVerification,
  uv_discouraged,
}
use touchvault.Platform.{Platform}
use touchvault.World.{World, ask_enroll, ask_derive, random_bytes}
use touchvault.Sealed.Document.{SealedVault, format_version}
use touchvault.Crypto.Seal.{new_salt, new_data_key, wrap_data_key}
use touchvault.Entropy.{verify_derivation_depends_on_salt}
use touchvault.Attestation.{verify_genuine_hardware}
use touchvault.Vault.Options.{Options, Session, validate, rp_name, label, user_id_len, first_slot}

-- The request that `enrollAndDerive` makes.
abbrev pub enroll_request : Text → Text → Bytes → UserVerification → EnrollRequest
enroll_request rpid name user_id uv = record {
  rpid = rpid;
  rp_name = name;
  user_id = user_id;
  user_name = rpid;
  uv = uv;
  timeout = pos 0;
}

module _ (P : Platform) where
  -- `enrollAndDerive`
  unfoldable pub enroll_and_derive :
      Authenticator P.Outside
      → SealedVault
      → Options P
      → UserVerification
      → M (World P) (EnrollResult × DeriveResult)
  enroll_and_derive auth doc opts uv = do
    user_id ← random_bytes P user_id_len
    cred ← ask_enroll P auth (enroll_request doc.rpid (rp_name opts) user_id uv)
    raise_if cred.resident_key resident_key
    raise_if (is_empty cred.credential_id) no_credential_id
    try (verify_genuine_hardware P cred opts.roots)
    answer ← ask_derive P auth (derive_request doc.rpid (cred.credential_id ∷ []) doc.salt uv)
    raise_if (not answer.user_present) not_present
    raise_if (is_empty answer.secret) no_prf
    pure (cred, answer)

  -- The document that `Create` starts from.
  abbrev pub blank : Text → Bytes → SealedVault
  blank rpid salt = record {
    format = format_version;
    rpid = rpid;
    salt = salt;
    user_verified = false;
    entropy_verified = false;
    keys = [];
    secrets = [];
  }

  -- `Create`
  unfoldable pub create : Authenticator P.Outside → Options P → M (World P) (Session P)
  create auth opts = do
    try (validate opts)
    salt ← new_salt P
    let doc = blank opts.rpid salt
    (cred, answer) ← enroll_and_derive auth doc opts uv_discouraged
    let observed = record doc { user_verified = answer.user_verified }
    verify_derivation_depends_on_salt P auth observed.rpid cred.credential_id salt answer.secret
        uv_discouraged answer.user_verified
    let proven = record observed { entropy_verified = true }
    data_key ← new_data_key P
    entry ← wrap_data_key P proven data_key cred.credential_id answer.secret first_slot (label opts)
    pure (record { doc = record proven { keys = entry ∷ [] }; opts = opts; data_key = data_key })
