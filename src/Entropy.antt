-- ===== src/Entropy.antt =====
-- entropy.go: the gate that proves, before anything is sealed, that the derivation of a security
-- key depends on the whole salt.
pub mod Gate
use Prim.Native.Nat.{bit_xor}
use touchvault.Base.{Bytes, Text, Bool, Done, [], ◌∷◌, length, is_empty, list_eq, nat_Eq, not}
use touchvault.Base.{pos, ◌==◌, bool_ne}
use touchvault.Errors.{salt_length, no_prf, not_present, user_verification_mismatch}
use touchvault.Errors.{derivation_ignores_salt}
use touchvault.Effects.{M, ◌>>=◌, ◌>>◌, raise_if}
use touchvault.Authenticator.{Authenticator, UserVerification, derive_request, salt_len}
use touchvault.Platform.{Platform}
use touchvault.World.{World, ask_derive}

-- `probe[len(probe)-1] ^= 0xFF`
unfoldable pub flip_last : Bytes → Bytes
flip_last [] = []
flip_last (x ∷ []) = bit_xor x 0xFF ∷ []
flip_last (x ∷ y ∷ rest) = x ∷ flip_last (y ∷ rest)

module _ (P : Platform) where
  -- `verifyDerivationDependsOnSalt`
  unfoldable pub verify_derivation_depends_on_salt :
      Authenticator P.Outside
      → Text
      → (credential_id salt real_output : Bytes) → UserVerification
      → (observed_uv : Bool) → M (World P) Done
  verify_derivation_depends_on_salt auth rpid credential_id salt real_output uv observed_uv = do
    raise_if (not (length salt == salt_len)) salt_length
    raise_if (is_empty real_output) no_prf
    got ← ask_derive P auth (derive_request rpid (credential_id ∷ []) (flip_last salt) uv)
    raise_if (not got.user_present) not_present
    raise_if (is_empty got.secret) no_prf
    raise_if (bool_ne got.user_verified observed_uv) user_verification_mismatch
    raise_if (list_eq got.secret real_output) derivation_ignores_salt
