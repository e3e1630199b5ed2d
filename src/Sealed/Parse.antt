-- ===== src/Sealed/Parse.antt =====
-- `marshal` and `parseSealed` of sealed.go.
pub mod Valid
pub mod Exact
use touchvault.Base.{ℕ, ℤ, Bytes, Text, Done, List, [], ◌∷◌, length, is_empty, is_negative, int_eq}
use touchvault.Base.{contains, not, ◌==◌, nat_Eq, int_Eq, list_Eq}
use touchvault.Errors.{Result, ok, refuse_if, or_error, wrong_format, marshal_failed}
use touchvault.Errors.Chain.{◌>>=◌, ◌>>◌}
use touchvault.Authenticator.{salt_len}
use touchvault.Platform.Serializer.{Json}
use touchvault.Sealed.Document.{SealedKey, SealedSecret, SealedVault, format_version}

-- The loop over the keys, with the slots and the credential IDs that were seen.
unfoldable pub check_keys : List ℤ → List Bytes → List SealedKey → Result Done
check_keys seen_slot seen_cred [] = ok tt
check_keys seen_slot seen_cred (k ∷ ks) = do
  refuse_if (is_negative k.slot) wrong_format
  refuse_if (contains seen_slot k.slot) wrong_format
  refuse_if (is_empty k.credential_id) wrong_format
  refuse_if (contains seen_cred k.credential_id) wrong_format
  check_keys (k.slot ∷ seen_slot) (k.credential_id ∷ seen_cred) ks

-- The loop over the secrets, with the names that were seen.
unfoldable pub check_secrets : List Text → List SealedSecret → Result Done
check_secrets seen_name [] = ok tt
check_secrets seen_name (s ∷ ss) = do
  refuse_if (is_empty s.name) wrong_format
  refuse_if (contains seen_name s.name) wrong_format
  check_secrets (s.name ∷ seen_name) ss

module _ (J : Json) where
  -- `marshal`
  unfoldable pub marshal : SealedVault → Result Bytes
  marshal v = or_error (J.marshal v) marshal_failed

  -- `parseSealed`
  unfoldable pub parse_sealed : Bytes → Result SealedVault
  parse_sealed input = do
    v ← or_error (J.unmarshal input) wrong_format
    refuse_if (not (int_eq v.format format_version)) wrong_format
    refuse_if (not (length v.salt == salt_len)) wrong_format
    refuse_if (is_empty v.rpid) wrong_format
    check_keys [] [] v.keys
    check_secrets [] v.secrets
    ok v
