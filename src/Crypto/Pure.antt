-- ===== src/Crypto/Pure.antt =====
-- crypto.go: the key-encryption key, opening, and overwriting.
use touchvault.Base.{ℕ, Bytes, Text, length, is_empty, codes, not, map, ◌==◌}
use touchvault.Errors.{Result, refuse_if, or_error, no_prf, key_size, cipher_failed}
use touchvault.Errors.{derivation_failed, wrong_format, authentication}
use touchvault.Errors.Chain.{◌>>=◌, ◌>>◌}
use touchvault.Platform.Ciphers.{Aead, Crypto}
use touchvault.Sealed.Document.{SealedKey, SealedSecret, SealedVault}
use touchvault.Sealed.Aad.{key_aad, secret_aad}

abbrev pub data_key_len : ℕ
data_key_len = 32

abbrev pub kek_info : Text
kek_info = codes "touchvault/v1/kek"

-- `zero`
unfoldable pub zero_bytes : Bytes → Bytes
zero_bytes b = map (λ _. 0) b

module _ (C : Crypto) where
  -- `deriveKEK`
  unfoldable pub derive_kek : Bytes → Bytes → Result Bytes
  derive_kek prf salt = do
    refuse_if (is_empty prf) no_prf
    or_error (C.hkdf_key prf salt kek_info data_key_len) derivation_failed

  -- `newGCM`
  unfoldable pub new_gcm : Bytes → Result Aead
  new_gcm key = do
    refuse_if (not (length key == data_key_len)) key_size
    block ← or_error (C.new_cipher key) cipher_failed
    or_error (C.new_gcm block) cipher_failed

  -- `open`
  unfoldable pub open_bytes : Bytes → Bytes → Bytes → Bytes → Result Bytes
  open_bytes key nonce ciphertext aad = do
    gcm ← new_gcm key
    refuse_if (not (length nonce == gcm.nonce_size)) wrong_format
    or_error (gcm.open_sealed nonce ciphertext aad) authentication

  -- `unwrapDataKey`
  unfoldable pub unwrap_data_key : SealedVault → SealedKey → Bytes → Result Bytes
  unwrap_data_key v entry prf = do
    kek ← derive_kek prf v.salt
    open_bytes kek entry.nonce entry.wrapped (key_aad v entry.slot entry.credential_id)

  -- `openSecret`
  unfoldable pub open_secret : SealedVault → Bytes → SealedSecret → Result Bytes
  open_secret v data_key s = open_bytes data_key s.nonce s.ciphertext (secret_aad v s.name)
