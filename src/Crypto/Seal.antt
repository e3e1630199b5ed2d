-- ===== src/Crypto/Seal.antt =====
-- crypto.go: fresh salts, keys and nonces, and sealing.
use touchvault.Base.{ℤ, Bytes, Text}
use touchvault.Effects.{M, ◌>>=◌, pure, try}
use touchvault.Authenticator.{salt_len}
use touchvault.Platform.{Platform}
use touchvault.World.{World, random_bytes}
use touchvault.Sealed.Document.{SealedKey, SealedSecret, SealedVault}
use touchvault.Sealed.Aad.{key_aad, secret_aad}
use touchvault.Crypto.Pure.{data_key_len, derive_kek, new_gcm}

module _ (P : Platform) where
  -- `newSalt`
  unfoldable pub new_salt : M (World P) Bytes
  unfolding random_bytes
  new_salt = random_bytes P salt_len

  -- `newDataKey`
  unfoldable pub new_data_key : M (World P) Bytes
  unfolding random_bytes
  new_data_key = random_bytes P data_key_len

  -- `seal`: the nonce and the ciphertext.
  unfoldable pub seal : Bytes → Bytes → Bytes → M (World P) (Bytes × Bytes)
  seal key plaintext aad = do
    gcm ← try (new_gcm P.crypto key)
    nonce ← random_bytes P gcm.nonce_size
    pure (nonce, gcm.seal nonce plaintext aad)

  -- `wrapDataKey`
  unfoldable pub wrap_data_key :
      SealedVault → Bytes → Bytes → Bytes → ℤ → Text → M (World P) SealedKey
  wrap_data_key v data_key credential_id prf slot label = do
    kek ← try (derive_kek P.crypto prf v.salt)
    (nonce, wrapped) ← seal kek data_key (key_aad v slot credential_id)
    pure (record {
      slot = slot;
      label = label;
      credential_id = credential_id;
      nonce = nonce;
      wrapped = wrapped;
    })

  -- `sealSecret`
  unfoldable pub seal_secret : SealedVault → Bytes → Text → Bytes → M (World P) SealedSecret
  seal_secret v data_key name plaintext = do
    (nonce, ciphertext) ← seal data_key plaintext (secret_aad v name)
    pure (record { name = name; nonce = nonce; ciphertext = ciphertext })
