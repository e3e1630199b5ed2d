-- ===== src/Platform/Ciphers.antt =====
-- crypto/aes, crypto/cipher, crypto/hkdf and crypto/sha256, as parameters, with what their
-- documentation says of them.
use touchvault.Base.{ℕ, ◌≡◌, Bytes, Option, some, length}

-- `cipher.AEAD`, with the arguments in its order: nonce, text, additional data.
pub record Aead : Type 0 where
  pub nonce_size : ℕ
  pub seal : Bytes → Bytes → Bytes → Bytes
  pub open_sealed : Bytes → Bytes → Bytes → Option Bytes

pub record Crypto : Type 1 where
  pub Block : Type 0
  -- `aes.NewCipher` and `cipher.NewGCM`.
  pub new_cipher : Bytes → Option Block
  pub new_gcm : Block → Option Aead
  -- `hkdf.Key` with SHA-256: secret, salt, info, length.
  pub hkdf_key : Bytes → Bytes → Bytes → ℕ → Option Bytes
  -- `sha256.Sum256`
  pub sha256 : Bytes → Bytes

-- The AEAD that a key of AES-256 gives.
pub record IsGcm (C : Crypto) : Type 0 where
  -- "The key argument should be the AES key, either 16, 24, or 32 bytes".
  pub cipher_32 : (k : Bytes) → length k ≡ 32 → (b : C.Block) × (C.new_cipher k ≡ some b)
  -- "NewGCM returns the given 128-bit, block cipher wrapped in Galois Counter Mode".
  pub gcm_of_block : (b : C.Block) → (g : Aead) × (C.new_gcm b ≡ some g)
  -- `Open` gives back what `Seal` was given under the same nonce and additional data.
  pub open-seal :
      (b : C.Block) (g : Aead) (n p a : Bytes)
      → C.new_gcm b ≡ some g
      → length n ≡ g.nonce_size
      → g.open_sealed n (g.seal n p a) a ≡ some p
  -- A derived key has the length that is asked for.
  pub hkdf_32 : (s t i : Bytes) → (k : Bytes) × (C.hkdf_key s t i 32 ≡ some k) × (length k ≡ 32)

-- "Open decrypts and authenticates ciphertext, authenticates the additional data": sealed bytes
-- do not open under other additional data. (The ideal reading: forgeries are left out.)
pub record BindsData (C : Crypto) : Type 0 where
  pub binds :
      (b : C.Block) (g : Aead) (m n p q a d : Bytes)
      → C.new_gcm b ≡ some g
      → g.open_sealed m (g.seal n p a) d ≡ some q
      → d ≡ a
