-- ===== src/Vault/Working/Entries.antt =====
-- Drawing, sealing and wrapping where the entropy source and the ciphers work.
use touchvault.Base.{ℕ, ℤ, Bytes, Text, [], ◌≡◌, ◌≢◌, length, arith, inl, inr, Option-cases}
use touchvault.Errors.{ok, Result-cases}
use touchvault.Platform.{Platform, NeverFails}
use touchvault.Platform.Ciphers.{IsGcm}
use touchvault.World.{World, random_bytes}
use touchvault.Sealed.Document.{SealedKey, SealedSecret, SealedVault}
use touchvault.Sealed.Aad.{key_aad, secret_aad}
use touchvault.Crypto.Pure.{data_key_len, derive_kek, kek_info, new_gcm}
use touchvault.Crypto.Seal.{seal, wrap_data_key, seal_secret}
use touchvault.Crypto.RoundTrip.{new_gcm_total}

module _ (P : Platform) (never : NeverFails P) where
  pub random_bytes_total :
      (n : ℕ) (w : World P) → (b : Bytes) × (w' : World P) × (random_bytes P n w ≡ (ok b, w'))
  unfolding random_bytes
  random_bytes_total n w =
      let (b, drawn) = never.drawn n w.outside in (b, (random_bytes P n w).1, ground arith)

module _ (P : Platform) (law : IsGcm P.crypto) (never : NeverFails P) where
  seal_total :
      (k p aad : Bytes) (w : World P)
      → length k ≡ data_key_len
      → (r : Bytes × Bytes) × (w' : World P) × (seal P k p aad w ≡ (ok r, w'))
  unfolding seal
  seal_total k p aad w full =
      let (b, g, _, made) = new_gcm_total P.crypto law k full in
      let (n, w', drawn) = random_bytes_total P never g.nonce_size w in
      ((n, g.seal n p aad), w', ground arith)

  pub seal_secret_total :
      (v : SealedVault) (k : Bytes) (name : Text) (p : Bytes) (w : World P)
      → length k ≡ data_key_len
      → (e : SealedSecret) × (w' : World P) × (seal_secret P v k name p w ≡ (ok e, w'))
  unfolding seal_secret
  seal_secret_total v k name p w full =
      let ((n, c), w', sealed) = seal_total k p (secret_aad v name) w full in
      (record { name = name; nonce = n; ciphertext = c }, w', ground arith)

  pub wrap_data_key_total :
      (v : SealedVault) (k id prf : Bytes) (slot : ℤ) (label : Text) (w : World P)
      → prf ≢ []
      → (e : SealedKey) × (w' : World P) × (wrap_data_key P v k id prf slot label w ≡ (ok e, w'))
  unfolding wrap_data_key derive_kek
  wrap_data_key_total v k id prf slot label w given =
      let (kek, derived, full) = law.hkdf_32 prf v.salt kek_info in
      let ((n, c), w', sealed) = seal_total kek k (key_aad v slot id) w full in
      (
        record { slot = slot; label = label; credential_id = id; nonce = n; wrapped = c },
        w',
        ground arith,
      )

-- Wrapping a key draws random bytes, and leaves the world outside alone else.
pub wrap_data_key-outside :
    (P : Platform) (v : SealedVault) (k id prf : Bytes) (slot : ℤ) (label : Text) (w w' : World P)
    (e : SealedKey)
    → wrap_data_key P v k id prf slot label w ≡ (ok e, w')
    → (n : ℕ) × ((P.rand_read n w.outside).1 ≡ w'.outside)
unfolding wrap_data_key seal random_bytes
wrap_data_key-outside P v k id prf slot label w w' e h =
    elim (Result-cases (derive_kek P.crypto prf v.salt)) [
      | inr (x, failed) ↦ absurd (ground (arith))
      | inl (kek, derived) ↦ elim (Result-cases (new_gcm P.crypto kek)) [
        | inr (x, failed) ↦ absurd (ground (arith))
        | inl (g, made) ↦ elim (Option-cases (P.rand_read g.nonce_size w.outside).0) [
          | inl failed ↦ absurd (ground (arith))
          | inr (b, drawn) ↦ (g.nonce_size, ground (arith))
        ]
      ]
    ]
