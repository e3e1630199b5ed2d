-- ===== src/Crypto/Fields.antt =====
-- What the entries that are sealed say beside the ciphertext, and the touches of sealing.
use touchvault.Base.{ℤ, Bytes, Text, List, ◌≡◌, arith, inl, inr, refl}
use touchvault.Errors.{ok, Result-cases}
use touchvault.Effects.Runs.{Run-cases}
use touchvault.Platform.{Platform, IsFullRead}
use touchvault.Base.{ℕ, length}
use touchvault.Platform.Ciphers.{Crypto}
use touchvault.World.{World, random_bytes}
use touchvault.Sealed.Document.{SealedKey, SealedSecret, SealedVault}
use touchvault.Sealed.Aad.{aad, key_aad, secret_aad}
use touchvault.Crypto.Pure.{derive_kek, unwrap_data_key}
use touchvault.Crypto.Seal.{seal, wrap_data_key, seal_secret}

-- The entries of a document are no part of its authenticated data.
pub unwrap_data_key-keys :
    (C : Crypto) (doc : SealedVault) (ks : List SealedKey) (e : SealedKey) (prf : Bytes)
    → unwrap_data_key C (record doc { keys = ks }) e prf ≡ unwrap_data_key C doc e prf
unfolding unwrap_data_key key_aad aad
unwrap_data_key-keys C doc ks e prf = refl

pub unwrap_data_key-secrets :
    (C : Crypto) (doc : SealedVault) (ss : List SealedSecret) (e : SealedKey) (prf : Bytes)
    → unwrap_data_key C (record doc { secrets = ss }) e prf ≡ unwrap_data_key C doc e prf
unfolding unwrap_data_key key_aad aad
unwrap_data_key-secrets C doc ss e prf = refl

module _ (P : Platform) where
  -- Random bytes ask for no touch, and have the length that was asked for.
  pub random_bytes-eq-ok :
      IsFullRead P
      → (n : ℕ) (w w' : World P) {b : Bytes} → random_bytes P n w ≡ (ok b, w')
      → (length b ≡ n) × (w'.gestures ≡ w.gestures)
  unfolding random_bytes
  random_bytes-eq-ok full n w w' {b} h = (ground (arith, full.full n w.outside b), ground arith)

  gestures-seal : (key p aad : Bytes) (w : World P) → (seal P key p aad w).1.gestures ≡ w.gestures
  unfolding seal random_bytes
  gestures-seal key p aad w = ground arith

  pub seal_secret-fields :
      (v : SealedVault) (data_key : Bytes) (name : Text) (p : Bytes) (w w' : World P)
      {s : SealedSecret}
      → seal_secret P v data_key name p w ≡ (ok s, w')
      → (s.name ≡ name) × (w'.gestures ≡ w.gestures)
  unfolding seal_secret
  seal_secret-fields v data_key name p w w' h =
      elim (Run-cases (seal P data_key p (secret_aad v name) w)) [
        | inr (e, w₁, failed) ↦ absurd (ground arith)
        | inl (t, w₁, made) ↦
            (ground arith, ground (arith, gestures-seal data_key p (secret_aad v name) w))
      ]

  pub wrap_data_key-fields :
      (v : SealedVault) (data_key id prf : Bytes) (slot : ℤ) (label : Text) (w w' : World P)
      {e : SealedKey}
      → wrap_data_key P v data_key id prf slot label w ≡ (ok e, w')
      → (e.slot ≡ slot) × (e.label ≡ label) × (e.credential_id ≡ id) × (w'.gestures ≡ w.gestures)
  unfolding wrap_data_key
  wrap_data_key-fields v data_key id prf slot label w w' h =
      elim (Result-cases (derive_kek P.crypto prf v.salt)) [
        | inr (e, failed) ↦ absurd (ground arith)
        | inl (kek, hk) ↦ elim (Run-cases (seal P kek data_key (key_aad v slot id) w)) [
          | inr (e, w₁, failed) ↦ absurd (ground arith)
          | inl (s, w₁, hs) ↦ (
            ground arith,
            ground arith,
            ground arith,
            ground (arith, gestures-seal kek data_key (key_aad v slot id) w),
          )
        ]
      ]
