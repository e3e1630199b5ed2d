-- ===== src/Crypto/RoundTrip.antt =====
-- Opening what was sealed, under the same key and for the same place.
use touchvault.Base.{ℤ, Bytes, Text, ◌≡◌, some, length, arith, inl, inr, Option-cases}
use touchvault.Errors.{ok, Result-cases}
use touchvault.Effects.Runs.{Run-cases}
use touchvault.Platform.{Platform, IsFullRead}
use touchvault.Platform.Ciphers.{Aead, Crypto, IsGcm}
use touchvault.World.{World, random_bytes}
use touchvault.Sealed.Document.{SealedKey, SealedSecret, SealedVault}
use touchvault.Sealed.Aad.{key_aad, secret_aad}
use touchvault.Crypto.Pure.{derive_kek, new_gcm, open_bytes, unwrap_data_key, open_secret}
use touchvault.Crypto.Seal.{seal, wrap_data_key, seal_secret}

module _ (C : Crypto) (law : IsGcm C) where
  -- A key of 32 bytes gives a cipher, which opens what it sealed.
  pub new_gcm_total :
      (key : Bytes)
      → length key ≡ 32
      → (b : C.Block) × (g : Aead) × (C.new_gcm b ≡ some g) × (new_gcm C key ≡ ok g)
  unfolding new_gcm
  new_gcm_total key h =
      let (b, hb) = law.cipher_32 key h in
      let (g, hg) = law.gcm_of_block b in (b, g, hg, ground arith)

  pub new_gcm-eq-ok :
      (key : Bytes) {g : Aead}
      → new_gcm C key ≡ ok g
      → (length key ≡ 32) × (b : C.Block) × (C.new_gcm b ≡ some g)
  unfolding new_gcm
  new_gcm-eq-ok key h = elim (Option-cases (C.new_cipher key)) [
    | inl e ↦ absurd (ground arith)
    | inr (b, e) ↦ (ground arith, b, ground arith)
  ]

  pub open_bytes_sealed :
      (key n p aad : Bytes) (g : Aead)
      → new_gcm C key ≡ ok g
      → length n ≡ g.nonce_size
      → open_bytes C key n (g.seal n p aad) aad ≡ ok p
  unfolding open_bytes
  open_bytes_sealed key n p aad g hg hn =
      let (_, b, hb) = new_gcm-eq-ok key hg in ground (arith, law.open-seal b g n p aad hb hn)

module _ (P : Platform) (law : IsGcm P.crypto) (full : IsFullRead P) where
  pub seal-eq-ok :
      (key p aad : Bytes) (w w' : World P) {n c : Bytes}
      → seal P key p aad w ≡ (ok (n, c), w')
      → (g : Aead) × (new_gcm P.crypto key ≡ ok g)
        × (length n ≡ g.nonce_size)
        × (c ≡ g.seal n p aad)
  unfolding seal random_bytes
  seal-eq-ok key p aad w w' {n} {c} h = elim (Result-cases (new_gcm P.crypto key)) [
    | inr (e, failed) ↦ absurd (ground arith)
    | inl (g, hg) ↦ (g, hg, ground (arith, full.full g.nonce_size w.outside n), ground arith)
  ]

  -- What `seal` returns, `open` takes back.
  pub open_bytes-seal :
      (key p aad : Bytes) (w w' : World P) {n c : Bytes}
      → seal P key p aad w ≡ (ok (n, c), w')
      → open_bytes P.crypto key n c aad ≡ ok p
  open_bytes-seal key p aad w w' {n} {c} h =
      let (g, hg, hn, hc) = seal-eq-ok key p aad w w' h in
      rw hc (open_bytes_sealed P.crypto law key n p aad g hg hn)

  -- What `wrapDataKey` wraps, `unwrapDataKey` gives back to the holder of the same key
  -- material, where the ciphers and the entropy source work as documented.
  pub unwrap-wrap :
      (v : SealedVault) (data_key id prf : Bytes) (slot : ℤ) (label : Text) (w w' : World P)
      {entry : SealedKey}
      → wrap_data_key P v data_key id prf slot label w ≡ (ok entry, w')
      → unwrap_data_key P.crypto v entry prf ≡ ok data_key
  unfolding unwrap_data_key wrap_data_key
  unwrap-wrap v data_key id prf slot label w w' h =
      elim (Result-cases (derive_kek P.crypto prf v.salt)) [
        | inr (e, failed) ↦ absurd (ground arith)
        | inl (kek, hk) ↦ elim (Run-cases (seal P kek data_key (key_aad v slot id) w)) [
          | inr (e, w₁, failed) ↦ absurd (ground arith)
          | inl (s, w₁, hs) ↦
              ground (
                arith,
                open_bytes-seal kek data_key (key_aad v slot id) w w₁ {n = s.0} {c = s.1} hs,
              )
        ]
      ]

  -- What `sealSecret` seals, `openSecret` opens, under the same data key and for the
  -- same name, where the ciphers and the entropy source work as documented.
  pub open-seal_secret :
      (v : SealedVault) (data_key p : Bytes) (name : Text) (w w' : World P) {s : SealedSecret}
      → seal_secret P v data_key name p w ≡ (ok s, w')
      → open_secret P.crypto v data_key s ≡ ok p
  unfolding open_secret seal_secret
  open-seal_secret v data_key p name w w' h =
      elim (Run-cases (seal P data_key p (secret_aad v name) w)) [
        | inr (e, w₁, failed) ↦ absurd (ground arith)
        | inl (t, w₁, ht) ↦
            ground
              (arith, open_bytes-seal data_key p (secret_aad v name) w w₁ {n = t.0} {c = t.1} ht)
      ]
