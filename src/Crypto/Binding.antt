-- ===== src/Crypto/Binding.antt =====
-- What a seal is bound to, and what it is not.
use touchvault.Base.{ℤ, Bytes, Text, ◌≡◌, ◌<◌, ◌^◌, length, to_u32, arith, inl, inr, sym}
use touchvault.Errors.{ok, Result-cases}
use touchvault.Effects.Runs.{Run-cases}
use touchvault.Platform.{Platform, IsFullRead}
use touchvault.Platform.Ciphers.{IsGcm, BindsData}
use touchvault.World.{World}
use touchvault.Sealed.Document.{SealedKey, SealedSecret, SealedVault}
use touchvault.Sealed.Aad.{key_aad, secret_aad}
use touchvault.Sealed.Aad.Injective.{Fits, SameHeader, key_aad-injective, secret_aad-injective}
use touchvault.Crypto.Pure.{derive_kek, open_bytes, unwrap_data_key, open_secret}
use touchvault.Crypto.Seal.{seal, wrap_data_key, seal_secret}
use touchvault.Crypto.RoundTrip.{new_gcm-eq-ok, seal-eq-ok}

module _ (P : Platform) (law : IsGcm P.crypto) (full : IsFullRead P)
    (binding : BindsData P.crypto) where
  -- Bytes that were sealed open under no other additional data.
  open_bytes-binds :
      (key p a d m q : Bytes) (w w' : World P) (n c : Bytes)
      → seal P key p a w ≡ (ok (n, c), w')
      → open_bytes P.crypto key m c d ≡ ok q
      → d ≡ a
  unfolding open_bytes
  open_bytes-binds key p a d m q w w' n c made opened =
      let (g, hg, _, hc) = seal-eq-ok P law full key p a w w' {n = n} {c = c} made in
      let (_, b, hb) = new_gcm-eq-ok P.crypto law key hg in
      ground (arith, binding.binds b g m n p q a d hb)

  -- With a cipher that opens under no other additional data, a wrapped data key that is moved
  -- elsewhere does not open there. Where the same key material
  -- opens its bytes, in whatever document with that salt and in whatever entry, the document has
  -- the same header, and the entry has the same credential ID and the same slot up to its low 32
  -- bits. No field is longer than 2 ^ 32 - 1 bytes.
  pub unwrap_data_key-binds :
      (v v' : SealedVault) (data_key id prf k : Bytes) (slot : ℤ) (label : Text) (w w' : World P)
      (entry moved : SealedKey)
      → Fits v
      → Fits v'
      → length id < 2 ^ 32
      → length moved.credential_id < 2 ^ 32
      → wrap_data_key P v data_key id prf slot label w ≡ (ok entry, w')
      → v'.salt ≡ v.salt
      → moved.wrapped ≡ entry.wrapped
      → unwrap_data_key P.crypto v' moved prf ≡ ok k
      → SameHeader v v' × (to_u32 slot ≡ to_u32 moved.slot) × (id ≡ moved.credential_id)
  unfolding wrap_data_key unwrap_data_key
  unwrap_data_key-binds v v' data_key id prf k slot label w w' entry moved fv fv' hi hm made salt
        same opened =
      elim (Result-cases (derive_kek P.crypto prf v.salt)) [
        | inr (e, failed) ↦ absurd (ground arith)
        | inl (kek, hk) ↦ elim (Run-cases (seal P kek data_key (key_aad v slot id) w)) [
          | inr (e, w₁, failed) ↦ absurd (ground arith)
          | inl (t, w₁, sealed) ↦
              let a = key_aad v slot id in
              let d = key_aad v' moved.slot moved.credential_id in
              let there : open_bytes P.crypto kek moved.nonce t.1 d ≡ ok k = ground arith in
              key_aad-injective v v' slot moved.slot id moved.credential_id fv fv' hi hm
                (sym (open_bytes-binds kek data_key a d moved.nonce k w w₁ t.0 t.1 sealed there))
        ]
      ]

  -- With a cipher that opens under no other additional data, a sealed secret that is moved
  -- elsewhere does not open there. Where the data key opens its
  -- bytes, in whatever document and under whatever name, the document has the same header, and the
  -- name is the same. No field is longer than 2 ^ 32 - 1 bytes.
  pub open_secret-binds :
      (v v' : SealedVault) (data_key p q : Bytes) (name : Text) (w w' : World P)
      (entry moved : SealedSecret)
      → Fits v
      → Fits v'
      → length name < 2 ^ 32
      → length moved.name < 2 ^ 32
      → seal_secret P v data_key name p w ≡ (ok entry, w')
      → moved.ciphertext ≡ entry.ciphertext
      → open_secret P.crypto v' data_key moved ≡ ok q
      → SameHeader v v' × (name ≡ moved.name)
  unfolding seal_secret open_secret
  open_secret-binds v v' data_key p q name w w' entry moved fv fv' hn hm made same opened =
      let a = secret_aad v name in
      let d = secret_aad v' moved.name in
      elim (Run-cases (seal P data_key p a w)) [
        | inr (e, w₁, failed) ↦ absurd (ground arith)
        | inl (t, w₁, sealed) ↦
            let there : open_bytes P.crypto data_key moved.nonce t.1 d ≡ ok q = ground arith in
            secret_aad-injective v v' name moved.name fv fv' hn hm
              (sym (open_bytes-binds data_key p a d moved.nonce q w w₁ t.0 t.1 sealed there))
      ]
