-- ===== src/Sealed/Aad/Injective.antt =====
-- What the authenticated data of sealed.go says of the fields that it is built from.
use touchvault.Base.{ℕ, ℤ, Bytes, Text, Bool, ◌≡◌, ◌≢◌, ◌++◌, ◌<◌, ◌^◌, [], ◌∷◌}
use touchvault.Base.{
  length, to_u32, to_u32-lt, pos, ap, ◌+◌, ◌*◌, arith, append-nil, append_assoc, sym, ◌∙◌, refl,
}
use touchvault.Sealed.Document.{SealedVault}
use touchvault.Sealed.Aad.{
  bool_byte, aad, key_aad, secret_aad, aad_info, aad_kind_key, aad_kind_secret,
}
use touchvault.Sealed.Aad.Encoding.{
  be32, prefixed, be32-injective, prefixed-injective, cons-injective, append-injective,
}

-- The fields whose lengths are written as 32-bit numbers are short enough for that.
pub record Fits (v : SealedVault) : Type 0 where
  pub rpid : length v.rpid < 2 ^ 32
  pub salt : length v.salt < 2 ^ 32

-- Two documents with the same authenticated header.
pub record SameHeader (v w : SealedVault) : Type 0 where
  pub format : to_u32 v.format ≡ to_u32 w.format
  pub rpid : v.rpid ≡ w.rpid
  pub user_verified : v.user_verified ≡ w.user_verified
  pub entropy_verified : v.entropy_verified ≡ w.entropy_verified
  pub salt : v.salt ≡ w.salt

bool_byte-injective : (a b : Bool) → bool_byte a ≡ bool_byte b → a ≡ b
unfolding bool_byte
bool_byte-injective a b h = ground arith

aad_fields :
    (v : SealedVault) (r : Bytes)
    → aad v ++ r
      ≡ aad_info
        ++ (be32 (to_u32 v.format)
            ++ (prefixed v.rpid
                ++ (bool_byte v.user_verified
                    ∷ bool_byte v.entropy_verified
                    ∷ (prefixed v.salt ++ r))))
unfolding aad prefixed
aad_fields v r = simp append_assoc

aad-injective :
    (v w : SealedVault) (r s : Bytes)
    → Fits v
    → Fits w
    → aad v ++ r ≡ aad w ++ s
    → SameHeader v w × (r ≡ s)
aad-injective v w r s fv fw h =
    let fields =
      (append-injective aad_info aad_info _ _ refl (sym (aad_fields v r) ∙ h ∙ aad_fields w s)).1 in
    let format =
      be32-injective (to_u32 v.format) (to_u32 w.format) _ _ fields (to_u32-lt v.format)
        (to_u32-lt w.format) in
    let rpid = prefixed-injective v.rpid w.rpid _ _ fv.rpid fw.rpid format.1 in
    let verified = cons-injective _ _ _ _ rpid.1 in
    let entropy = cons-injective _ _ _ _ verified.1 in
    let salt = prefixed-injective v.salt w.salt r s fv.salt fw.salt entropy.1 in
    (
      record {
        format = format.0;
        rpid = rpid.0;
        user_verified = bool_byte-injective v.user_verified w.user_verified verified.0;
        entropy_verified = bool_byte-injective v.entropy_verified w.entropy_verified entropy.0;
        salt = salt.0;
      },
      salt.1,
    )

key_aad_fields :
    (v : SealedVault) (slot : ℤ) (id : Bytes)
    → key_aad v slot id ≡ aad v ++ (aad_kind_key ∷ (be32 (to_u32 slot) ++ (prefixed id ++ [])))
unfolding key_aad prefixed
key_aad_fields v slot id = simp (append_assoc, append-nil)

secret_aad_fields :
    (v : SealedVault) (name : Text)
    → secret_aad v name ≡ aad v ++ (aad_kind_secret ∷ (prefixed name ++ []))
unfolding secret_aad prefixed
secret_aad_fields v name = simp (append_assoc, append-nil)

-- The authenticated data of a wrapped data key determines the header of the document, the slot
-- up to its low 32 bits, and the credential ID, where no field is longer than 2 ^ 32 - 1 bytes.
pub key_aad-injective :
    (v w : SealedVault) (slot slot' : ℤ) (id id' : Bytes)
    → Fits v
    → Fits w
    → length id < 2 ^ 32
    → length id' < 2 ^ 32
    → key_aad v slot id ≡ key_aad w slot' id'
    → SameHeader v w × (to_u32 slot ≡ to_u32 slot') × (id ≡ id')
key_aad-injective v w slot slot' id id' fv fw hi hi' h =
    let header =
      aad-injective v w _ _ fv fw
        (sym (key_aad_fields v slot id) ∙ h ∙ key_aad_fields w slot' id') in
    let number =
      be32-injective (to_u32 slot) (to_u32 slot') _ _ (cons-injective _ _ _ _ header.1).1
        (to_u32-lt slot) (to_u32-lt slot') in
    (header.0, number.0, (prefixed-injective id id' [] [] hi hi' number.1).0)

-- The authenticated data of a sealed secret determines the header of the document and the name,
-- where no field is longer than 2 ^ 32 - 1 bytes.
pub secret_aad-injective :
    (v w : SealedVault) (name name' : Text)
    → Fits v
    → Fits w
    → length name < 2 ^ 32
    → length name' < 2 ^ 32
    → secret_aad v name ≡ secret_aad w name'
    → SameHeader v w × (name ≡ name')
secret_aad-injective v w name name' fv fw hn hn' h =
    let header =
      aad-injective v w _ _ fv fw
        (sym (secret_aad_fields v name) ∙ h ∙ secret_aad_fields w name') in
    (header.0, (prefixed-injective name name' [] [] hn hn' (cons-injective _ _ _ _ header.1).1).0)

-- No wrapped data key has the authenticated data of a sealed secret, in whatever documents, where
-- the RP IDs and salts are not longer than 2 ^ 32 - 1 bytes.
pub key_aad-ne-secret_aad :
    (v w : SealedVault) (slot : ℤ) (id : Bytes) (name : Text)
    → Fits v
    → Fits w
    → key_aad v slot id ≢ secret_aad w name
key_aad-ne-secret_aad v w slot id name fv fw h =
    let header =
      aad-injective v w _ _ fv fw (sym (key_aad_fields v slot id) ∙ h ∙ secret_aad_fields w name) in
    absurd (omega (arith, (cons-injective _ _ _ _ header.1).0))

-- Slots whose low 32 bits agree are not told apart: two slots 2 ^ 32 apart, or a multiple of it,
-- give one authenticated data.
pub key_aad_slots_collide :
    (v : SealedVault) (n k : ℕ) (id : Bytes)
    → key_aad v (pos n) id ≡ key_aad v (pos (n + 2 ^ 32 * k)) id
unfolding to_u32
key_aad_slots_collide v n k id =
    key_aad_fields v (pos n) id
    ∙ ap (λ u. aad v ++ (aad_kind_key ∷ (be32 u ++ (prefixed id ++ [])))) (wraps n k)
    ∙ sym (key_aad_fields v (pos (n + 2 ^ 32 * k)) id)
  where
    wraps : (n k : ℕ) → to_u32 (pos n) ≡ to_u32 (pos (n + 2 ^ 32 * k))
    wraps n k = omega arith
