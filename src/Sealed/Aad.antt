-- ===== src/Sealed/Aad.antt =====
-- The authenticated data of sealed.go, byte by byte.
pub mod Encoding
pub mod Injective
use touchvault.Base.{ℕ, ℤ, Bytes, Text, Bool, true, false, List, [], ◌∷◌, ◌++◌, ◌/◌, ◌%◌, ◌^◌}
use touchvault.Base.{length, to_u32, codes}
use touchvault.Sealed.Document.{SealedVault}

abbrev pub aad_info : Text
aad_info = codes "touchvault/v1/aad"

abbrev pub aad_kind_key : ℕ
aad_kind_key = 1

abbrev pub aad_kind_secret : ℕ
aad_kind_secret = 2

-- `binary.BigEndian.AppendUint32`
unfoldable pub append_u32 : Bytes → ℕ → Bytes
append_u32 b n = b ++ (n / 2 ^ 24 % 256 ∷ n / 2 ^ 16 % 256 ∷ n / 2 ^ 8 % 256 ∷ n % 256 ∷ [])

unfoldable pub append_len_prefixed : Bytes → Bytes → Bytes
unfolding append_u32
append_len_prefixed b v = append_u32 b (length v % 2 ^ 32) ++ v

unfoldable pub bool_byte : Bool → ℕ
bool_byte true = 1
bool_byte false = 0

-- `(*sealedVault).aad`
unfoldable pub aad : SealedVault → Bytes
unfolding append_u32 append_len_prefixed bool_byte to_u32
aad v =
    append_len_prefixed
      (append_len_prefixed (append_u32 aad_info (to_u32 v.format)) v.rpid
        ++ (bool_byte v.user_verified ∷ bool_byte v.entropy_verified ∷ []))
      v.salt

-- `(*sealedVault).keyAAD`
unfoldable pub key_aad : SealedVault → ℤ → Bytes → Bytes
unfolding aad
key_aad v slot credential_id =
    append_len_prefixed (append_u32 (aad v ++ (aad_kind_key ∷ [])) (to_u32 slot)) credential_id

-- `(*sealedVault).secretAAD`
unfoldable pub secret_aad : SealedVault → Text → Bytes
unfolding aad
secret_aad v name = append_len_prefixed (aad v ++ (aad_kind_secret ∷ [])) name
