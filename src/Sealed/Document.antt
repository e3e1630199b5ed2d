-- ===== src/Sealed/Document.antt =====
-- The types of sealed.go.
use touchvault.Base.{ℤ, pos, Bytes, Text, Bool, List}

abbrev pub format_version : ℤ
format_version = pos 1

pub record SealedKey : Type 0 where
  pub slot : ℤ
  pub label : Text
  pub credential_id : Bytes
  pub nonce : Bytes
  pub wrapped : Bytes

pub record SealedSecret : Type 0 where
  pub name : Text
  pub nonce : Bytes
  pub ciphertext : Bytes

pub record SealedVault : Type 0 where
  pub format : ℤ
  pub rpid : Text
  pub salt : Bytes
  pub user_verified : Bool
  pub entropy_verified : Bool
  pub keys : List SealedKey
  pub secrets : List SealedSecret
