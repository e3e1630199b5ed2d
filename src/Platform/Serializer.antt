-- ===== src/Platform/Serializer.antt =====
-- encoding/json on the sealed document, as a parameter.
use touchvault.Base.{◌≡◌, Bytes, Text, Option, some, map}
use touchvault.Sealed.Document.{SealedKey, SealedSecret, SealedVault}

pub record Json : Type 0 where
  pub marshal : SealedVault → Option Bytes
  pub unmarshal : Bytes → Option SealedVault
  -- The text that a JSON string stands for after a text was written as one.
  pub coerced : Text → Text

-- The document with every text coerced. Byte slices are written in base64, and stay.
abbrev pub coerced_key : Json → SealedKey → SealedKey
coerced_key J k = record k { label = J.coerced k.label }

abbrev pub coerced_secret : Json → SealedSecret → SealedSecret
coerced_secret J s = record s { name = J.coerced s.name }

abbrev pub coerced_vault : Json → SealedVault → SealedVault
coerced_vault J v = record v {
  rpid = J.coerced v.rpid;
  keys = map (coerced_key J) v.keys;
  secrets = map (coerced_secret J) v.secrets;
}

-- "String values encode as JSON strings coerced to valid UTF-8, replacing invalid bytes with the
-- Unicode replacement rune." Every other value of the document is read back as it was written.
pub record IsJson (J : Json) : Type 0 where
  pub unmarshal-marshal :
      (v : SealedVault)
      → (b : Bytes) × (J.marshal v ≡ some b) × (J.unmarshal b ≡ some (coerced_vault J v))
