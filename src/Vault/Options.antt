-- ===== src/Vault/Options.antt =====
-- vault.go: `Options`, and the state of an unlocked vault.
use touchvault.Base.{ℕ, ℤ, pos, Bytes, Text, Done, Option, is_empty, codes, if◌then◌else◌}
use touchvault.Errors.{Result, refuse_if, rpid_required}
use touchvault.Platform.{Platform}
use touchvault.Sealed.Document.{SealedVault}

abbrev pub default_label : Text
default_label = codes "primary"

abbrev pub user_id_len : ℕ
user_id_len = 16

abbrev pub first_slot : ℤ
first_slot = pos 0

pub record Options (P : Platform) : Type 0 where
  pub rpid : Text
  pub rp_name : Text
  -- `none` is the nil pool, which stands for the bundled roots.
  pub roots : Option P.certs.Pool
  pub label : Text

-- `vault`
pub record Vault (P : Platform) : Type 0 where
  pub doc : SealedVault
  pub opts : Options P

-- `session`. The data key is empty where it is nil in the source, once locked; a data key that is
-- generated has 32 bytes, and `cipher.AEAD.Open` returns nil for an empty plaintext. The mutex is
-- in Vault.Goroutines.
pub record Session (P : Platform) : Type 0 where
  pub doc : SealedVault
  pub opts : Options P
  pub data_key : Bytes

module _ {P : Platform} where
  -- `Options.validate`
  unfoldable pub validate : Options P → Result Done
  validate o = refuse_if (is_empty o.rpid) rpid_required

  -- `Options.rpName`
  unfoldable pub rp_name : Options P → Text
  rp_name o = if is_empty o.rp_name then o.rpid else o.rp_name

  -- `Options.label`
  unfoldable pub label : Options P → Text
  label o = if is_empty o.label then default_label else o.label
