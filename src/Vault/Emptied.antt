-- ===== src/Vault/Emptied.antt =====
-- A vault whose last key was removed by `ForceRemoveKey`.
use touchvault.Base.{Bytes, [], ◌∷◌, ◌≡◌, arith, int_eq_iff}
use touchvault.Errors.{ok, err, no_keys_enrolled}
use touchvault.Authenticator.{Authenticator}
use touchvault.Platform.{Platform}
use touchvault.Platform.Serializer.{IsJson, coerced_vault}
use touchvault.World.{World}
use touchvault.Sealed.Document.{SealedKey, SealedVault}
use touchvault.Sealed.Parse.Valid.{IsWellFormed}
use touchvault.Vault.Options.{Vault}
use touchvault.Vault.Open.{open_vault, unlock}
use touchvault.Vault.Session.{Machine, key, force_remove_key, remove_entry, keys_without, sealed}
use touchvault.Vault.Reopening.{open_vault-marshal, plain}

without_keys-IsWellFormed :
    (v : SealedVault) → IsWellFormed v → IsWellFormed (record v { keys = [] })
without_keys-IsWellFormed v w = record {
  format = w.format;
  salt = w.salt;
  rpid = w.rpid;
  slots_nonneg = tt;
  slots_differ = tt;
  credentials_nonempty = tt;
  credentials_differ = tt;
  names_nonempty = w.names_nonempty;
  names_differ = w.names_differ;
}

module _ (P : Platform) (json : IsJson P.json) where
  -- `ForceRemoveKey` can take the only key of a vault, and the vault is still sealed without an
  -- error, where its document was well formed and JSON works as documented and keeps its texts. It
  -- opens again, and then no authenticator unlocks it: the error says that no keys are enrolled,
  -- and no touch is asked for.
  pub force_remove_last :
      (m m' : Machine P) (entry : SealedKey)
      → m.session.doc.keys ≡ entry ∷ []
      → IsWellFormed m.session.doc
      → coerced_vault P.json m'.session.doc ≡ m'.session.doc
      → force_remove_key P entry.slot m ≡ (ok tt, m')
      → (b : Bytes) × (v : Vault P) × ((sealed P m').0 ≡ ok b)
        × (open_vault P b ≡ ok v)
        × ((auth : Authenticator P.Outside) (w : World P)
            → unlock P v auth w ≡ (err no_keys_enrolled, w))
  unfolding force_remove_key key remove_entry keys_without sealed unlock
  force_remove_last m m' entry one valid kept removed =
      let after : m'.session.doc ≡ record (m.session.doc) { keys = [] } =
        ground (arith, int_eq_iff entry.slot entry.slot) in
      let valid' : IsWellFormed m'.session.doc =
        rw after (without_keys-IsWellFormed m.session.doc valid) in
      let (b, written, opened) = open_vault-marshal P json m'.session.doc valid' kept in
      (
        b,
        record { doc = m'.session.doc; opts = plain P m'.session.doc.rpid },
        written,
        opened,
        λ auth w. ground (arith, after),
      )
