-- ===== src/Vault/Open.antt =====
-- vault.go: `Open`, `OpenWith` and `unlock`, which `Unlock` and `Administer` both are.
pub mod Exact
use touchvault.Base.{none, [], is_empty, not, Bytes, list_eq, nat_Eq, bool_ne, ◌&&◌}
use touchvault.Errors.{Result, ok, refuse_if, rpid_mismatch, no_keys_enrolled, not_entropy_verified}
use touchvault.Errors.{not_present, user_verification_mismatch, unknown_credential}
use touchvault.Errors.Chain
use touchvault.Effects.{M, ◌>>=◌, ◌>>◌, pure, try, raise_if, or_raise}
use touchvault.Authenticator.{Authenticator, DeriveRequest, derive_request}
use touchvault.Sealed.Document.{SealedVault}
use touchvault.Platform.{Platform}
use touchvault.World.{World, ask_derive}
use touchvault.Sealed.Find.{find_key, credential_ids, uv_requirement}
use touchvault.Sealed.Parse.{parse_sealed}
use touchvault.Crypto.Pure.{unwrap_data_key}
use touchvault.Vault.Options.{Options, Vault, Session}

-- The request that `unlock` makes.
abbrev pub unlock_request : SealedVault → DeriveRequest
unlock_request doc = derive_request doc.rpid (credential_ids doc) doc.salt (uv_requirement doc)

module _ (P : Platform) where
  -- `OpenWith`
  unfoldable pub open_with : Bytes → Options P → Result (Vault P)
  open_with input opts = Chain.◌>>=◌ (parse_sealed P.json input) λ doc.
      Chain.◌>>◌
        (refuse_if (not (is_empty opts.rpid) && not (list_eq opts.rpid doc.rpid)) rpid_mismatch)
        (ok (record { doc = doc; opts = record opts { rpid = doc.rpid } }))

  -- `Open`
  unfoldable pub open_vault : Bytes → Result (Vault P)
  open_vault input = open_with input (record { rpid = []; rp_name = []; roots = none; label = [] })

  -- `(*vault).unlock`
  unfoldable pub unlock : Vault P → Authenticator P.Outside → M (World P) (Session P)
  unlock v auth = do
    raise_if (is_empty v.doc.keys) no_keys_enrolled
    raise_if (not v.doc.entropy_verified) not_entropy_verified
    answer ← ask_derive P auth (unlock_request v.doc)
    raise_if (not answer.user_present) not_present
    raise_if (bool_ne answer.user_verified v.doc.user_verified) user_verification_mismatch
    entry ← or_raise (find_key v.doc answer.credential_id) unknown_credential
    data_key ← try (unwrap_data_key P.crypto v.doc entry answer.secret)
    pure (record { doc = v.doc; opts = v.opts; data_key = data_key })
