-- ===== src/Vault/Shared/Reopened.antt =====
-- A vault that is read back from what a session sealed, and the sessions that it hands out.
use touchvault.Base.{Text, Bool, List, All, Bytes, [], ◌≡◌, inl, refl}
use touchvault.Errors.{ok}
use touchvault.Authenticator.{Authenticator, IsHmacSecret}
use touchvault.Platform.{Platform, IsFullRead}
use touchvault.Platform.Ciphers.{IsGcm}
use touchvault.Platform.Serializer.{IsJson, coerced_vault}
use touchvault.World.{World}
use touchvault.Vault.Options.{Options, Vault, Session}
use touchvault.Vault.Create.{create}
use touchvault.Vault.Open.{open_vault}
use touchvault.Vault.Session.{Machine, sealed}
use touchvault.Vault.Calls.{Call, perform_all}
use touchvault.Vault.Calls.Derived.{Honest}
use touchvault.Vault.Prf.{calls-Derives}
use touchvault.Vault.Reopening.{open_vault-marshal, reopened}
use touchvault.Vault.Shared.{Shared, Act, act_all}
use touchvault.Vault.Shared.Sound.{IsSharedSound, HonestAct, act_all-IsSharedSound}

-- A vault that has handed out no session yet.
abbrev pub opened : {P : Platform} → Vault P → World P → Shared P
opened v w = record { doc = v.doc; opts = v.opts; data_keys = []; world = w }

module _ (P : Platform) (output : Text → Bytes → Bytes → Bool → Bytes) (law : IsGcm P.crypto)
    (full : IsFullRead P) (json : IsJson P.json) (auth : Authenticator P.Outside)
    (opts : Options P) where
  -- A session that `Create` made, after any calls of its methods, is sealed and opened, where the
  -- ciphers, the entropy source and JSON work as documented, every security key computes
  -- hmac-secret, and JSON keeps the texts: `Sealed` returns bytes, and `Open` reads them. Whatever is
  -- then asked of the vault and of the sessions that it hands out, in whatever order, in whatever
  -- later world: its document stays well formed, every secret in it opens under the data key of
  -- `Create` and every key in it unwraps that key, and every session is locked or holds that key.
  pub reopen-IsSharedSound :
      (w w' : World P) (s : Session P)
      → IsHmacSecret output auth
      → create P auth opts w ≡ (ok s, w')
      → (cs : List (Call P)) → All (Honest output) cs
      → (n : Machine P) → perform_all P cs (record { session = s; world = w' }) ≡ n
      → coerced_vault P.json n.session.doc ≡ n.session.doc
      → (w₂ : World P) (acts : List (Act P)) → All (HonestAct output) acts
      → (b : Bytes) × ((sealed P n).0 ≡ ok b)
        × (open_vault P b ≡ ok (reopened n))
        × IsSharedSound P s.doc s.data_key (act_all P acts (opened (reopened n) w₂))
  unfolding sealed
  reopen-IsSharedSound w w' s prf created cs honest n ran kept w₂ acts acted =
      let (sound, derives) =
        calls-Derives P output law full auth opts w w' s prf created cs honest in
      let i = rw ran at sound in
      let (b, written, read) = open_vault-marshal P json n.session.doc i.well_formed kept in
      let start : IsSharedSound P s.doc s.data_key (opened (reopened n) w₂) = record {
        sound = record {
          header = i.header;
          held = inl refl;
          well_formed = i.well_formed;
          secrets_open = i.secrets_open;
          keys_unwrap = i.keys_unwrap;
        };
        held = tt;
      } in
      (
        b,
        written,
        read,
        act_all-IsSharedSound P output s.doc s.data_key law full acts (opened (reopened n) w₂) acted
            start (rw ran at derives),
      )
