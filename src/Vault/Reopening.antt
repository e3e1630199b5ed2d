-- ===== src/Vault/Reopening.antt =====
-- From `Create` through any calls to `Sealed`, and back through `Open` and `Unlock`.
use touchvault.Base.{Bytes, Text, [], some, none, true, false, ◌≡◌, arith, refl, sym}
use touchvault.Base.{All, subst, inr, is_empty}
use touchvault.Errors.{ok}
use touchvault.Authenticator.{Authenticator, DeriveResult}
use touchvault.Platform.{Platform, IsFullRead}
use touchvault.Platform.Ciphers.{IsGcm}
use touchvault.Platform.Serializer.{IsJson, coerced_vault}
use touchvault.World.{World}
use touchvault.Sealed.Document.{SealedVault, SealedKey}
use touchvault.Sealed.Find.{find_key}
use touchvault.Sealed.Parse.{marshal}
use touchvault.Sealed.Parse.Valid.{IsWellFormed}
use touchvault.Sealed.Parse.Exact.{parse_sealed_iff}
use touchvault.Crypto.Pure.{unwrap_data_key}
use touchvault.Vault.Options.{Options, Vault, Session}
use touchvault.Vault.Create.{create}
use touchvault.Vault.Created.{create_lem}
use touchvault.Vault.Open.{open_with, open_vault, unlock, unlock_request}
use touchvault.Vault.Unlocking.{unlock_total, find_key-keyed}
use touchvault.Vault.Session.{Machine, sealed, read_string}
use touchvault.Vault.Session.Reading.{read_string_lem}
use touchvault.Vault.Calls.{Reach}
use touchvault.Vault.Calls.Sound.{IsSound, Opens, Unwraps, held_unlocked}
use touchvault.Vault.Calls.Preserved.{Reach-IsSound}

-- The options of a plain `Open`, with the RP ID of the document.
abbrev pub plain : (P : Platform) → Text → Options P
plain P rpid = record { rpid = rpid; rp_name = []; roots = none; label = [] }

-- The vault that `Open` reads from what a session sealed.
abbrev pub reopened : {P : Platform} → Machine P → Vault P
reopened {P} n = record { doc = n.session.doc; opts = plain P n.session.doc.rpid }

module _ (P : Platform) (law : IsGcm P.crypto) (full : IsFullRead P) where
  -- A session that `Create` returns is sound.
  pub create-IsSound :
      (auth : Authenticator P.Outside) (opts : Options P) (w w' : World P) (s : Session P)
      → create P auth opts w ≡ (ok s, w')
      → IsSound P s.doc s.data_key s
  create-IsSound auth opts w w' s created =
      let (
        cred, answer, entry, _, _, valid, _, _, _, _, empty, one, _, _, unwraps, _, _, _, _, _, _,
      ) =
        create_lem P law full auth opts w w' s created in
      record {
        header = refl;
        held = inr refl;
        well_formed = valid;
        secrets_open = subst (λ ss. All (Opens P.crypto s.doc s.data_key) ss) (sym empty) tt;
        keys_unwrap =
            subst (λ ks. All (Unwraps P.crypto s.doc s.data_key) ks) (sym one)
              ((answer.secret, unwraps), tt);
      }

module _ (P : Platform) (json : IsJson P.json) where
  -- A well-formed document whose texts JSON keeps is read back as it was.
  pub open_vault-marshal :
      (v : SealedVault)
      → IsWellFormed v
      → coerced_vault P.json v ≡ v
      → (b : Bytes) × (marshal P.json v ≡ ok b)
        × (open_vault P b ≡ ok (record { doc = v; opts = plain P v.rpid }))
  unfolding marshal open_vault open_with
  open_vault-marshal v valid kept =
      let (b, written, read) = json.unmarshal-marshal v in
      let parsed = (parse_sealed_iff P.json b v).1 (rw kept at read, valid) in
      (b, ground arith, rw parsed refl)

module _ (P : Platform) (law : IsGcm P.crypto) (full : IsFullRead P) (json : IsJson P.json)
    (opts : Options P) (auth : Authenticator P.Outside) where
  -- A session that `Create` made, after any calls of its methods, is sealed and had back, where the
  -- ciphers, the entropy source and JSON work as documented, it is unlocked, and JSON keeps its
  -- texts. `Sealed` returns bytes, `Open` reads them, and an authenticator that answers with a
  -- touch under the verification that was recorded, for a credential that is enrolled, and with an
  -- output that unwraps the data key of `Create`, unlocks them. Every name then reads as it did
  -- before.
  pub reopen :
      (w w' : World P) (s : Session P)
      → create P auth opts w ≡ (ok s, w')
      → (n : Machine P) → Reach (record { session = s; world = w' }) n
      → is_empty n.session.data_key ≡ false
      → coerced_vault P.json n.session.doc ≡ n.session.doc
      → (auth' : Authenticator P.Outside) (answer : DeriveResult) (entry : SealedKey) (w₂ : World P)
      → (auth'.derive (unlock_request n.session.doc) w₂.outside).0 ≡ ok answer
      → answer.user_present ≡ true
      → answer.user_verified ≡ n.session.doc.user_verified
      → find_key n.session.doc answer.credential_id ≡ some entry
      → unwrap_data_key P.crypto n.session.doc entry answer.secret ≡ ok s.data_key
      → (b : Bytes) × (v : Vault P) × (t : Session P) × ((sealed P n).0 ≡ ok b)
        × (open_vault P b ≡ ok v)
        × ((unlock P v auth' w₂).0 ≡ ok t)
        × ((name : Text)
            → (read_string P name (record { session = t; world = (unlock P v auth' w₂).1 })).0
              ≡ (read_string P name n).0)
  unfolding sealed
  reopen w w' s created n reach unlocked kept auth' answer entry w₂ answered present same found
        unwrapped =
      let i =
        Reach-IsSound P s.doc s.data_key law full
          (create-IsSound P law full auth opts w w' s created) reach in
      let (_, _, _, _, _, _, _, proven, _, _, _, _, _, _, _, _, _, _, _, _, _) =
        create_lem P law full auth opts w w' s created in
      let held = held_unlocked P s.doc s.data_key n.session i unlocked in
      let (b, written, opened) = open_vault-marshal P json n.session.doc i.well_formed kept in
      let v : Vault P = record { doc = n.session.doc; opts = plain P n.session.doc.rpid } in
      let t : Session P = record { doc = v.doc; opts = v.opts; data_key = s.data_key } in
      let unlocks =
        unlock_total P v auth' w₂ answer entry s.data_key
          (find_key-keyed n.session.doc answer.credential_id found)
          (ground (arith, i.header, proven)) answered present same found unwrapped in
      (
        b,
        v,
        t,
        written,
        opened,
        unlocks,
        λ name. ground (
          arith,
          held,
          unlocks,
          read_string_lem P name (record { session = t; world = (unlock P v auth' w₂).1 }),
          read_string_lem P name n,
        ),
      )
