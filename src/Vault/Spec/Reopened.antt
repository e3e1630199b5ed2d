-- ===== src/Vault/Spec/Reopened.antt =====
-- The store, through `Sealed`, `Open` and `Unlock`.
use touchvault.Base.{Bytes, Text, Bool, All, true, List, [], ◌≡◌, ◌≢◌, inr, arith, refl}
use touchvault.Errors.{ok}
use touchvault.Authenticator.{Authenticator, IsHmacSecret}
use touchvault.Platform.{Platform, IsFullRead}
use touchvault.Platform.Ciphers.{IsGcm}
use touchvault.Platform.Serializer.{IsJson, coerced_vault}
use touchvault.World.{World}
use touchvault.Vault.Options.{Options, Vault, Session}
use touchvault.Vault.Create.{create}
use touchvault.Vault.Created.{create_lem}
use touchvault.Vault.Open.{open_vault, unlock}
use touchvault.Vault.Session.{Machine, sealed, read_string}
use touchvault.Vault.Calls.{Call}
use touchvault.Vault.Calls.Sound.{IsSound}
use touchvault.Vault.Calls.Derived.{Honest, Derives}
use touchvault.Vault.Prf.{calls-Derives, answers-perform_all}
use touchvault.Vault.Calls.DataKey.{unlock-data_key}
use touchvault.Vault.Reopening.{open_vault-marshal, reopened}
use touchvault.Vault.Spec.{Store, empty_store, read_store, AllowedAll, answers}
use touchvault.Vault.Spec.Represents.{Represents}
use touchvault.Vault.Spec.Listed.{Lists, list_names-Lists}
use touchvault.Vault.Spec.Refines.{created-AllowedAll, answers-AllowedAll, read_represented}

-- The store, unlocked.
abbrev pub unlocked_store : Store → Store
unlocked_store a = record a { unlocked = true }

module _ (P : Platform) (output : Text → Bytes → Bytes → Bool → Bytes) (law : IsGcm P.crypto)
    (full : IsFullRead P) (json : IsJson P.json) (auth : Authenticator P.Outside)
    (opts : Options P) where
  unlocked-Represents :
      (s t : Session P) (v : Vault P) (m : Machine P) (a : Store) (auth' : Authenticator P.Outside)
      (w w' : World P)
      → IsHmacSecret output auth'
      → All (Derives P output s.doc s.data_key) m.session.doc.keys
      → s.data_key ≢ []
      → Represents P s.doc s.data_key m a
      → v.doc ≡ m.session.doc
      → unlock P v auth' w ≡ (ok t, w')
      → Represents P s.doc s.data_key (record { session = t; world = w' }) (unlocked_store a)
  unlocked-Represents s t v m a auth' w w' prf all keyed r same unlocked =
      let sound : IsSound P s.doc s.data_key
          (record { doc = v.doc; opts = v.opts; data_key = m.session.data_key }) =
        rw same (record {
          header = r.sound.header;
          held = r.sound.held;
          well_formed = r.sound.well_formed;
          secrets_open = r.sound.secrets_open;
          keys_unwrap = r.sound.keys_unwrap;
        }) in
      let (key, doc) =
        unlock-data_key P output s.doc s.data_key v auth' w w' t m.session.data_key prf sound
          (rw same all) unlocked in
      record {
        sound = record {
          header = rw doc sound.header;
          held = inr key;
          well_formed = rw doc sound.well_formed;
          secrets_open = rw doc sound.secrets_open;
          keys_unwrap = rw doc sound.keys_unwrap;
        };
        lock_state = ground (arith, key, keyed);
        shown = λ name. rw (doc, same) (r.shown name);
      }

  -- The store outlives the session. A session that `Create` returned is asked to do whatever calls,
  -- where the ciphers, the entropy source and JSON work as documented, every security key computes
  -- hmac-secret, and JSON keeps the texts of the document. `Sealed` then returns bytes, `Open` reads
  -- them, and a session is unlocked from them, with whatever such key and in whatever world. The
  -- answers of the calls are ones that a store allows which starts empty and unlocked; whatever
  -- calls the second session is asked to do, it answers as that same store allows once it is
  -- unlocked again, and in the end a name reads as it does in the store, and `Names` lists those
  -- that have a value.
  pub reopened_refine :
      (w w' : World P) (s : Session P) (cs : List (Call P))
      → IsHmacSecret output auth
      → All (Honest output) cs
      → create P auth opts w ≡ (ok s, w')
      → (n : Machine P) → (answers P cs (record { session = s; world = w' })).1 ≡ n
      → coerced_vault P.json n.session.doc ≡ n.session.doc
      → (auth' : Authenticator P.Outside) (w₂ w₃ : World P) (t : Session P)
      → IsHmacSecret output auth'
      → unlock P (reopened n) auth' w₂ ≡ (ok t, w₃)
      → (ds : List (Call P))
      → let again = answers P ds (record { session = t; world = w₃ }) in
        (b : Bytes) × (a : Store) × (c : Store) × ((sealed P n).0 ≡ ok b)
        × (open_vault P b ≡ ok (reopened n))
        × AllowedAll empty_store cs (answers P cs (record { session = s; world = w' })).0 a
        × AllowedAll (unlocked_store a) ds again.0 c
        × ((name : Text) → (read_string P name again.1).0 ≡ read_store c name)
        × Lists P again.1 c
  unfolding sealed
  reopened_refine w w' s cs prf honest created n ran kept auth' w₂ w₃ t prf' unlocked ds =
      let (_, _, _, _, _, _, _, _, _, _, _, _, _, _, _, size, _, _, _, _, _) =
        create_lem P law full auth opts w w' s created in
      let keyed : s.data_key ≢ [] = λ e. absurd (ground (arith, size, e)) in
      let (a, allowed, last) = created-AllowedAll P law full auth opts w w' s cs created in
      let r : Represents P s.doc s.data_key n a = rw ran at last in
      let (b, written, read) = open_vault-marshal P json n.session.doc r.sound.well_formed kept in
      let (_, derives) = calls-Derives P output law full auth opts w w' s prf created cs honest in
      let all =
        rw (← answers-perform_all P cs (record { session = s; world = w' }), ran) at derives in
      let start =
        unlocked-Represents s t (reopened n) n a auth' w₂ w₃ prf' all keyed r refl unlocked in
      let (c, allowed', end) =
        answers-AllowedAll P s.doc s.data_key law full size ds (record { session = t; world = w₃ })
          (unlocked_store a) start in
      (
        b,
        a,
        c,
        written,
        read,
        allowed,
        allowed',
        λ name. read_represented P s.doc s.data_key law full size name _ c end,
        list_names-Lists P s.doc s.data_key keyed _ c end,
      )
