-- ===== src/Vault/Shared.antt =====
-- vault.go: a `Vault` and the sessions that it handed out. `unlock` hands on the pointer to the
-- document, so every session of one `Vault` reads and writes one document, and has a data key of
-- its own. Each call is one step here, whichever session it is on; Vault.Race has calls that
-- overlap.
pub mod Sound
pub mod Visible
pub mod Reopened
use touchvault.Base.{nth, ℕ, zero, suc, Bytes, Done, Option, none, some, List, [], ◌∷◌, ◌++◌}
use touchvault.Errors.{Result, ok, err}
use touchvault.Effects.{M}
use touchvault.Authenticator.{Authenticator}
use touchvault.Platform.{Platform}
use touchvault.World.{World}
use touchvault.Sealed.Document.{SealedVault}
use touchvault.Vault.Options.{Options}
use touchvault.Vault.Open.{unlock}
use touchvault.Vault.Session.{Machine}
use touchvault.Vault.Calls.{Call, perform}

-- A vault, the data keys of its sessions in the order in which they were handed out, and the world.
pub record Shared (P : Platform) : Type 0 where
  pub doc : SealedVault
  pub opts : Options P
  pub data_keys : List Bytes
  pub world : World P

unfoldable pub set_nth {ℓ} : {A : Type ℓ} → ℕ → A → List A → List A
set_nth n a [] = []
set_nth zero a (x ∷ xs) = a ∷ xs
set_nth (suc n) a (x ∷ xs) = x ∷ set_nth n a xs

-- `Unlock` or `Administer` of the vault, or a call of a method of one of its sessions.
pub data Act (P : Platform) : Type 0 where
  administers : Authenticator P.Outside → Act P
  calls : ℕ → Call P → Act P

module _ (P : Platform) where
  -- The session with a data key, as its methods see it.
  abbrev pub machine : Shared P → Bytes → Machine P
  machine st data_key = record {
    session = record { doc = st.doc; opts = st.opts; data_key = data_key };
    world = st.world;
  }

  -- A session that is not there does nothing.
  unfoldable pub act : Act P → M (Shared P) Done
  act (administers auth) st =
      let (r, w) = unlock P (record { doc = st.doc; opts = st.opts }) auth st.world in
      elim r [
        | ok s ↦ (ok tt, record st { data_keys = st.data_keys ++ (s.data_key ∷ []); world = w })
        | err e ↦ (err e, record st { world = w })
      ]
  act (calls i c) st = elim (nth i st.data_keys) [
    | none ↦ (ok tt, st)
    | some data_key ↦
        let (r, m) = perform P c (machine st data_key) in
        (
          r,
          record st {
            doc = m.session.doc;
            data_keys = set_nth i m.session.data_key st.data_keys;
            world = m.world;
          },
        )
  ]

  -- The acts one after the other, whether they succeed or fail.
  unfoldable pub act_all : List (Act P) → Shared P → Shared P
  act_all [] st = st
  act_all (a ∷ acts) st = act_all acts (act a st).1
