-- ===== src/Vault/Shared/Sound.antt =====
-- What holds of a vault and its sessions in every state that they lead to.
use touchvault.Base.{
  Text, Bool, ℕ, zero, suc, Bytes, List, [], ◌∷◌, ◌++◌, ◌≡◌, ◌⊎◌, inl, inr, All, All-append, arith,
  refl, subst, sym, Option-cases, nat_Eq, nth, nth-All,
}
use touchvault.Effects.Runs.{Run-cases}
use touchvault.Authenticator.{Authenticator, IsHmacSecret}
use touchvault.Platform.{Platform, IsFullRead}
use touchvault.Platform.Ciphers.{IsGcm}
use touchvault.Sealed.Document.{SealedVault}
use touchvault.Vault.Options.{Vault}
use touchvault.Vault.Open.{unlock}
use touchvault.Vault.Session.{Machine}
use touchvault.Vault.Calls.{Call, perform}
use touchvault.Vault.Calls.Sound.{IsSound}
use touchvault.Vault.Calls.Derived.{Honest, Derives, perform-Derives}
use touchvault.Vault.Calls.Preserved.{perform-IsSound}
use touchvault.Vault.Shared.{Shared, set_nth, Act, administers, calls, machine, act, act_all}
use touchvault.Vault.Calls.DataKey.{unlock-data_key}

-- A data key that is forgotten, or is the one.
abbrev pub Held : Bytes → Bytes → Type 0
Held data_key d = (d ≡ []) ⊎ (d ≡ data_key)

-- The document is sound, and every session is locked or holds the data key.
pub record IsSharedSound (P : Platform) (h : SealedVault) (data_key : Bytes) (st : Shared P)
    : Type 0 where
  pub sound : IsSound P h data_key (machine P st []).session
  pub held : All (Held data_key) st.data_keys

set_nth-All {ℓ κ} :
    {A : Type ℓ} (Q : A → Type κ) (n : ℕ) (a : A) (xs : List A)
    → All Q xs
    → Q a
    → All Q (set_nth n a xs)
unfolding set_nth
set_nth-All Q n a [] h q = tt
set_nth-All Q zero a (x ∷ xs) h q = (q, h.1)
set_nth-All Q (suc n) a (x ∷ xs) h q = (h.0, set_nth-All Q n a xs h.1 q)

-- The authenticator of an act, where it has one, computes hmac-secret.
abbrev pub HonestAct : {P : Platform} → (Text → Bytes → Bytes → Bool → Bytes) → Act P → Type 0
HonestAct output (administers auth) = IsHmacSecret output auth
HonestAct output (calls n c) = Honest output c

module _ (P : Platform) (output : Text → Bytes → Bytes → Bool → Bytes) (h : SealedVault)
    (data_key : Bytes) (law : IsGcm P.crypto) (full : IsFullRead P) where
  -- The document is sound, every session is locked or holds the data key, and every key unwraps it
  -- with its output.
  abbrev Kept : Shared P → Type 0
  Kept st = IsSharedSound P h data_key st × All (Derives P output h data_key) st.doc.keys

  -- A session of a sound vault, with a data key that is forgotten or is the one.
  machine-IsSound :
      (st : Shared P) (d : Bytes)
      → IsSharedSound P h data_key st
      → Held data_key d
      → IsSound P h data_key (machine P st d).session
  machine-IsSound st d i held = record {
    header = i.sound.header;
    held = held;
    well_formed = i.sound.well_formed;
    secrets_open = i.sound.secrets_open;
    keys_unwrap = i.sound.keys_unwrap;
  }

  administers-Kept :
      (auth : Authenticator P.Outside) (st : Shared P)
      → IsHmacSecret output auth
      → Kept st
      → Kept (act P (administers auth) st).1
  unfolding act
  administers-Kept auth st prf (i, all) =
      let v : Vault P = record { doc = st.doc; opts = st.opts } in
      let forgotten = machine-IsSound st [] i (inl refl) in
      elim (Run-cases (unlock P v auth st.world)) [
        | inr (e, w, failed) ↦
            let after : (act P (administers auth) st).1 ≡ record st { world = w } = ground arith in
            subst Kept (sym after) (record { sound = forgotten; held = i.held }, all)
        | inl (s, w, unlocked) ↦
            let (same, _) =
              unlock-data_key P output h data_key v auth st.world w s [] prf forgotten all
                unlocked in
            let after : (act P (administers auth) st).1
                ≡ record st { data_keys = st.data_keys ++ (s.data_key ∷ []); world = w } =
              ground arith in
            subst Kept (sym after) (
              record {
                sound = forgotten;
                held =
                    All-append (Held data_key) st.data_keys (s.data_key ∷ []) i.held (inr same, tt);
              },
              all,
            )
      ]

  -- A call through one session, where that session is there.
  abbrev after_call : ℕ → Machine P → Shared P → Shared P
  after_call n m st = record st {
    doc = m.session.doc;
    data_keys = set_nth n m.session.data_key st.data_keys;
    world = m.world;
  }

  calls-Kept :
      (n : ℕ) (c : Call P) (st : Shared P)
      → Honest output c
      → Kept st
      → Kept (act P (calls n c) st).1
  unfolding act
  calls-Kept n c st honest (i, all) = elim (Option-cases (nth n st.data_keys)) [
    | inl missing ↦
        let after : (act P (calls n c) st).1 ≡ st = ground arith in subst Kept (sym after) (i, all)
    | inr (d, found) ↦
        let m = (perform P c (machine P st d)).1 in
        let before = machine-IsSound st d i (nth-All (Held data_key) n st.data_keys i.held found) in
        let next = perform-IsSound P h data_key law full (machine P st d) c before in
        let derives =
          perform-Derives P output h data_key law full (machine P st d) c honest before all in
        let after : (act P (calls n c) st).1 ≡ after_call n m st = ground arith in
        subst Kept (sym after) (
          record {
            sound = record {
              header = next.header;
              held = inl refl;
              well_formed = next.well_formed;
              secrets_open = next.secrets_open;
              keys_unwrap = next.keys_unwrap;
            };
            held = set_nth-All (Held data_key) n m.session.data_key st.data_keys i.held next.held;
          },
          derives,
        )
  ]

  -- Where the ciphers and the entropy source work as documented, and every security key computes
  -- hmac-secret: whatever a vault and the sessions that it handed out are asked to do, in whatever
  -- order, the one document stays well formed with its header, every secret in it opens under the
  -- data key and every key in it unwraps the data key, and every session is locked or holds that
  -- same data key.
  pub act_all-IsSharedSound :
      (acts : List (Act P)) (st : Shared P)
      → All (HonestAct output) acts
      → IsSharedSound P h data_key st
      → All (Derives P output h data_key) st.doc.keys
      → IsSharedSound P h data_key (act_all P acts st)
  unfolding act_all
  act_all-IsSharedSound [] st honest i all = i
  act_all-IsSharedSound (administers auth ∷ acts) st (prf, honest) i all =
      let (j, still) = administers-Kept auth st prf (i, all) in
      act_all-IsSharedSound acts (act P (administers auth) st).1 honest j still
  act_all-IsSharedSound (calls n c ∷ acts) st (prf, honest) i all =
      let (j, still) = calls-Kept n c st prf (i, all) in
      act_all-IsSharedSound acts (act P (calls n c) st).1 honest j still
