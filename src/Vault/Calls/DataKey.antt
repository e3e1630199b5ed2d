-- ===== src/Vault/Calls/DataKey.antt =====
-- The data key that an unlock gives.
use touchvault.Base.{
  Text, Bool, list_eq_iff, Bytes, List, [], ◌∷◌, some, ◌≡◌, inl, inr, All, arith, subst, sym, ◌∙◌,
  list_eq, nat_Eq, Bool-cases,
}
use touchvault.Errors.{ok}
use touchvault.Authenticator.{Authenticator, IsHmacSecret}
use touchvault.Platform.{Platform}
use touchvault.World.{World}
use touchvault.Sealed.Document.{SealedVault, SealedKey}
use touchvault.Sealed.Find.{find_key, find_key_in}
use touchvault.Crypto.Pure.{unwrap_data_key}
use touchvault.Vault.Options.{Vault, Session}
use touchvault.Vault.Open.{unlock, unlock_request}
use touchvault.Vault.Unlocking.{unlock-eq-ok}
use touchvault.Vault.Calls.Derived.{Derives}
use touchvault.Vault.Calls.Sound.{IsSound, unwrap_data_key-header}

find_key_in-All :
    (Q : SealedKey → Type 0) (ks : List SealedKey) (id : Bytes) {k : SealedKey}
    → All Q ks
    → find_key_in ks id ≡ some k
    → Q k
unfolding find_key_in
find_key_in-All Q [] id h e = absurd (ground arith)
find_key_in-All Q (j ∷ ks) id {k} h e = elim (Bool-cases (list_eq j.credential_id id)) [
  | inl here ↦ subst Q (ground arith) h.0
  | inr later ↦ find_key_in-All Q ks id h.1 (ground arith)
]

find_key_in-id :
    (ks : List SealedKey) (id : Bytes) {k : SealedKey}
    → find_key_in ks id ≡ some k
    → k.credential_id ≡ id
unfolding find_key_in
find_key_in-id [] id e = absurd (ground arith)
find_key_in-id (j ∷ ks) id {k} e = elim (Bool-cases (list_eq j.credential_id id)) [
  | inl here ↦ ground (arith, list_eq_iff j.credential_id id)
  | inr later ↦ find_key_in-id ks id {k = k} (ground arith)
]

module _ (P : Platform) (output : Text → Bytes → Bytes → Bool → Bytes) (h : SealedVault)
    (data_key : Bytes) where
  -- A key that computes hmac-secret unlocks a document, of which a session with whatever data key
  -- is sound and whose keys unwrap the data key with their outputs, to the data key.
  pub unlock-data_key :
      (v : Vault P) (auth : Authenticator P.Outside) (w w' : World P) (s : Session P) (d : Bytes)
      → IsHmacSecret output auth
      → IsSound P h data_key (record { doc = v.doc; opts = v.opts; data_key = d })
      → All (Derives P output h data_key) v.doc.keys
      → unlock P v auth w ≡ (ok s, w')
      → (s.data_key ≡ data_key) × (s.doc ≡ v.doc)
  unfolding find_key
  unlock-data_key v auth w w' s d prf i all unlocked =
      let session : Session P = record { doc = v.doc; opts = v.opts; data_key = d } in
      let (answer, entry, _, answered, _, same_uv, found, unwrapped, same, _) =
        unlock-eq-ok P v auth w w' s unlocked in
      let derives =
        find_key_in-All (Derives P output h data_key) v.doc.keys answer.credential_id all found in
      let secret : answer.secret ≡ output h.rpid entry.credential_id h.salt h.user_verified =
        ground (
          arith,
          i.header,
          same_uv,
          find_key_in-id v.doc.keys answer.credential_id found,
          prf.outputs (unlock_request v.doc) w.outside answer answered,
        ) in
      let held : unwrap_data_key P.crypto h entry answer.secret ≡ ok s.data_key =
        sym (unwrap_data_key-header P h data_key session entry answer.secret i) ∙ unwrapped in
      (ground (arith, rw secret at held, derives), same)
