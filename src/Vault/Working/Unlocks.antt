-- ===== src/Vault/Working/Unlocks.antt =====
-- Unlocking with a working key that is enrolled.
use touchvault.Base.{
  Bool-cases, inl, inr, subst, sym, All, list_eq, contains, list_Eq, Bytes, true, some, none, List,
  [], ◌∷◌, ◌++◌, ◌≡◌, ◌≢◌, length, arith, refl, list_eq_iff, nat_Eq,
}
use touchvault.Errors.{ok}
use touchvault.Authenticator.{Authenticator, salt_len}
use touchvault.Platform.{Platform, NeverFails}
use touchvault.World.{World}
use touchvault.Sealed.Document.{SealedKey}
use touchvault.Sealed.Find.{find_key, find_key_in, credential_ids, uv_requirement}
use touchvault.Sealed.Parse.Valid.{credentials_of}
use touchvault.Crypto.Pure.{unwrap_data_key}
use touchvault.Vault.Options.{Options, Vault}
use touchvault.Vault.Open.{unlock}
use touchvault.Vault.Unlocking.{unlock_total, find_key-keyed}
use touchvault.Vault.Working.{IsWorkingKey}
use touchvault.Vault.Working.Enrolled.{working_answer}

find_key_in-contains :
    (ks : List SealedKey) (id : Bytes) {e : SealedKey}
    → find_key_in ks id ≡ some e
    → contains (credentials_of ks) id ≡ true
unfolding find_key_in
find_key_in-contains [] id h = absurd (ground arith)
find_key_in-contains (k ∷ ks) id {e} h =
    let rest : find_key_in ks id ≡ some e → contains (credentials_of ks) id ≡ true =
      find_key_in-contains ks id in
    ground (arith, rest)

-- A credential on the list of an entry that comes last, where none before it is of some kind.
pub contains-last :
    (Q : Bytes → Type 0) (ks : List SealedKey) (e : SealedKey) (id : Bytes)
    → All (λ k. ¬ Q k.credential_id) ks
    → contains (credentials_of (ks ++ (e ∷ []))) id ≡ true
    → Q id
    → id ≡ e.credential_id
contains-last Q [] e id none_there listed q = ground (arith, list_eq_iff e.credential_id id)
contains-last Q (k ∷ ks) e id (other, none_there) listed q =
    elim (Bool-cases (list_eq k.credential_id id)) [
      | inl same ↦ absurd (other (subst Q (sym ((list_eq_iff k.credential_id id).0 same)) q))
      | inr differ ↦ contains-last Q ks e id none_there (ground (arith)) q
    ]

-- A credential of a kind that no entry has is not found.
pub find_key_in-none :
    (Q : Bytes → Type 0) (ks : List SealedKey) (id : Bytes)
    → All (λ k. ¬ Q k.credential_id) ks
    → Q id
    → find_key_in ks id ≡ none
unfolding find_key_in
find_key_in-none Q [] id none_there q = refl
find_key_in-none Q (k ∷ ks) id (other, none_there) q =
    elim (Bool-cases (list_eq k.credential_id id)) [
      | inl same ↦ absurd (other (subst Q (sym ((list_eq_iff k.credential_id id).0 same)) q))
      | inr differ ↦ ground (arith, find_key_in-none Q ks id none_there q)
    ]

-- An entry that is new is found.
pub find_key_in-append :
    (ks : List SealedKey) (e : SealedKey)
    → find_key_in ks e.credential_id ≡ none
    → find_key_in (ks ++ (e ∷ [])) e.credential_id ≡ some e
unfolding find_key_in
find_key_in-append [] e h = ground (arith, list_eq_iff e.credential_id e.credential_id)
find_key_in-append (k ∷ ks) e h = ground (arith, find_key_in-append ks e)

module _ (P : Platform) (never : NeverFails P) (auth : Authenticator P.Outside) (opts : Options P)
    (working : IsWorkingKey P auth opts.roots) where
  -- With a credential that is enrolled and that the key holds, where no other one on the list is
  -- the key's.
  pub unlock_working :
      (v : Vault P) (w : World P) (id : Bytes) (entry : SealedKey) (data_key : Bytes)
      → working.holds w.outside v.doc.rpid id
      → ((other : Bytes)
          → contains (credentials_of v.doc.keys) other ≡ true
          → working.mine v.doc.rpid other
          → other ≡ id)
      → All (λ i. i ≢ []) (credentials_of v.doc.keys)
      → length v.doc.salt ≡ salt_len
      → v.doc.entropy_verified ≡ true
      → working.verified ≡ v.doc.user_verified
      → find_key v.doc id ≡ some entry
      → unwrap_data_key P.crypto v.doc entry (working.output v.doc.rpid id v.doc.salt) ≡ ok data_key
      → (unlock P v auth w).0 ≡ ok (record { doc = v.doc; opts = v.opts; data_key = data_key })
  unfolding find_key credential_ids
  unlock_working v w id entry data_key held alone has_ids full proven same found unwrapped =
      let (other, its, listed, answered) =
        working.derives v.doc.rpid (credential_ids v.doc) v.doc.salt (uv_requirement v.doc)
          w.outside id held (find_key_in-contains v.doc.keys id found) has_ids full in
      unlock_total P v auth w (working_answer P never auth opts working v.doc.rpid id v.doc.salt)
        entry data_key (find_key-keyed v.doc id found) proven
        (rw (← alone other listed its) answered) refl same found unwrapped
