-- ===== src/Vault/Session/Removing.antt =====
-- What `RemoveKey` and `ForceRemoveKey` change.
use touchvault.Base.{ℤ, Bytes, true, false, Option, none, some, List, [], ◌∷◌}
use touchvault.Base.{◌≡◌, ◌≢◌, ◌+◌, length, arith, int_eq, int_eq_iff, list_eq_iff}
use touchvault.Base.{All, Distinct, Bool-cases, Option-cases, inl, inr, refl, if◌then◌else◌}
use touchvault.Base.{nat_Eq}
use touchvault.Errors.{ok}
use touchvault.Platform.{Platform}
use touchvault.Sealed.Document.{SealedKey}
use touchvault.Sealed.Find.{find_key_in, slot_in, find_key, slot_occupied}
use touchvault.Sealed.Parse.Valid.{slots_of, credentials_of}
use touchvault.Vault.Session.{Machine, key, keys_without, remove_key, remove_entry}

slot_in-keys_without :
    (slot other : ℤ) (ks : List SealedKey)
    → slot_in (keys_without slot ks) other ≡ (if int_eq slot other then false else slot_in ks other)
unfolding slot_in keys_without
slot_in-keys_without slot other [] = ground arith
slot_in-keys_without slot other (k ∷ ks) = ground (
  arith,
  int_eq_iff slot other,
  int_eq_iff k.slot other,
  int_eq_iff k.slot slot,
  slot_in-keys_without slot other ks,
)

keys_without_absent :
    (slot : ℤ) (ks : List SealedKey) → All (λ s. slot ≢ s) (slots_of ks) → keys_without slot ks ≡ ks
unfolding keys_without
keys_without_absent slot [] h = refl
keys_without_absent slot (k ∷ ks) h =
    ground (arith, int_eq_iff k.slot slot, keys_without_absent slot ks h.1)

-- One entry goes, where the slots differ and the slot is occupied.
length-keys_without :
    (slot : ℤ) (ks : List SealedKey)
    → Distinct (slots_of ks)
    → slot_in ks slot ≡ true
    → length (keys_without slot ks) + 1 ≡ length ks
unfolding keys_without slot_in
length-keys_without slot [] d h = absurd (ground arith)
length-keys_without slot (k ∷ ks) d h = elim (Bool-cases (int_eq k.slot slot)) [
  | inl same ↦ ground (arith, int_eq_iff k.slot slot, keys_without_absent k.slot ks d.0)
  | inr differ ↦ ground (arith, length-keys_without slot ks d.1)
]

find_key_absent :
    (id : Bytes) (ks : List SealedKey)
    → All (λ c. id ≢ c) (credentials_of ks)
    → find_key_in ks id ≡ none
unfolding find_key_in
find_key_absent id [] h = refl
find_key_absent id (k ∷ ks) h =
    ground (arith, list_eq_iff k.credential_id id, find_key_absent id ks h.1)

-- What a lookup finds, unless it stands in the slot.
abbrev pub unless_in : ℤ → Option SealedKey → Option SealedKey
unless_in slot none = none
unless_in slot (some k) = if int_eq k.slot slot then none else some k

find_key_in-keys_without :
    (slot : ℤ) (id : Bytes) (ks : List SealedKey)
    → Distinct (credentials_of ks)
    → find_key_in (keys_without slot ks) id ≡ unless_in slot (find_key_in ks id)
unfolding keys_without find_key_in
find_key_in-keys_without slot id [] d = refl
find_key_in-keys_without slot id (k ∷ ks) d = elim (Option-cases (find_key_in ks id)) [
  | inl missing ↦
      ground (arith, list_eq_iff k.credential_id id, find_key_in-keys_without slot id ks d.1)
  | inr (j, found) ↦ ground (
    arith,
    list_eq_iff k.credential_id id,
    find_key_absent k.credential_id ks d.0,
    find_key_in-keys_without slot id ks d.1,
  )
]

module _ (P : Platform) where
  -- `RemoveKey` in a document whose slots and credential IDs differ: what it did when it succeeded.
  -- The slot is free, every other slot is as it was, a key is left, and a credential is found as
  -- before unless its entry stood in that slot. The secrets and the data key are kept.
  pub remove_key-eq-ok :
      (slot other : ℤ) (id : Bytes) (m m' : Machine P)
      → Distinct (slots_of m.session.doc.keys)
      → Distinct (credentials_of m.session.doc.keys)
      → remove_key P slot m ≡ (ok tt, m')
      → (slot_occupied m.session.doc slot ≡ true)
        × (m'.session.doc.keys ≢ [])
        × (slot_occupied m'.session.doc other
            ≡ (if int_eq slot other then false else slot_occupied m.session.doc other))
        × (find_key m'.session.doc id ≡ unless_in slot (find_key m.session.doc id))
        × (m'.session.doc.secrets ≡ m.session.doc.secrets)
        × (m'.session.data_key ≡ m.session.data_key)
  unfolding remove_key remove_entry key slot_occupied find_key
  remove_key-eq-ok slot other id m m' slots creds h = ground (
    arith,
    slot_in-keys_without slot other m.session.doc.keys,
    length-keys_without slot m.session.doc.keys slots,
    find_key_in-keys_without slot id m.session.doc.keys creds,
  )
