-- ===== src/Vault/Steps.antt =====
-- vault.go: the methods of a session between `s.mu.Lock()` and the return, as the steps in which
-- they read the session, call what is outside of it, and write it. A step reads the session as it
-- is then, whoever has written it.
pub mod Alone
use touchvault.Base.{ℤ, Bytes, Text, Done, Bool, Option, none, some, List, [], ◌∷◌, ◌++◌, ℕ}
use touchvault.Base.{zero, suc, is_empty, is_negative, list_eq, nat_Eq, not, bool_ne}
use touchvault.Base.{if◌then◌else◌}
use touchvault.Errors
use touchvault.Errors.{
  Result, locked, no_such_secret, name_required, value_required, negative_slot, already_enrolled,
  no_such_slot, last_key, user_verification_mismatch,
}
use touchvault.Effects.Programs.{
  Prog, ◌>>=◌, ◌>>◌, atomic, gets, modify, pure, or_raise, raise_if, try,
}
use touchvault.Authenticator.{Authenticator}
use touchvault.Platform.{Platform}
use touchvault.World.{World}
use touchvault.Sealed.Document.{SealedVault, SealedSecret}
use touchvault.Sealed.Find.{find_key, find_secret, slot_occupied, uv_requirement}
use touchvault.Sealed.Listing.{SlotInfo, names, slots}
use touchvault.Sealed.Parse.{marshal}
use touchvault.Crypto.Pure.{open_secret, zero_bytes}
use touchvault.Crypto.Seal.{seal_secret, wrap_data_key}
use touchvault.Entropy.{verify_derivation_depends_on_salt}
use touchvault.Vault.Options.{Session, default_label}
use touchvault.Vault.Create.{enroll_and_derive}
use touchvault.Vault.Session.{
  Machine, SecretReader, new_reader, read_all, key, keys_without, is_enrolled, has_one, on_world,
  set_secrets, set_keys,
}

-- The index at which the loops of `Put` and `Delete` stop.
unfoldable pub index_of : Text → List SealedSecret → Option ℕ
index_of name [] = none
index_of name (s ∷ ss) =
    let rest = index_of name ss in
    if list_eq s.name name then some 0 else elim rest [ none ↦ none | some i ↦ some (suc i) ]

-- `s.doc.Secrets[i] = entry`
unfoldable pub set_at : ℕ → SealedSecret → List SealedSecret → List SealedSecret
set_at i entry [] = []
set_at zero entry (s ∷ ss) = entry ∷ ss
set_at (suc i) entry (s ∷ ss) = s ∷ set_at i entry ss

-- `append(s.doc.Secrets[:i], s.doc.Secrets[i+1:]...)`
unfoldable pub remove_at : ℕ → List SealedSecret → List SealedSecret
remove_at i [] = []
remove_at zero (s ∷ ss) = ss
remove_at (suc i) (s ∷ ss) = s ∷ remove_at i ss

unfoldable pub store_entry : Option ℕ → SealedSecret → List SealedSecret → List SealedSecret
store_entry none entry ss = ss ++ (entry ∷ [])
store_entry (some i) entry ss = set_at i entry ss

module _ (P : Platform) where
  abbrev pub document : Prog (Machine P) SealedVault
  document = gets λ s. s.session.doc

  abbrev pub key_step : Prog (Machine P) Bytes
  key_step = atomic (key P)

  abbrev set_data_key : Bytes → Machine P → Machine P
  set_data_key k s = record s { session = record (s.session) { data_key = k } }

  -- `Lock`: the bytes of the key are overwritten, and then it is dropped.
  unfoldable pub lock_steps : Prog (Machine P) Done
  unfolding ◌>>=◌ ◌>>◌
  lock_steps = do
    modify (λ s. set_data_key (zero_bytes s.session.data_key) s)
    modify (set_data_key [])

  -- `Names`
  unfoldable pub names_steps : Prog (Machine P) (List Text)
  names_steps = gets λ s. names s.session.doc

  -- `Slots`
  unfoldable pub slots_steps : Prog (Machine P) (List SlotInfo)
  slots_steps = gets λ s. slots s.session.doc

  -- `Sealed`
  unfoldable pub sealed_steps : Prog (Machine P) Bytes
  unfolding ◌>>=◌
  sealed_steps = do doc ← document; try (marshal P.json doc)

  -- `Open`
  unfoldable pub open_steps : Text → Prog (Machine P) SecretReader
  unfolding ◌>>=◌
  open_steps name = do
    data_key ← key_step
    doc ← document
    entry ← or_raise (find_secret doc name) no_such_secret
    doc' ← document
    plaintext ← try (open_secret P.crypto doc' data_key entry)
    pure (new_reader plaintext)

  -- `Put`: the entry is sealed, the loop looks for its place, and it is written there.
  unfoldable pub put_steps : Text → Option (Result Bytes) → Prog (Machine P) Done
  unfolding ◌>>=◌ ◌>>◌
  put_steps name secret = do
    data_key ← key_step
    raise_if (is_empty name) name_required
    reader ← or_raise secret value_required
    plaintext ← try reader
    doc ← document
    entry ← atomic (on_world P (seal_secret P doc data_key name plaintext))
    at ← gets λ s. index_of name s.session.doc.secrets
    modify λ s. set_secrets P (store_entry at entry s.session.doc.secrets) s

  -- `Delete`
  unfoldable pub delete_steps : Text → Prog (Machine P) Done
  unfolding ◌>>=◌ ◌>>◌
  delete_steps name = do
    _ ← key_step
    doc ← document
    i ← or_raise (index_of name doc.secrets) no_such_secret
    modify λ s. set_secrets P (remove_at i s.session.doc.secrets) s

  -- `EnrollKey` after its checks of the arguments.
  unfoldable pub enrolling_steps :
      Bytes → Authenticator P.Outside → ℤ → Text → Prog (Machine P) Done
  unfolding ◌>>=◌ ◌>>◌
  enrolling_steps data_key auth slot label = do
    let label' = if is_empty label then default_label else label
    uv ← gets λ s. uv_requirement s.session.doc
    doc ← document
    opts ← gets λ s. s.session.opts
    (cred, answer) ← atomic (on_world P (enroll_and_derive P auth doc opts uv))
    found ← gets λ s. find_key s.session.doc cred.credential_id
    raise_if (is_enrolled found) already_enrolled
    uv_now ← gets λ s. s.session.doc.user_verified
    raise_if (bool_ne answer.user_verified uv_now) user_verification_mismatch
    gate ← document
    atomic (
        on_world P (
          verify_derivation_depends_on_salt P auth gate.rpid cred.credential_id gate.salt
            answer.secret uv answer.user_verified))
    doc' ← document
    entry ←
        atomic
          (on_world P (wrap_data_key P doc' data_key cred.credential_id answer.secret slot label'))
    modify λ s. set_keys P (s.session.doc.keys ++ (entry ∷ [])) s

  -- `EnrollKey`
  unfoldable pub enroll_steps : Authenticator P.Outside → ℤ → Text → Prog (Machine P) Done
  unfolding ◌>>=◌ ◌>>◌
  enroll_steps auth slot label = do
    data_key ← key_step
    raise_if (is_negative slot) negative_slot
    doc ← document
    raise_if (slot_occupied doc slot) Errors.slot_occupied
    enrolling_steps data_key auth slot label

  -- `removeKey`: the entries that are kept are collected, and then written.
  unfoldable pub remove_entry_steps : ℤ → Prog (Machine P) Done
  unfolding ◌>>=◌
  remove_entry_steps slot = do
    kept ← gets λ s. keys_without slot s.session.doc.keys
    modify (set_keys P kept)

  -- `RemoveKey`
  unfoldable pub remove_steps : ℤ → Prog (Machine P) Done
  unfolding ◌>>=◌ ◌>>◌
  remove_steps slot = do
    _ ← key_step
    doc ← document
    raise_if (not (slot_occupied doc slot)) no_such_slot
    doc' ← document
    raise_if (has_one doc'.keys) last_key
    remove_entry_steps slot

  -- `ForceRemoveKey`
  unfoldable pub force_remove_steps : ℤ → Prog (Machine P) Done
  unfolding ◌>>=◌ ◌>>◌
  force_remove_steps slot = do
    _ ← key_step
    doc ← document
    raise_if (not (slot_occupied doc slot)) no_such_slot
    remove_entry_steps slot
