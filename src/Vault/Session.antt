-- ===== src/Vault/Session.antt =====
-- vault.go: the methods of an unlocked vault, each on the session and the world that it runs in.
pub mod Reading
pub mod Closing
pub mod Writing
pub mod Locking
pub mod Enrolling
pub mod Removing
use touchvault.Base.{ℤ, Bytes, Text, Done, Bool, true, Option, none, some, List, [], ◌∷◌, ◌++◌, ℕ}
use touchvault.Base.{
  length, drop, is_empty, is_negative, int_eq, list_eq, nat_Eq, not, bool_ne, ◌==◌,
}
use touchvault.Base.{if◌then◌else◌}
use touchvault.Errors
use touchvault.Errors.{Result, ok, err, locked, no_such_secret, name_required, value_required}
use touchvault.Errors.{negative_slot, already_enrolled, no_such_slot, last_key}
use touchvault.Errors.{user_verification_mismatch}
use touchvault.Effects.{M, ◌>>=◌, ◌>>◌, pure, try, raise_if, or_raise, modify, gets}
use touchvault.Authenticator.{Authenticator}
use touchvault.Platform.{Platform}
use touchvault.World.{World}
use touchvault.Sealed.Document.{SealedKey, SealedSecret}
use touchvault.Sealed.Find.{find_key, find_secret, slot_occupied, uv_requirement}
use touchvault.Sealed.Listing.{SlotInfo, names, slots}
use touchvault.Sealed.Parse.{marshal}
use touchvault.Crypto.Pure.{open_secret, zero_bytes}
use touchvault.Crypto.Seal.{seal_secret, wrap_data_key}
use touchvault.Entropy.{verify_derivation_depends_on_salt}
use touchvault.Vault.Options.{Session, default_label}
use touchvault.Vault.Create.{enroll_and_derive}

pub record Machine (P : Platform) : Type 0 where
  pub session : Session P
  pub world : World P

-- `secretReader`: the buffer, how much of it was read (`none` after `Reset(nil)`), and whether
-- `once` has run.
pub record SecretReader : Type 0 where
  pub buf : Bytes
  pub offset : Option ℕ
  pub closed : Bool

abbrev pub new_reader : Bytes → SecretReader
new_reader plaintext = record { buf = plaintext; offset = some 0; closed = Bool.false }

-- `io.ReadAll` on a reader: what is unread, and the reader at its end.
unfoldable pub read_all : SecretReader → Bytes × SecretReader
read_all r = elim r.offset [
  | none ↦ ([], r)
  | some n ↦ (drop n r.buf, record r { offset = some (length r.buf) })
]

-- `(*secretReader).Close`
unfoldable pub close : SecretReader → SecretReader
unfolding zero_bytes
close r = if r.closed then r else record { buf = zero_bytes r.buf; offset = none; closed = true }

-- The loop of `Put`: the entry replaces the first of its name, or comes last.
unfoldable pub put_secret : SealedSecret → List SealedSecret → List SealedSecret
put_secret entry [] = entry ∷ []
put_secret entry (s ∷ ss) =
    if list_eq s.name entry.name then entry ∷ ss else s ∷ put_secret entry ss

-- The loop of `Delete`: the list without the first of that name, if there is one.
unfoldable pub delete_secret : Text → List SealedSecret → Option (List SealedSecret)
delete_secret name [] = none
delete_secret name (s ∷ ss) =
    let rest = delete_secret name ss in
    if list_eq s.name name then some ss else elim rest [ none ↦ none | some ss' ↦ some (s ∷ ss') ]

-- The loop of `removeKey`.
unfoldable pub keys_without : ℤ → List SealedKey → List SealedKey
keys_without slot [] = []
keys_without slot (k ∷ ks) =
    let rest = keys_without slot ks in if not (int_eq k.slot slot) then k ∷ rest else rest

abbrev pub is_enrolled : Option SealedKey → Bool
is_enrolled none = Bool.false
is_enrolled (some k) = true

abbrev pub has_one : List SealedKey → Bool
has_one ks = length ks == 1

module _ (P : Platform) where
  -- A call that changes the world and not the session.
  abbrev pub on_world : {A : Type 0} → M (World P) A → M (Machine P) A
  on_world m s = let (r, w) = m s.world in (r, record s { world = w })

  abbrev pub set_secrets : List SealedSecret → Machine P → Machine P
  set_secrets ss s = record s {
    session = record (s.session) { doc = record (s.session.doc) { secrets = ss } };
  }

  abbrev pub set_keys : List SealedKey → Machine P → Machine P
  set_keys ks s = record s {
    session = record (s.session) { doc = record (s.session.doc) { keys = ks } };
  }

  -- `key`
  unfoldable pub key : M (Machine P) Bytes
  key s = (if is_empty s.session.data_key then err locked else ok s.session.data_key, s)

  -- `Lock`
  unfoldable pub lock : M (Machine P) Done
  lock = modify λ s. record s { session = record (s.session) { data_key = [] } }

  -- `Names`
  unfoldable pub list_names : M (Machine P) (List Text)
  list_names = gets λ s. names s.session.doc

  -- `Slots`
  unfoldable pub list_slots : M (Machine P) (List SlotInfo)
  list_slots = gets λ s. slots s.session.doc

  -- `Open`
  unfoldable pub open_name : Text → M (Machine P) SecretReader
  open_name name = do
    data_key ← key
    doc ← gets λ s. s.session.doc
    entry ← or_raise (find_secret doc name) no_such_secret
    plaintext ← try (open_secret P.crypto doc data_key entry)
    pure (new_reader plaintext)

  -- `ReadString`
  unfoldable pub read_string : Text → M (Machine P) Text
  read_string name = do r ← open_name name; pure (read_all r).0

  -- `Put`. The reader is what reading it to its end gives; `none` is the nil reader.
  unfoldable pub put : Text → Option (Result Bytes) → M (Machine P) Done
  put name secret = do
    data_key ← key
    raise_if (is_empty name) name_required
    reader ← or_raise secret value_required
    plaintext ← try reader
    doc ← gets λ s. s.session.doc
    entry ← on_world (seal_secret P doc data_key name plaintext)
    modify (set_secrets (put_secret entry doc.secrets))

  -- `Delete`
  unfoldable pub delete : Text → M (Machine P) Done
  delete name = do
    _ ← key
    doc ← gets λ s. s.session.doc
    kept ← or_raise (delete_secret name doc.secrets) no_such_secret
    modify (set_secrets kept)

  -- `EnrollKey`
  unfoldable pub enroll_key : Authenticator P.Outside → ℤ → Text → M (Machine P) Done
  enroll_key auth slot label = do
    data_key ← key
    raise_if (is_negative slot) negative_slot
    doc ← gets λ s. s.session.doc
    opts ← gets λ s. s.session.opts
    raise_if (slot_occupied doc slot) Errors.slot_occupied
    let label' = if is_empty label then default_label else label
    let uv = uv_requirement doc
    (cred, answer) ← on_world (enroll_and_derive P auth doc opts uv)
    raise_if (is_enrolled (find_key doc cred.credential_id)) already_enrolled
    raise_if (bool_ne answer.user_verified doc.user_verified) user_verification_mismatch
    on_world (
        verify_derivation_depends_on_salt P auth doc.rpid cred.credential_id doc.salt answer.secret
          uv answer.user_verified)
    entry ← on_world (wrap_data_key P doc data_key cred.credential_id answer.secret slot label')
    modify (set_keys (doc.keys ++ (entry ∷ [])))

  -- `removeKey`
  unfoldable pub remove_entry : ℤ → M (Machine P) Done
  remove_entry slot = modify λ s. set_keys (keys_without slot s.session.doc.keys) s

  -- `RemoveKey`
  unfoldable pub remove_key : ℤ → M (Machine P) Done
  remove_key slot = do
    _ ← key
    doc ← gets λ s. s.session.doc
    raise_if (not (slot_occupied doc slot)) no_such_slot
    raise_if (has_one doc.keys) last_key
    remove_entry slot

  -- `ForceRemoveKey`
  unfoldable pub force_remove_key : ℤ → M (Machine P) Done
  force_remove_key slot = do
    _ ← key
    doc ← gets λ s. s.session.doc
    raise_if (not (slot_occupied doc slot)) no_such_slot
    remove_entry slot

  -- `Sealed`
  unfoldable pub sealed : M (Machine P) Bytes
  sealed = do doc ← gets λ s. s.session.doc; try (marshal P.json doc)
