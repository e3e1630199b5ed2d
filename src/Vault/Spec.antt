-- ===== src/Vault/Spec.antt =====
-- What a session promises, with no cipher, no document and no key in it: a store of values under
-- names, that can be locked.
pub mod Represents
pub mod Refused
pub mod Writes
pub mod Listed
pub mod Refines
pub mod Reopened
use touchvault.Base.{
  ℤ, Bytes, Text, Bool, true, false, Option, none, some, List, [], ◌∷◌, ◌≡◌, ◌≢◌, list_eq, nat_Eq,
  if◌then◌else◌, Done, ◌⊎◌,
}
use touchvault.Errors.{
  Error, Result, ok, err, or_error, locked, no_such_secret, name_required, value_required,
  entropy_failed,
}
use touchvault.Effects.{M, ◌>>=◌, pure}
use touchvault.Authenticator.{Authenticator}
use touchvault.Platform.{Platform}
use touchvault.Vault.Session.{Machine, read_string}
use touchvault.Vault.Calls.{
  Call, perform, to_read, to_lock, to_put, to_delete, to_enroll, to_remove, to_force_remove,
  to_seal,
}

pub record Store : Type 0 where
  pub values : Text → Option Bytes
  pub unlocked : Bool

abbrev pub empty_store : Store
empty_store = record { values = λ name. none; unlocked = true }

abbrev pub update : (Text → Option Bytes) → Text → Option Bytes → Text → Option Bytes
update values name value other = if list_eq name other then value else values other

-- What reading a name gives.
abbrev pub read_store : Store → Text → Result Text
read_store a name = if a.unlocked then or_error (a.values name) no_such_secret else err locked

-- The calls that use the data key to change the vault.
abbrev pub IsWrite : {P : Platform} → Call P → Type 0
IsWrite (to_read name) = ⊥
IsWrite to_lock = ⊥
IsWrite to_seal = ⊥
IsWrite _ = Unit

-- The errors that an unlocked store may refuse a call with. A put is refused for its name, for a
-- missing reader or one that fails, or as no random bytes can be had; a delete for a name that has
-- no value. The keys are no part of the store, and what a call on them needs is left open.
abbrev pub MayRefuse : {P : Platform} → Store → Call P → Error → Type 0
MayRefuse a (to_put name secret) e =
    (name ≡ [] × e ≡ name_required)
    ⊎ (secret ≡ none × e ≡ value_required)
    ⊎ (secret ≡ some (err e))
    ⊎ (e ≡ entropy_failed)
MayRefuse a (to_delete name) e = (a.values name ≡ none) × (e ≡ no_such_secret)
MayRefuse a _ e = Unit

-- What a call may answer, and what it may do to the store. Reading and locking have one outcome
-- each. A call that writes may be refused, and then the store is as it was; a locked store refuses
-- it with the error of a locked session, and no other.
pub data Allowed {P : Platform} (a : Store) : Call P → Result Text → Store → Type 0 where
  reads : (name : Text) → Allowed a (to_read name) (read_store a name) a
  locks : Allowed a to_lock (ok []) (record a { unlocked = false })
  puts :
      (name : Text) (p : Bytes)
      → name ≢ []
      → a.unlocked ≡ true
      → Allowed a
          (to_put name (some (ok p)))
          (ok [])
          (record a { values = update a.values name (some p) })
  deletes :
      (name : Text) (p : Bytes)
      → a.values name ≡ some p
      → a.unlocked ≡ true
      → Allowed a (to_delete name) (ok []) (record a { values = update a.values name none })
  enrolls :
      (auth : Authenticator P.Outside) (slot : ℤ) (label : Text)
      → a.unlocked ≡ true
      → Allowed a (to_enroll auth slot label) (ok []) a
  removes : (slot : ℤ) → a.unlocked ≡ true → Allowed a (to_remove slot) (ok []) a
  force_removes : (slot : ℤ) → a.unlocked ≡ true → Allowed a (to_force_remove slot) (ok []) a
  seals : (r : Result Text) → Allowed a to_seal r a
  refuses :
      (c : Call P) (e : Error)
      → IsWrite c
      → (a.unlocked ≡ false → e ≡ locked)
      → (a.unlocked ≡ true → MayRefuse a c e)
      → Allowed a c (err e) a

-- Calls one after another.
pub data AllowedAll {P : Platform}
    : Store → List (Call P) → List (Result Text) → Store → Type 0 where
  done : {a : Store} → AllowedAll a [] [] a
  then_call :
      {a b d : Store} {c : Call P} {r : Result Text} {cs : List (Call P)} {rs : List (Result Text)}
      → Allowed a c r b
      → AllowedAll b cs rs d
      → AllowedAll a (c ∷ cs) (r ∷ rs) d

module _ (P : Platform) where
  -- A call with its answer: the text that was read, or nothing.
  unfoldable pub answer : Call P → M (Machine P) Text
  answer (to_read name) = read_string P name
  answer c = perform P c >>= λ _. pure []

  -- The answers of calls, and the machine after them.
  unfoldable pub answers : List (Call P) → Machine P → List (Result Text) × Machine P
  answers [] m = ([], m)
  answers (c ∷ cs) m = let (r, n) = answer c m in let (rs, last) = answers cs n in (r ∷ rs, last)
