-- ===== src/Vault/Calls.antt =====
-- vault.go: a session as a sequence of method calls. Every method takes the session's mutex on
-- entry and gives it back on return, and each call is one step here. Vault.Goroutines has the steps
-- of each, with goroutines that come between.
pub mod Failed
pub mod Entries
pub mod Sound
pub mod Preserved
pub mod Derived
pub mod DataKey
use touchvault.Base.{ℤ, Bytes, Text, Done, Option, List, [], ◌∷◌}
use touchvault.Errors.{Result}
use touchvault.Effects.{M, ◌>>=◌, pure}
use touchvault.Authenticator.{Authenticator}
use touchvault.Platform.{Platform}
use touchvault.Vault.Session.{
  Machine, read_string, lock, put, delete, enroll_key, remove_key, force_remove_key, sealed,
}

-- A call of a method of `Admin`, with its arguments. `Names` and `Slots` change nothing.
pub data Call (P : Platform) : Type 0 where
  to_read : Text → Call P
  to_lock : Call P
  to_put : Text → Option (Result Bytes) → Call P
  to_delete : Text → Call P
  to_enroll : Authenticator P.Outside → ℤ → Text → Call P
  to_remove : ℤ → Call P
  to_force_remove : ℤ → Call P
  to_seal : Call P

abbrev pub voided : {S A : Type 0} → M S A → M S Done
voided m = m >>= λ _. pure tt

module _ (P : Platform) where
  -- One call, its result left out.
  unfoldable pub perform : Call P → M (Machine P) Done
  perform (to_read name) = voided (read_string P name)
  perform to_lock = lock P
  perform (to_put name secret) = put P name secret
  perform (to_delete name) = delete P name
  perform (to_enroll auth slot label) = enroll_key P auth slot label
  perform (to_remove slot) = remove_key P slot
  perform (to_force_remove slot) = force_remove_key P slot
  perform to_seal = voided (sealed P)

  -- Calls one after the other, whether they succeed or fail.
  unfoldable pub perform_all : List (Call P) → Machine P → Machine P
  perform_all [] m = m
  perform_all (c ∷ cs) m = perform_all cs (perform c m).1

-- The states that calls lead to, whether they succeed or fail.
pub data Reach {P : Platform} (m : Machine P) : Machine P → Type 0 where
  here : Reach m m
  next : {n : Machine P} (c : Call P) → Reach m n → Reach m (perform P c n).1
