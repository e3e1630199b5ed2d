-- ===== src/Vault/Goroutines.antt =====
-- vault.go: goroutines that share one session. Each method locks the mutex of the session on entry
-- and unlocks it on return, and makes its steps in between.
pub mod Alone
pub mod Serial
pub mod Reading
pub mod Sound
use touchvault.Base.{ℕ, zero, Text, Bytes, Done, List}
use touchvault.Effects.{M}
use touchvault.Effects as Effects
use touchvault.Effects.Programs.{Prog, ◌>>=◌, pure}
use touchvault.Platform.{Platform}
use touchvault.Sealed.Listing.{SlotInfo}
use touchvault.Threads.{System, Event, begin, turns}
use touchvault.Vault.Session.{
  Machine, read_string, read_all, lock, put, delete, enroll_key, remove_key, force_remove_key,
  sealed, list_names, list_slots,
}
use touchvault.Vault.Calls.{
  Call, perform, to_read, to_lock, to_put, to_delete, to_enroll, to_remove, to_force_remove,
  to_seal,
}
use touchvault.Vault.Steps.{
  open_steps, lock_steps, put_steps, delete_steps, enroll_steps, remove_steps, force_remove_steps,
  sealed_steps, names_steps, slots_steps,
}

-- Every method of `Admin`, with its arguments.
pub data Request (P : Platform) : Type 0 where
  asks_names : Request P
  asks_slots : Request P
  makes : Call P → Request P

-- What the methods return, beside an error.
pub data Reply : Type 0 where
  nothing : Reply
  text : Bytes → Reply
  listed_names : List Text → Reply
  listed_slots : List SlotInfo → Reply

module _ (P : Platform) where
  -- A method as one step.
  unfoldable pub respond : Request P → M (Machine P) Reply
  respond asks_names = Effects.◌>>=◌ (list_names P) λ ns. Effects.pure (listed_names ns)
  respond asks_slots = Effects.◌>>=◌ (list_slots P) λ ss. Effects.pure (listed_slots ss)
  respond (makes (to_read name)) = Effects.◌>>=◌ (read_string P name) λ t. Effects.pure (text t)
  respond (makes to_seal) = Effects.◌>>=◌ (sealed P) λ t. Effects.pure (text t)
  respond (makes c) = Effects.◌>>=◌ (perform P c) λ _. Effects.pure nothing

  -- The steps of a method. The reader that `Open` returns is read by the caller, with no mutex.
  unfoldable pub program : Request P → Prog (Machine P) Reply
  unfolding ◌>>=◌
  program asks_names = do ns ← names_steps P; pure (listed_names ns)
  program asks_slots = do ss ← slots_steps P; pure (listed_slots ss)
  program (makes (to_read name)) = do r ← open_steps P name; pure (text (read_all r).0)
  program (makes to_lock) = do _ ← lock_steps P; pure nothing
  program (makes (to_put name secret)) = do _ ← put_steps P name secret; pure nothing
  program (makes (to_delete name)) = do _ ← delete_steps P name; pure nothing
  program (makes (to_enroll auth slot label)) = do _ ← enroll_steps P auth slot label; pure nothing
  program (makes (to_remove slot)) = do _ ← remove_steps P slot; pure nothing
  program (makes (to_force_remove slot)) = do _ ← force_remove_steps P slot; pure nothing
  program (makes to_seal) = do t ← sealed_steps P; pure (text t)

  -- The one mutex, `s.mu`.
  abbrev pub mu : Request P → ℕ
  mu q = 0

  -- Goroutines with one session, after a schedule of their steps.
  unfoldable pub crew : List (Event (Request P)) → Machine P → System (Machine P) (Request P) Reply
  unfolding turns
  crew es m = turns mu program es (begin m)
