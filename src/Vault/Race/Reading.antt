-- ===== src/Vault/Race/Reading.antt =====
-- Goroutines that read several sessions of one vault, and lock them.
pub mod Invariant
pub mod Steps
pub mod Always
use touchvault.Base.{
  ℕ, Bool, true, false, Bytes, List, [], ◌∷◌, ◌≡◌, ◌==◌, ◌&&◌, if◌then◌else◌, All,
}
use touchvault.Errors.{Result}
use touchvault.Platform.{Platform}
use touchvault.Threads.{Log, Event, calls, goes}
use touchvault.Vault.Shared.{Shared}
use touchvault.Vault.Goroutines.{Request, Reply}
use touchvault.Vault.Goroutines.Reading.{is_quiet, is_lock, expected}
use touchvault.Vault.Race.{machine_of}

module _ {P : Platform} where
  -- A `Lock` of that session has returned.
  abbrev pub was_locked_in : ℕ → Log (ℕ × Request P) Reply → Bool
  was_locked_in n [] = false
  was_locked_in n ((i, (m, q), r) ∷ log) =
      if (m == n) && is_lock q then true else was_locked_in n log

  -- A schedule in which only methods of `Session` and `Sealed` are called.
  abbrev pub IsQuietEvent : Event (ℕ × Request P) → Type 0
  IsQuietEvent (calls i (n, q)) = is_quiet q ≡ true
  IsQuietEvent (goes i) = Unit

  -- Each call returned what is expected after the calls that returned before it: what the method
  -- gives at the start, but the error of a locked session for a read of a session of which a `Lock`
  -- has returned.
  abbrev pub AnsweredIn : Shared P → Log (ℕ × Request P) Reply → Type 0
  AnsweredIn st [] = Unit
  AnsweredIn st ((i, (n, q), r) ∷ log) =
      (r ≡ expected P (machine_of P n st) (was_locked_in n log) q) × AnsweredIn st log
