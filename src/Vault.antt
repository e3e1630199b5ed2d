-- ===== src/Vault.antt =====
-- vault.go: the lifecycle of a vault.
pub mod Options
pub mod Create
pub mod Enrollment
pub mod Created
pub mod Open
pub mod Unlocking
pub mod Session
pub mod Calls
pub mod Reopening
pub mod Unreadable
pub mod Emptied
pub mod Relabelled
pub mod Shared
pub mod Spec
pub mod Prf
pub mod Working
pub mod Touches
pub mod Steps
pub mod Goroutines
pub mod Race
