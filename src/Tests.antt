-- ===== src/Tests.antt =====
-- The model run on the toy platform, and each theorem applied at a run.
mod Created
mod Reopened
mod Gate
mod Provider
mod Windows
mod Unlocked
mod Documents
mod Listings
mod Sessions
mod Removed
mod Working
mod Shared
mod Spec
mod Goroutines
