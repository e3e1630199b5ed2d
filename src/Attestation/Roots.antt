-- ===== src/Attestation/Roots.antt =====
-- attestation.go: the pool of trust anchors as a variable that is made once, and the copies of it
-- that callers have. A pool is reached through its address, and whoever has an address can change
-- the pool there, as `AddCert` does.
pub mod Intact
use touchvault.Base.{
  ℕ, Bool, true, false, Option, none, some, List, [], ◌∷◌, ◌+◌, update, nth, if◌then◌else◌, Done,
}
use touchvault.Errors.{Result}
use touchvault.Authenticator.{EnrollResult}
use touchvault.Platform.{Platform}
use touchvault.Platform.Certificates.{Certs}
use touchvault.Attestation.{verify_genuine_hardware}

-- The pools by address, with the first address that is free; whether `attestationRootsOnce` has
-- run, and `attestationRoots`; and the addresses that `BundledRoots` returned, the latest first.
pub record Anchors (X : Certs) : Type 0 where
  pub pools : ℕ → Option X.Pool
  pub next : ℕ
  pub once : Bool
  pub roots : Option ℕ
  pub given : List ℕ

-- What a caller does: it asks for the roots, changes a pool that it was given, or has a credential
-- verified, with a pool that it was given or with none.
pub data Use (X : Certs) : Type 0 where
  asks : Use X
  changes : ℕ → (X.Pool → X.Pool) → Use X
  verifies : EnrollResult → Option ℕ → Use X

module _ {X : Certs} where
  -- The process before any call.
  abbrev pub untouched : Anchors X
  untouched = record { pools = λ a. none; next = 0; once = false; roots = none; given = [] }

  -- The pool behind a pointer, unless it is nil.
  abbrev pub pool_at : Anchors X → Option ℕ → Option X.Pool
  pool_at s none = none
  pool_at s (some a) = s.pools a

  abbrev pub new_pool : X.Pool → Anchors X → Anchors X
  new_pool p s = record s { pools = update s.pools s.next (some p); next = s.next + 1 }

  -- `trustedFIDORoots`: the pointer.
  unfoldable pub trusted_roots : Anchors X → Option ℕ × Anchors X
  trusted_roots s = if s.once then (s.roots, s) else (
    some s.next,
    record (new_pool (X.pool_from_pem X.roots_pem) s) { once = true; roots = some s.next },
  )

  abbrev pub give_copy : Option X.Pool → Anchors X → Option ℕ × Anchors X
  give_copy none s = (none, s)
  give_copy (some p) s = (some s.next, record (new_pool (X.clone p) s) { given = s.next ∷ s.given })

  -- `BundledRoots`: the pointer to the copy.
  unfoldable pub ask_roots : Anchors X → Option ℕ × Anchors X
  unfolding trusted_roots
  ask_roots s = let (a, t) = trusted_roots s in give_copy (pool_at t a) t

  -- A change of the pool at an address.
  abbrev pub change_at : Option ℕ → (X.Pool → X.Pool) → Anchors X → Anchors X
  change_at none f s = s
  change_at (some a) f s = elim (s.pools a) [
    | none ↦ s
    | some p ↦ record s { pools = update s.pools a (some (f p)) }
  ]

module _ (P : Platform) where
  -- `verifyGenuineHardware` with a pointer to a pool; nil is the bundled roots.
  unfoldable pub verify_with :
      EnrollResult → Option ℕ → Anchors P.certs → Result Done × Anchors P.certs
  unfolding trusted_roots
  verify_with r none s =
      let (a, t) = trusted_roots s in (verify_genuine_hardware P r (pool_at t a), t)
  verify_with r (some a) s = (verify_genuine_hardware P r (s.pools a), s)

  unfoldable pub use_anchors : Use P.certs → Anchors P.certs → Anchors P.certs
  unfolding ask_roots verify_with
  use_anchors asks s = (ask_roots s).1
  use_anchors (changes n f) s = change_at (nth n s.given) f s
  use_anchors (verifies r none) s = (verify_with r none s).1
  use_anchors (verifies r (some n)) s = (verify_with r (nth n s.given) s).1

  -- What callers do, one after another.
  unfoldable pub use_all : List (Use P.certs) → Anchors P.certs → Anchors P.certs
  unfolding use_anchors
  use_all [] s = s
  use_all (u ∷ us) s = use_all us (use_anchors u s)
