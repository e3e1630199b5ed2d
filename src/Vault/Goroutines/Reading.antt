-- ===== src/Vault/Goroutines/Reading.antt =====
-- The methods that only read a session or lock it. The comment on `Session` in vault.go is about
-- goroutines that call these.
use touchvault.Base.{Text, Bool, true, false, ◌≡◌, refl, arith, if◌then◌else◌}
use touchvault.Errors.{Result, ok, err, locked}
use touchvault.Platform.{Platform}
use touchvault.Vault.Session.{
  Machine, list_names, list_slots, read_string, open_name, sealed, lock, key,
}
use touchvault.Vault.Calls.{
  perform, to_read, to_lock, to_put, to_delete, to_enroll, to_remove, to_force_remove, to_seal,
}
use touchvault.Vault.Goroutines.{Request, asks_names, asks_slots, makes, Reply, nothing, respond}

module _ {P : Platform} where
  -- The methods of `Session`, and `Sealed`.
  abbrev pub is_quiet : Request P → Bool
  is_quiet (makes (to_put name secret)) = false
  is_quiet (makes (to_delete name)) = false
  is_quiet (makes (to_enroll auth slot label)) = false
  is_quiet (makes (to_remove slot)) = false
  is_quiet (makes (to_force_remove slot)) = false
  is_quiet _ = true

  abbrev pub is_lock : Request P → Bool
  is_lock (makes to_lock) = true
  is_lock _ = false

module _ (P : Platform) (m : Machine P) where
  -- What a method returns, by whether the session has been locked.
  abbrev pub expected : Bool → Request P → Result Reply
  expected b (makes (to_read name)) =
      if b then err locked else (respond P (makes (to_read name)) m).0
  expected b (makes to_lock) = ok nothing
  expected b q = (respond P q m).0

  abbrev pub state_at : Bool → Machine P
  state_at b = if b then (lock P m).1 else m

  read_string-same : (name : Text) (n : Machine P) → (read_string P name n).1 ≡ n
  unfolding read_string open_name key
  read_string-same name n = ground (arith)

  read_string-locked : (name : Text) → (read_string P name (lock P m).1).0 ≡ err locked
  unfolding read_string open_name key lock
  read_string-locked name = refl

  pub respond_quiet :
      (q : Request P) (b : Bool)
      → is_quiet q ≡ true
      → respond P q (state_at b) ≡ (expected b q, state_at (if is_lock q then true else b))
  unfolding respond perform lock list_names list_slots sealed
  respond_quiet asks_names true h = refl
  respond_quiet asks_names false h = refl
  respond_quiet asks_slots true h = refl
  respond_quiet asks_slots false h = refl
  respond_quiet (makes (to_read name)) true h =
      ground (arith, read_string-same name (lock P m).1, read_string-locked name)
  respond_quiet (makes (to_read name)) false h = ground (arith, read_string-same name m)
  respond_quiet (makes to_lock) true h = refl
  respond_quiet (makes to_lock) false h = refl
  respond_quiet (makes (to_put name secret)) b h = absurd (ground (arith))
  respond_quiet (makes (to_delete name)) b h = absurd (ground (arith))
  respond_quiet (makes (to_enroll auth slot label)) b h = absurd (ground (arith))
  respond_quiet (makes (to_remove slot)) b h = absurd (ground (arith))
  respond_quiet (makes (to_force_remove slot)) b h = absurd (ground (arith))
  respond_quiet (makes to_seal) true h = ground (arith)
  respond_quiet (makes to_seal) false h = ground (arith)
