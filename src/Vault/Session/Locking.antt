-- ===== src/Vault/Session/Locking.antt =====
-- What `Lock` takes away.
use touchvault.Base.{ℤ, Bytes, Text, Option, ◌≡◌, refl}
use touchvault.Errors.{Result, err, locked}
use touchvault.Authenticator.{Authenticator}
use touchvault.Platform.{Platform}
use touchvault.Vault.Session.{
  Machine, key, lock, open_name, read_string, put, delete, enroll_key, remove_key, force_remove_key,
  sealed,
}

module _ (P : Platform) (m : Machine P) where
  -- The session after `Lock`.
  abbrev pub locked_m : Machine P
  locked_m = (lock P m).1

  -- After `Lock` every method that uses the data key fails with the error of a locked session and
  -- changes nothing, so no touch is asked for either. Locking again changes nothing, the document
  -- is the one from before, and serializing it gives what it gave before.
  pub lock_forgets :
      (name : Text) (secret : Option (Result Bytes)) (auth : Authenticator P.Outside) (slot : ℤ)
      (label : Text)
      → (read_string P name locked_m ≡ (err locked, locked_m))
        × (put P name secret locked_m ≡ (err locked, locked_m))
        × (delete P name locked_m ≡ (err locked, locked_m))
        × (enroll_key P auth slot label locked_m ≡ (err locked, locked_m))
        × (remove_key P slot locked_m ≡ (err locked, locked_m))
        × (force_remove_key P slot locked_m ≡ (err locked, locked_m))
        × ((lock P locked_m).1 ≡ locked_m)
        × (locked_m.session.doc ≡ m.session.doc)
        × ((sealed P locked_m).0 ≡ (sealed P m).0)
  unfolding lock key open_name read_string put delete enroll_key remove_key force_remove_key sealed
  lock_forgets name secret auth slot label = (refl, refl, refl, refl, refl, refl, refl, refl, refl)
