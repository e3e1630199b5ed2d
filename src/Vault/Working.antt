-- ===== src/Vault/Working.antt =====
-- The core where everything around it works: the entropy source, the ciphers, and a security key
-- that answers.
pub mod Entries
pub mod Enrolled
pub mod Unlocks
pub mod Live
pub mod Enrolling
use touchvault.Base.{
  All, contains, Eq, list_Eq, nat_Eq, ◌||◌, ℕ, Bytes, Text, Bool, true, false, Option, List,
  list_eq, if◌then◌else◌, [], ◌∷◌, ◌≡◌, ◌≢◌, length,
}
use touchvault.Errors.{ok}
use touchvault.Authenticator.{
  Authenticator, UserVerification, EnrollRequest, EnrollResult, DeriveRequest, derive_request,
  salt_len,
}
use touchvault.Platform.{Platform}
use touchvault.Attestation.Genuine.{IsGenuine}

-- A security key that is plugged in and touched whenever it is asked. Each enrollment makes a
-- credential, which is not resident, whose attestation is genuine for the roots, and which belongs
-- to the key and to the relying party. A credential that the key holds in a world, it still holds
-- after it was derived from and after random bytes were drawn. Asked to derive with an allow-list
-- that has such a credential and no empty ID, over a salt of 32 bytes, the key answers for a credential of its own on the list, with an
-- output that differs wherever the salt does.
pub record IsWorkingKey (P : Platform) (auth : Authenticator P.Outside)
    (roots : Option P.certs.Pool) : Type 1 where
  -- A credential is the key's for a relying party, and it is there in a world.
  pub mine : Text → Bytes → Type 0
  pub holds : P.Outside → Text → Bytes → Type 0
  pub verified : Bool
  pub output : Text → Bytes → Bytes → Bytes
  pub has_output : (rpid : Text) (id salt : Bytes) → id ≢ [] → output rpid id salt ≢ []
  pub depends :
      (rpid : Text) (id a b : Bytes)
      → length a ≡ salt_len
      → length b ≡ salt_len
      → a ≢ b
      → output rpid id a ≢ output rpid id b
  pub enrolls :
      (req : EnrollRequest) (s : P.Outside)
      → (cred : EnrollResult) × ((auth.enroll req s).0 ≡ ok cred)
        × (cred.credential_id ≢ [])
        × (cred.resident_key ≡ false)
        × IsGenuine P cred roots
        × mine req.rpid cred.credential_id
        × holds (auth.enroll req s).1 req.rpid cred.credential_id
  pub derive_keeps :
      (req : DeriveRequest) (s : P.Outside) (rpid : Text) (id : Bytes)
      → holds s rpid id
      → holds (auth.derive req s).1 rpid id
  pub draw_keeps :
      (n : ℕ) (s : P.Outside) (rpid : Text) (id : Bytes)
      → holds s rpid id
      → holds (P.rand_read n s).1 rpid id
  pub derives :
      (rpid : Text) (ids : List Bytes) (salt : Bytes) (uv : UserVerification) (s : P.Outside)
      (id : Bytes)
      → holds s rpid id
      → contains ids id ≡ true
      → All (λ i. i ≢ []) ids
      → length salt ≡ salt_len
      → (other : Bytes) × mine rpid other
        × (contains ids other ≡ true)
        × ((auth.derive (derive_request rpid ids salt uv) s).0
            ≡ ok (record {
              secret = output rpid other salt;
              credential_id = other;
              user_present = true;
              user_verified = verified;
            }))
