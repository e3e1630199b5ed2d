-- ===== src/Tests/Removed.antt =====
-- Keys that are removed, and vaults that do not open again.
use touchvault.Base.{pos, ◌≡◌, ◌≢◌, refl, arith, [], ◌∷◌, some, true, false, Bytes}
use touchvault.Base.{codes, int_eq, nat_Eq, if◌then◌else◌}
use touchvault.Errors.{ok, err, wrong_format, no_keys_enrolled}
use touchvault.Authenticator.{Authenticator}
use touchvault.World.{World, random_bytes}
use touchvault.Sealed.Document.{SealedKey}
use touchvault.Sealed.Aad.{secret_aad}
use touchvault.Sealed.Find.{find_key, slot_occupied}
use touchvault.Crypto.Pure.{new_gcm}
use touchvault.Crypto.Seal.{seal_secret, seal}
use touchvault.Vault.Options.{Vault}
use touchvault.Vault.Open.{open_vault, unlock}
use touchvault.Vault.Session.{
  Machine, put, key, put_secret, sealed, remove_key, force_remove_key, remove_entry, keys_without,
}
use touchvault.Vault.Session.Removing.{remove_key-eq-ok, unless_in}
use touchvault.Vault.Unreadable.{sealed_unreadable}
use touchvault.Vault.Emptied.{force_remove_last}
use touchvault.Toy.Codec.{toy-IsJson}
use touchvault.Toy.Cipher.{toy-IsGcm}
use touchvault.Toy.Keys.{toy, toy-IsFullRead}
use touchvault.Tests.Created.{first_entry}
use touchvault.Tests.Reopened.{made}
use touchvault.Tests.Sessions.{made-IsSound}

-- The session with the second key, its entry written out.
abbrev second_entry : SealedKey
second_entry = record {
  slot = pos 3;
  label = codes "spare";
  credential_id = 8 ∷ [];
  nonce = 4 ∷ 4 ∷ [];
  wrapped = 1 ∷ 2 ∷ [];
}

abbrev both : Machine toy
both = record made {
  session = record (made.session) {
    doc = record (made.session.doc) { keys = first_entry ∷ second_entry ∷ [] };
  };
}

abbrev one_left : Machine toy
one_left = record made {
  session = record (made.session) { doc = record (made.session.doc) { keys = second_entry ∷ [] } };
}

removed_first : remove_key toy (pos 0) both ≡ (ok tt, one_left)
unfolding remove_key remove_entry key keys_without slot_occupied
removed_first = refl

remove_key-eq-ok_example :
    (slot_occupied both.session.doc (pos 0) ≡ true)
    × (one_left.session.doc.keys ≢ [])
    × (slot_occupied one_left.session.doc (pos 3)
        ≡ (if int_eq (pos 0) (pos 3) then false else slot_occupied both.session.doc (pos 3)))
    × (find_key one_left.session.doc (7 ∷ [])
        ≡ unless_in (pos 0) (find_key both.session.doc (7 ∷ [])))
    × (one_left.session.doc.secrets ≡ both.session.doc.secrets)
    × (one_left.session.data_key ≡ both.session.data_key)
remove_key-eq-ok_example =
    remove_key-eq-ok toy (pos 0) (pos 3) (7 ∷ []) both one_left
      ((λ e. absurd (ground arith), tt), (tt, tt)) ((λ e. absurd (ground arith), tt), (tt, tt))
      removed_first

-- Two names that are no ASCII, and are written as one.
abbrev put_first : Machine toy
put_first = (put toy (200 ∷ []) (some (ok (1 ∷ []))) made).1

abbrev put_both : Machine toy
put_both = (put toy (201 ∷ []) (some (ok (2 ∷ []))) put_first).1

put_first_done : put toy (200 ∷ []) (some (ok (1 ∷ []))) made ≡ (ok tt, put_first)
unfolding put key seal_secret seal new_gcm random_bytes secret_aad put_secret
put_first_done = refl

put_both_done : put toy (201 ∷ []) (some (ok (2 ∷ []))) put_first ≡ (ok tt, put_both)
unfolding put key seal_secret seal new_gcm random_bytes secret_aad put_secret
put_both_done = refl

sealed_unreadable_example :
    (bytes : Bytes) × ((sealed toy put_both).0 ≡ ok bytes)
    × (open_vault toy bytes ≡ err wrong_format)
sealed_unreadable_example =
    sealed_unreadable toy toy-IsGcm toy-IsFullRead toy-IsJson (200 ∷ []) (201 ∷ []) (1 ∷ [])
      (2 ∷ []) made put_first put_both (λ e. absurd (ground arith)) refl put_first_done
      put_both_done

abbrev emptied : Machine toy
emptied = record made {
  session = record (made.session) { doc = record (made.session.doc) { keys = [] } };
}

removed_last : force_remove_key toy (pos 0) made ≡ (ok tt, emptied)
unfolding force_remove_key remove_entry key keys_without slot_occupied
removed_last = refl

force_remove_last_example :
    (b : Bytes) × (v : Vault toy) × ((sealed toy emptied).0 ≡ ok b)
    × (open_vault toy b ≡ ok v)
    × ((auth : Authenticator toy.Outside) (w : World toy)
        → unlock toy v auth w ≡ (err no_keys_enrolled, w))
force_remove_last_example =
    force_remove_last toy toy-IsJson made emptied first_entry refl made-IsSound.well_formed refl
      removed_last
