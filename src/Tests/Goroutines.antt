-- ===== src/Tests/Goroutines.antt =====
-- Goroutines with one session, and with two sessions of one vault.
use touchvault.Base.{
  ℕ, Text, List, [], ◌∷◌, ◌++◌, none, some, codes, ◌≡◌, ◌≢◌, refl, arith, pos, nat_Eq, nth, Bytes,
}
use touchvault.Errors.{ok, err, locked, last_key, wrong_format}
use touchvault.Effects.Programs.{◌>>=◌, ◌>>◌}
use touchvault.World.{random_bytes}
use touchvault.Sealed.Aad.{secret_aad}
use touchvault.Sealed.Find.{find_secret, slot_occupied, find_key}
use touchvault.Crypto.Pure.{new_gcm, open_secret, open_bytes}
use touchvault.Crypto.Seal.{seal_secret, seal}
use touchvault.Threads.{Event, calls, replay, turns, turn, start_call, go}
use touchvault.Threads.Progress.{only}
use touchvault.Vault.Session.{Machine, put, put_secret, key, read_all}
use touchvault.Vault.Calls.{to_read, to_lock, to_put, to_remove, Reach, to_enroll}
use touchvault.Vault.Steps.{put_steps, open_steps, lock_steps, index_of, store_entry}
use touchvault.Vault.Goroutines.{Request, nothing, text, makes, program, respond, crew}
use touchvault.Vault.Goroutines.Serial.{crew_lem}
use touchvault.Vault.Goroutines.Sound.{crew-IsSound}
use touchvault.Sealed.Document.{SealedKey}
use touchvault.Vault.Shared
use touchvault.Vault.Shared.{Shared, act, set_nth}
use touchvault.Vault.Race.{crews, data_key_of, in_session}
use touchvault.Vault.Race.Reading.{AnsweredIn}
use touchvault.Vault.Race.Reading.Always.{sessions_read}
use touchvault.Vault.Race.OneSlot.{slot_race}
use touchvault.Toy.Keys.{
  toy-NeverFails, second_key, key_of, toy, toy-IsFullRead, first_key, toy_options,
}
use touchvault.Toy.Counting.{counting_key, counting_key-IsWorkingKey, made_by-same}
use touchvault.Toy.Codec.{toy-IsJson}
use touchvault.Sealed.Parse.{marshal}
use touchvault.Vault.Open.{open_vault}
use touchvault.Vault.Race.LastKey.{remove_race}
use touchvault.Vault.Reopening.{create-IsSound}
use touchvault.Vault.Calls.Sound.{IsSound}
use touchvault.Toy.Cipher.{toy-IsGcm}
use touchvault.Toy.Keys as Toy
use touchvault.Tests.Created.{made_session, made_world, created}

abbrev made_machine : Machine toy
made_machine = record { session = made_session; world = made_world }

made-IsSound : IsSound toy made_session.doc made_session.data_key made_session
made-IsSound =
    create-IsSound toy toy-IsGcm toy-IsFullRead first_key toy_options Toy.start made_world
      made_session created

abbrev api : Text
api = codes "api"

-- A `Put` and a `Lock`, of two goroutines; the second has to wait for the first.
abbrev put_and_lock : List (Event (Request toy))
put_and_lock =
    calls 0 (makes (to_put api (some (ok (codes "hi")))))
    ∷ calls 1 (makes to_lock)
    ∷ (only 3 0 ++ (only 2 1 ++ (only 10 0 ++ only 10 1)))

put_and_lock_free : (crew toy put_and_lock made_machine).holder 0 ≡ none
unfolding crew turns turn start_call go only program put_steps lock_steps ◌>>=◌ ◌>>◌ key seal_secret
    seal new_gcm random_bytes secret_aad index_of store_entry
put_and_lock_free = refl

-- The `Lock` returned last.
put_and_lock_log :
    (crew toy put_and_lock made_machine).log
    ≡ (1, makes to_lock, ok nothing)
      ∷ (0, makes (to_put api (some (ok (codes "hi")))), ok nothing)
      ∷ []
unfolding crew turns turn start_call go only program put_steps lock_steps ◌>>=◌ ◌>>◌ key seal_secret
    seal new_gcm random_bytes secret_aad index_of store_entry
put_and_lock_log = refl

crew_lem_example :
    (replay (respond toy) (crew toy put_and_lock made_machine).log made_machine
      ≡ ((crew toy put_and_lock made_machine).log, (crew toy put_and_lock made_machine).shared))
    × Reach made_machine (crew toy put_and_lock made_machine).shared
crew_lem_example = crew_lem toy put_and_lock made_machine put_and_lock_free

crew-IsSound_example :
    IsSound toy made_session.doc made_session.data_key
      (crew toy put_and_lock made_machine).shared.session
    × ((crew toy put_and_lock made_machine).shared.session.doc.keys ≢ [])
unfolding crew turns turn start_call go only program put_steps lock_steps ◌>>=◌ ◌>>◌ key seal_secret
    seal new_gcm random_bytes secret_aad index_of store_entry
crew-IsSound_example =
    crew-IsSound toy made_session.doc made_session.data_key toy-IsGcm toy-IsFullRead made_machine
      made-IsSound (λ e. absurd (ground (arith, e))) put_and_lock put_and_lock_free
      (refl, (refl, tt))

-- A session with a secret.
abbrev filled_machine : Machine toy
filled_machine = (put toy api (some (ok (codes "hi"))) made_machine).1

-- A read, a `Lock` and a read, of three goroutines that arrive at once.
abbrev read_and_lock : List (Event (Request toy))
read_and_lock =
    calls 0 (makes (to_read api))
    ∷ calls 1 (makes to_lock)
    ∷ calls 2 (makes (to_read api))
    ∷ (only 2 0 ++ (only 1 1 ++ (only 1 2 ++ (only 5 0 ++ (only 5 1 ++ only 5 2)))))

read_and_lock_log :
    (crew toy read_and_lock filled_machine).log
    ≡ (2, makes (to_read api), err locked)
      ∷ (1, makes to_lock, ok nothing)
      ∷ (0, makes (to_read api), ok (text (codes "hi")))
      ∷ []
unfolding crew turns turn start_call go only program open_steps lock_steps ◌>>=◌ ◌>>◌ key put
    put_secret seal_secret seal new_gcm random_bytes secret_aad find_secret open_secret open_bytes
    read_all
read_and_lock_log = refl

-- Two keys, in the slots 0 and 1.
abbrev first : SealedKey
first = record {
  slot = pos 0;
  label = codes "key";
  credential_id = 1 ∷ [];
  nonce = [];
  wrapped = [];
}

abbrev second : SealedKey
second = record first { slot = pos 1; credential_id = 2 ∷ [] }

abbrev two_sessions : Shared toy
two_sessions = record {
  doc = record (made_session.doc) { keys = first ∷ second ∷ [] };
  opts = made_session.opts;
  data_keys = made_session.data_key ∷ made_session.data_key ∷ [];
  world = made_world;
}

-- Two sessions of the vault with the secret: one is locked in the midst of a read of the other, and
-- then both are read.
abbrev filled_sessions : Shared toy
filled_sessions = record two_sessions { doc = filled_machine.session.doc }

abbrev reads_and_lock : List (Event (ℕ × Request toy))
reads_and_lock =
    calls 0 (0, makes (to_read api))
    ∷ calls 1 (1, makes to_lock)
    ∷ calls 2 (1, makes (to_read api))
    ∷ (only 3 0 ++ (only 4 1 ++ (only 5 2 ++ only 5 0)))

sessions_read_log :
    (crews toy reads_and_lock filled_sessions).log
    ≡ (0, (0, makes (to_read api)), ok (text (codes "hi")))
      ∷ (2, (1, makes (to_read api)), err locked)
      ∷ (1, (1, makes to_lock), ok nothing)
      ∷ []
unfolding crews turns turn start_call go only program open_steps lock_steps ◌>>=◌ ◌>>◌ key put
    put_secret seal_secret seal new_gcm random_bytes secret_aad find_secret open_secret open_bytes
    read_all in_session data_key_of nth set_nth
sessions_read_log = refl

sessions_read_example :
    AnsweredIn filled_sessions (crews toy reads_and_lock filled_sessions).log
    × ((crews toy reads_and_lock filled_sessions).shared.doc ≡ filled_sessions.doc)
    × ((crews toy reads_and_lock filled_sessions).shared.world ≡ filled_sessions.world)
unfolding only
sessions_read_example =
    sessions_read toy filled_sessions reads_and_lock (refl, (refl, (refl, omega arith)))

remove_race_example :
    (let t = act toy (Shared.calls 0 (to_remove (pos 0))) two_sessions in
      (t.0 ≡ ok tt) × ((act toy (Shared.calls 1 (to_remove (pos 1))) t.1).0 ≡ err last_key))
    × ((es : List (Event (ℕ × Request toy))) × ((crews toy es two_sessions).shared.doc.keys ≡ [])
        × ((crews toy es two_sessions).log
            ≡ (1, (1, makes (to_remove (pos 1))), ok nothing)
              ∷ (0, (0, makes (to_remove (pos 0))), ok nothing)
              ∷ []))
unfolding data_key_of nth
remove_race_example =
    remove_race toy two_sessions first second refl (λ e. ground (arith, e)) refl refl

-- The vault that was created, with two sessions, and two spare keys for one slot.
abbrev spare_sessions : Shared toy
spare_sessions = record two_sessions { doc = made_session.doc }

slot_race_example :
    (es : List (Event (ℕ × Request toy))) × ((crews toy es spare_sessions).log
      ≡ (1, (1, makes (to_enroll (counting_key 9) (pos 3) (codes "spare"))), ok nothing)
        ∷ (0, (0, makes (to_enroll (counting_key 8) (pos 3) (codes "spare"))), ok nothing)
        ∷ [])
    × (bytes : Bytes) × (marshal toy.json (crews toy es spare_sessions).shared.doc ≡ ok bytes)
    × (open_vault toy bytes ≡ err wrong_format)
unfolding slot_occupied find_key data_key_of nth
slot_race_example =
    slot_race toy toy-IsGcm toy-NeverFails toy-IsJson spare_sessions (counting_key 8)
      (counting_key 9) (pos 3) (codes "spare") (counting_key-IsWorkingKey 8)
      (counting_key-IsWorkingKey 9) refl refl refl refl refl ((λ e. absurd (ground (arith, e))), tt)
      ((λ e. absurd (ground (arith, e))), tt)
      (λ id e d. absurd (ground (arith, made_by-same 8 9 id e d))) refl refl
