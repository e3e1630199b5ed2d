-- ===== src/Tests/Spec.antt =====
-- The store that a session implements, at a run.
use touchvault.Base.{codes, Bytes, refl, ◌≡◌, [], ◌∷◌, some, Text, List}
use touchvault.Errors.{ok}
use touchvault.World.{World, derived, random_bytes}
use touchvault.Sealed.Find.{find_key, credential_ids}
use touchvault.Sealed.Aad.{key_aad, secret_aad}
use touchvault.Crypto.Pure.{unwrap_data_key, open_bytes, new_gcm, derive_kek}
use touchvault.Crypto.Seal.{seal_secret, seal}
use touchvault.Vault.Options.{Session}
use touchvault.Vault.Open.{unlock, unlock_request, open_vault}
use touchvault.Vault.Session.{Machine, read_string, sealed, put, key, put_secret, lock}
use touchvault.Vault.Reopening.{plain, reopened}
use touchvault.Vault.Calls.{Call, perform, to_put, to_read, to_delete, to_lock}
use touchvault.Vault.Spec.{Store, AllowedAll, empty_store, read_store, answer, answers}
use touchvault.Vault.Spec.Refines.{answers_refine}
use touchvault.Vault.Spec.Listed.{Lists}
use touchvault.Vault.Spec.Reopened.{unlocked_store, reopened_refine}
use touchvault.Toy.Working.{toy_output, key_of-IsHmacSecret}
use touchvault.Toy.Codec.{toy-IsJson}
use touchvault.Toy.Cipher.{toy-IsGcm}
use touchvault.Toy.Keys.{toy, toy-IsFullRead, first_key, toy_options, start}
use touchvault.Tests.Created.{made_session, made_world, created, key_material}
use touchvault.Tests.Reopened.{made}

abbrev api : Text
api = codes "api"

-- The session after the secret was put, and the calls of a second one.
abbrev keeping : List (Call toy)
keeping = to_put api (some (ok (codes "hi"))) ∷ to_lock ∷ []

abbrev second : List (Call toy)
second = to_read api ∷ to_delete api ∷ to_read api ∷ []

abbrev kept : Machine toy
kept = (answers toy keeping made).1

abbrev again : Session toy × World toy
again = (
  record { doc = kept.session.doc; opts = plain toy (codes "acme"); data_key = key_material },
  record { outside = 41; gestures = derived (unlock_request kept.session.doc) ∷ [] },
)

unlocks_again : unlock toy (reopened kept) first_key start ≡ (ok again.0, again.1)
unfolding unlock find_key credential_ids unwrap_data_key derive_kek open_bytes new_gcm key_aad
    answers answer perform put key seal_secret seal random_bytes secret_aad put_secret lock
unlocks_again = refl

reopened_refine_example :
    let run = answers toy second (record { session = again.0; world = again.1 }) in
    (b : Bytes) × (a : Store) × (c : Store) × ((sealed toy kept).0 ≡ ok b)
    × (open_vault toy b ≡ ok (reopened kept))
    × AllowedAll empty_store keeping (answers toy keeping made).0 a
    × AllowedAll (unlocked_store a) second run.0 c
    × ((name : Text) → (read_string toy name run.1).0 ≡ read_store c name)
    × Lists toy run.1 c
unfolding answers answer perform put key seal_secret seal new_gcm random_bytes secret_aad put_secret
    lock
reopened_refine_example =
    reopened_refine toy toy_output toy-IsGcm toy-IsFullRead toy-IsJson first_key toy_options start
      made_world made_session keeping (key_of-IsHmacSecret 7) (tt, (tt, tt)) created kept refl refl
      first_key start again.1 again.0 (key_of-IsHmacSecret 7) unlocks_again second

answers_refine_example :
    let run = answers toy keeping made in
    (b : Store) × AllowedAll empty_store keeping run.0 b
    × ((name : Text) → (read_string toy name run.1).0 ≡ read_store b name)
    × Lists toy run.1 b
answers_refine_example =
    answers_refine toy toy-IsGcm toy-IsFullRead first_key toy_options start made_world made_session
      keeping created
