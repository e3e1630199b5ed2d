-- ===== src/Tests/Reopened.antt =====
-- A vault created, given a secret, sealed, and opened again.
use touchvault.Base.{◌≡◌, refl, [], ◌∷◌, ◌++◌, some, true, Bytes, Text}
use touchvault.Base.{codes}
use touchvault.Errors.{ok}
use touchvault.Authenticator.{DeriveResult}
use touchvault.Sealed.Find.{find_key, credential_ids}
use touchvault.Sealed.Aad.{key_aad, secret_aad}
use touchvault.Crypto.Pure.{unwrap_data_key, open_bytes, new_gcm, derive_kek}
use touchvault.Crypto.Seal.{seal_secret, seal}
use touchvault.World.{random_bytes}
use touchvault.Vault.Options.{Vault, Session}
use touchvault.Vault.Open.{open_vault, unlock}
use touchvault.Vault.Session.{Machine, put, key, put_secret, sealed, read_string}
use touchvault.Vault.Calls.{perform, here, next, to_put}
use touchvault.Vault.Reopening.{reopen}
use touchvault.Toy.Codec.{toy-IsJson}
use touchvault.Toy.Cipher.{toy-IsGcm, fit}
use touchvault.Toy.Keys.{toy, toy-IsFullRead, first_key, toy_options, start}
use touchvault.Tests.Created.{made_session, made_world, created, first_entry}

abbrev pub made : Machine toy
made = record { session = made_session; world = made_world }

abbrev pub filled : Machine toy
filled = (perform toy (to_put (codes "api") (some (ok (codes "hi")))) made).1

abbrev answer : DeriveResult
answer = record {
  secret = fit 32 (40 ∷ []) ++ (7 ∷ []);
  credential_id = 7 ∷ [];
  user_present = true;
  user_verified = true;
}

reopen_example :
    (b : Bytes) × (v : Vault toy) × (t : Session toy) × ((sealed toy filled).0 ≡ ok b)
    × (open_vault toy b ≡ ok v)
    × ((unlock toy v first_key start).0 ≡ ok t)
    × ((name : Text)
        → (read_string toy name
            (record { session = t; world = (unlock toy v first_key start).1 })).0
          ≡ (read_string toy name filled).0)
unfolding perform put key seal_secret seal new_gcm random_bytes secret_aad put_secret find_key
    credential_ids unwrap_data_key derive_kek open_bytes key_aad
reopen_example =
    reopen toy toy-IsGcm toy-IsFullRead toy-IsJson toy_options first_key start made.world
      made.session created filled (next (to_put (codes "api") (some (ok (codes "hi")))) here) refl
      refl first_key answer first_entry start refl refl refl refl refl
