-- ===== src/Tests/Shared.antt =====
-- A vault with two sessions.
use touchvault.Base.{codes, ◌≡◌, refl, [], ◌∷◌, some, Bytes, Text, nat_Eq}
use touchvault.Errors.{ok}
use touchvault.World.{random_bytes}
use touchvault.Sealed.Aad.{secret_aad}
use touchvault.Crypto.Pure.{new_gcm}
use touchvault.Crypto.Seal.{seal_secret, seal}
use touchvault.Vault.Open.{open_vault}
use touchvault.Vault.Session.{put, key, put_secret, sealed}
use touchvault.Vault.Calls.{perform, perform_all, to_put}
use touchvault.Vault.Reopening.{reopened, create-IsSound}
use touchvault.Vault.Calls.Sound.{IsSound}
use touchvault.Vault.Shared.{Act, act_all, administers, calls}
use touchvault.Vault.Shared.Sound.{IsSharedSound}
use touchvault.Toy.Cipher.{toy-IsGcm}
use touchvault.Toy.Keys.{toy, toy-IsFullRead, first_key, toy_options}
use touchvault.Toy.Keys as Toy
use touchvault.Toy.Working.{toy_output, key_of-IsHmacSecret}
use touchvault.Tests.Reopened.{filled}
use touchvault.Toy.Codec.{toy-IsJson}
use touchvault.Vault.Shared.Reopened.{opened, reopen-IsSharedSound}
use touchvault.Tests.Created.{made_session, made_world, created}

made-IsSound : IsSound toy made_session.doc made_session.data_key made_session
made-IsSound =
    create-IsSound toy toy-IsGcm toy-IsFullRead first_key toy_options Toy.start made_world
      made_session created

abbrev api : Text
api = codes "api"

abbrev put_api : Act toy
put_api = calls 0 (to_put api (some (ok (codes "hi"))))

-- The vault after a secret was put, sealed and opened.
reopen-IsSharedSound_example :
    (b : Bytes) × ((sealed toy filled).0 ≡ ok b)
    × (open_vault toy b ≡ ok (reopened filled))
    × IsSharedSound toy made_session.doc made_session.data_key
        (act_all toy (administers first_key ∷ put_api ∷ []) (opened (reopened filled) Toy.start))
unfolding perform_all perform put key seal_secret seal new_gcm random_bytes secret_aad put_secret
reopen-IsSharedSound_example =
    reopen-IsSharedSound toy toy_output toy-IsGcm toy-IsFullRead toy-IsJson first_key toy_options
      Toy.start made_world made_session (key_of-IsHmacSecret 7) created
      (to_put (codes "api") (some (ok (codes "hi"))) ∷ []) (tt, tt) filled refl refl Toy.start
      (administers first_key ∷ put_api ∷ []) (key_of-IsHmacSecret 7, (tt, tt))
