-- ===== src/Tests/Working.antt =====
-- Creating, putting and enrolling where everything around the core works.
use touchvault.Base.{◌+◌, pos, codes, ◌≡◌, refl, arith, some, true, Text}
use touchvault.Errors.{ok}
use touchvault.World.{World}
use touchvault.Sealed.Find.{find_key, slot_occupied}
use touchvault.Vault.Options.{Session}
use touchvault.Vault.Create.{create}
use touchvault.Vault.Open.{unlock}
use touchvault.Vault.Session.{Machine, put, read_string, enroll_key}
use touchvault.Vault.Calls.{here}
use touchvault.Vault.Reopening.{create-IsSound}
use touchvault.Vault.Working.Live.{create_total, put_total}
use touchvault.Vault.Working.Enrolling.{enroll_key_total}
use touchvault.Toy.Cipher.{toy-IsGcm}
use touchvault.Toy.Keys.{toy, toy-IsFullRead, toy-NeverFails, first_key, toy_options, start}
use touchvault.Toy.Counting.{counting_key, counting_key-IsWorkingKey, made_before-later}
use touchvault.Tests.Created.{made_session, made_world, created}
use touchvault.Tests.Reopened.{made}

create_total_example :
    (s : Session toy) × (w' : World toy) × (create toy (counting_key 7) toy_options start
      ≡ (ok s, w'))
    × (s.doc.entropy_verified ≡ true)
    × ((unlock toy
          (record { doc = s.doc; opts = s.opts })
          (counting_key 7)
          (record w' { outside = w'.outside + 5 })).0
        ≡ ok s)
create_total_example =
    create_total toy toy-IsGcm toy-IsFullRead toy-NeverFails (counting_key 7) toy_options
      (counting_key-IsWorkingKey 7) (λ s. s + 5) (λ s id held. made_before-later 7 s 5 id held)
      (λ e. absurd (ground arith)) start

abbrev api : Text
api = codes "api"

put_total_example :
    (m : Machine toy) × (put toy api (some (ok (codes "hi"))) made ≡ (ok tt, m))
    × ((read_string toy api m).0 ≡ ok (codes "hi"))
put_total_example =
    put_total toy toy-IsGcm toy-IsFullRead toy-NeverFails first_key toy_options start made_world
      made_session created made here refl api (codes "hi") (λ e. absurd (ground arith))

enroll_key_total_example :
    (m : Machine toy) × (enroll_key toy (counting_key 8) (pos 3) (codes "spare") made ≡ (ok tt, m))
    × ((unlock toy
          (record { doc = m.session.doc; opts = m.session.opts })
          (counting_key 8)
          (record (m.world) { outside = m.world.outside + 5 })).0
        ≡ ok m.session)
    × (m.session.data_key ≡ made.session.data_key)
unfolding slot_occupied find_key
enroll_key_total_example =
    enroll_key_total toy toy-IsGcm toy-IsFullRead toy-NeverFails (counting_key 8) (pos 3)
      (codes "spare") made (counting_key-IsWorkingKey 8) (λ s. s + 5)
      (λ s id held. made_before-later 8 s 5 id held)
      (create-IsSound toy toy-IsGcm toy-IsFullRead first_key toy_options start made_world
        made_session created).well_formed
      refl refl refl refl ((λ e. absurd (ground (arith, e))), tt) refl
