-- ===== src/Vault/Race/Quiet.antt =====
-- The methods that leave the document of the vault alone, step by step.
use touchvault.Base.{Text, true, [], ◌≡◌, refl, arith, ap}
use touchvault.Errors.{ok, err, or_error, no_such_secret}
use touchvault.Effects.Programs.{Prog, done, tick, ◌>>=◌, ◌>>◌}
use touchvault.Platform.{Platform}
use touchvault.Sealed.Find.{find_secret}
use touchvault.Crypto.Pure.{zero_bytes, open_secret}
use touchvault.Vault.Session.{Machine, key}
use touchvault.Vault.Calls.{
  to_read, to_lock, to_put, to_delete, to_enroll, to_remove, to_force_remove, to_seal,
}
use touchvault.Vault.Steps.{
  key_step, document, open_steps, lock_steps, sealed_steps, names_steps, slots_steps,
}
use touchvault.Vault.Goroutines.{Request, asks_names, asks_slots, makes, program}
use touchvault.Vault.Goroutines.Reading.{is_quiet}

module _ {P : Platform} where
  -- Nothing but the data key is another, and one that was dropped stays dropped.
  pub record IsKept (s t : Machine P) : Type 0 where
    pub doc : t.session.doc ≡ s.session.doc
    pub opts : t.session.opts ≡ s.session.opts
    pub world : t.world ≡ s.world
    pub dropped : s.session.data_key ≡ [] → t.session.data_key ≡ []

  unfoldable pub Keeps : {A : Type 0} → Prog (Machine P) A → Type 0
  Keeps (done r) = Unit
  Keeps (tick f k) = ((s : Machine P) → IsKept s (f s)) × ((s : Machine P) → Keeps (k s))

  same-IsKept : (s : Machine P) → IsKept s s
  same-IsKept s = record { doc = refl; opts = refl; world = refl; dropped = λ e. e }

  Keeps-bind :
      {A B : Type 0} (p : Prog (Machine P) A) (g : A → Prog (Machine P) B)
      → Keeps p
      → ((a : A) → Keeps (g a))
      → Keeps (p >>= g)
  unfolding Keeps ◌>>=◌
  Keeps-bind (done (ok a)) g h k = k a
  Keeps-bind (done (err e)) g h k = tt
  Keeps-bind (tick f c) g (h, rest) k = (h, λ s. Keeps-bind (c s) g (rest s) k)

module _ (P : Platform) where
  locked-Keeps : Keeps (lock_steps P)
  unfolding Keeps lock_steps ◌>>=◌ ◌>>◌ zero_bytes
  locked-Keeps = (
    λ s. record { doc = refl; opts = refl; world = refl; dropped = λ e. ap zero_bytes e },
    λ s. (λ t. record { doc = refl; opts = refl; world = refl; dropped = λ e. refl }, λ t. tt),
  )

  opened-Keeps : (name : Text) → Keeps (open_steps P name)
  unfolding Keeps key open_steps
  opened-Keeps name =
      Keeps-bind (key_step P) _ (same-IsKept, λ s. tt)
        λ data_key.
          Keeps-bind (document P) _ (same-IsKept, λ s. tt)
            λ doc. Keeps-bind (done (or_error (find_secret doc name) no_such_secret)) _ tt λ entry.
              Keeps-bind (document P) _ (same-IsKept, λ s. tt)
                λ doc'. Keeps-bind (done (open_secret P.crypto doc' data_key entry)) _ tt λ p. tt

  pub program-Keeps : (q : Request P) → is_quiet q ≡ true → Keeps (program P q)
  unfolding program Keeps names_steps slots_steps sealed_steps ◌>>=◌
  program-Keeps asks_names h = (same-IsKept, λ s. tt)
  program-Keeps asks_slots h = (same-IsKept, λ s. tt)
  program-Keeps (makes (to_read name)) h =
      Keeps-bind (open_steps P name) _ (opened-Keeps name) (λ r. tt)
  program-Keeps (makes to_lock) h = Keeps-bind (lock_steps P) _ locked-Keeps (λ r. tt)
  program-Keeps (makes (to_put name secret)) h = absurd (ground (arith))
  program-Keeps (makes (to_delete name)) h = absurd (ground (arith))
  program-Keeps (makes (to_enroll auth slot label)) h = absurd (ground (arith))
  program-Keeps (makes (to_remove slot)) h = absurd (ground (arith))
  program-Keeps (makes (to_force_remove slot)) h = absurd (ground (arith))
  program-Keeps (makes to_seal) h = Keeps-bind (sealed_steps P) _ (same-IsKept, λ s. tt) (λ r. tt)
