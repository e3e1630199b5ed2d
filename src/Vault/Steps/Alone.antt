-- ===== src/Vault/Steps/Alone.antt =====
-- The steps of a method with no one coming between, beside the method as one step.
use touchvault.Base.{
  ℤ, Bytes, Text, Option, none, some, List, [], ◌∷◌, ◌≡◌, refl, arith, inl, inr, nat_Eq,
}
use touchvault.Errors.{Result, ok, err}
use touchvault.Effects.Programs.{run, ◌>>=◌, ◌>>◌}
use touchvault.Effects.Runs.{Run-cases}
use touchvault.Crypto.Seal.{seal_secret}
use touchvault.Crypto.Fields.{seal_secret-fields}
use touchvault.Authenticator.{Authenticator}
use touchvault.Platform.{Platform}
use touchvault.Sealed.Document.{SealedSecret}
use touchvault.Vault.Session.{
  Machine, key, open_name, put, delete, enroll_key, remove_key, remove_entry, force_remove_key,
  sealed, lock, put_secret, delete_secret,
}
use touchvault.Vault.Steps

-- The loop of `Put` puts the entry where the search stops.
put_secret-index_of :
    (entry : SealedSecret) (ss : List SealedSecret)
    → Steps.store_entry (Steps.index_of entry.name ss) entry ss ≡ put_secret entry ss
unfolding Steps.store_entry Steps.index_of put_secret Steps.set_at
put_secret-index_of entry [] = refl
put_secret-index_of entry (s ∷ ss) = ground (arith, put_secret-index_of entry ss)

-- The loop of `Delete` takes the entry out at which the search stops.
delete_secret-index_of :
    (name : Text) (ss : List SealedSecret)
    → delete_secret name ss
      ≡ elim (Steps.index_of name ss) [ none ↦ none | some i ↦ some (Steps.remove_at i ss) ]
unfolding Steps.remove_at Steps.index_of delete_secret
delete_secret-index_of name [] = refl
delete_secret-index_of name (s ∷ ss) = ground (arith, delete_secret-index_of name ss)

module _ (P : Platform) where
  pub run-open_steps :
      (name : Text) (s : Machine P) → run (Steps.open_steps P name) s ≡ open_name P name s
  unfolding Steps.open_steps open_name run ◌>>=◌
  run-open_steps name s = ground (arith)

  pub run-lock_steps : (s : Machine P) → run (Steps.lock_steps P) s ≡ lock P s
  unfolding Steps.lock_steps lock run ◌>>=◌ ◌>>◌
  run-lock_steps s = refl

  pub run-sealed_steps : (s : Machine P) → run (Steps.sealed_steps P) s ≡ sealed P s
  unfolding Steps.sealed_steps sealed run ◌>>=◌ ◌>>◌
  run-sealed_steps s = ground (arith)

  pub run-delete_steps :
      (name : Text) (s : Machine P) → run (Steps.delete_steps P name) s ≡ delete P name s
  unfolding Steps.delete_steps delete key run ◌>>=◌ ◌>>◌
  run-delete_steps name s = ground (arith, delete_secret-index_of name s.session.doc.secrets)

  pub run-remove_steps :
      (slot : ℤ) (s : Machine P) → run (Steps.remove_steps P slot) s ≡ remove_key P slot s
  unfolding Steps.remove_steps Steps.remove_entry_steps remove_key remove_entry run ◌>>=◌ ◌>>◌
  run-remove_steps slot s = ground (arith)

  pub run-force_remove_steps :
      (slot : ℤ) (s : Machine P)
      → run (Steps.force_remove_steps P slot) s ≡ force_remove_key P slot s
  unfolding Steps.force_remove_steps Steps.remove_entry_steps force_remove_key remove_entry run
      ◌>>=◌ ◌>>◌
  run-force_remove_steps slot s = ground (arith)

  pub run-put_steps :
      (name : Text) (secret : Option (Result Bytes)) (s : Machine P)
      → run (Steps.put_steps P name secret) s ≡ put P name secret s
  unfolding Steps.put_steps put key run ◌>>=◌ ◌>>◌
  run-put_steps name none s = ground (arith)
  run-put_steps name (some (err e)) s = ground (arith)
  run-put_steps name (some (ok p)) s =
      let doc = s.session.doc in
      elim (Run-cases (seal_secret P doc s.session.data_key name p s.world)) [
        | inr (e, w, failed) ↦ ground (arith)
        | inl (entry, w, made) ↦
            let (named, _) = seal_secret-fields P doc s.session.data_key name p s.world w made in
            let put_at = put_secret-index_of entry doc.secrets in ground (arith, rw named at put_at)
      ]

  pub run-enroll_steps :
      (auth : Authenticator P.Outside) (slot : ℤ) (label : Text) (s : Machine P)
      → run (Steps.enroll_steps P auth slot label) s ≡ enroll_key P auth slot label s
  unfolding Steps.enroll_steps Steps.enrolling_steps enroll_key key run ◌>>=◌ ◌>>◌
  run-enroll_steps auth slot label s = ground (arith)
