-- ===== src/Vault/Goroutines/Alone.antt =====
-- The steps of every method with no one coming between, beside the method as one step.
use touchvault.Base.{◌≡◌, refl, arith, ◌∙◌}
use touchvault.Effects.{M}
use touchvault.Effects as Effects
use touchvault.Effects.Programs.{Prog, run, run-bind, ◌>>=◌, pure}
use touchvault.Platform.{Platform}
use touchvault.Vault.Session.{
  Machine, read_string, list_names, list_slots, open_name, read_all, lock, put, delete, enroll_key,
  remove_key, force_remove_key, sealed,
}
use touchvault.Vault.Calls.{
  perform, to_read, to_lock, to_put, to_delete, to_enroll, to_remove, to_force_remove, to_seal,
}
use touchvault.Vault.Steps.{
  names_steps, slots_steps, open_steps, lock_steps, put_steps, delete_steps, enroll_steps,
  remove_steps, force_remove_steps, sealed_steps,
}
use touchvault.Vault.Steps.Alone
use touchvault.Vault.Goroutines.{
  Request, asks_names, asks_slots, makes, nothing, text, respond, program,
}

-- A result that is handed on in another form.
pub run-then_pure :
    {S A B : Type 0} (p : Prog S A) (m : M S A) (g : A → B) (s : S)
    → run p s ≡ m s
    → run (p >>= λ a. pure (g a)) s ≡ Effects.◌>>=◌ m (λ a. Effects.pure (g a)) s
unfolding run
run-then_pure p m g s e = run-bind p (λ a. pure (g a)) s ∙ ground (arith, e)

module _ (P : Platform) where
  pub run-program : (q : Request P) (s : Machine P) → run (program P q) s ≡ respond P q s
  unfolding program respond perform list_names list_slots names_steps slots_steps run ◌>>=◌
      read_string
  run-program asks_names s = refl
  run-program asks_slots s = refl
  run-program (makes (to_read name)) s =
      run-then_pure (open_steps P name) (open_name P name) (λ r. text (read_all r).0) s
        (Alone.run-open_steps P name s)
      ∙ ground (arith)
  run-program (makes to_lock) s =
      run-then_pure (lock_steps P) (lock P) (λ _. nothing) s (Alone.run-lock_steps P s)
  run-program (makes (to_put name secret)) s =
      run-then_pure (put_steps P name secret) (put P name secret) (λ _. nothing) s
        (Alone.run-put_steps P name secret s)
  run-program (makes (to_delete name)) s =
      run-then_pure (delete_steps P name) (delete P name) (λ _. nothing) s
        (Alone.run-delete_steps P name s)
  run-program (makes (to_enroll auth slot label)) s =
      run-then_pure (enroll_steps P auth slot label) (enroll_key P auth slot label) (λ _. nothing) s
        (Alone.run-enroll_steps P auth slot label s)
  run-program (makes (to_remove slot)) s =
      run-then_pure (remove_steps P slot) (remove_key P slot) (λ _. nothing) s
        (Alone.run-remove_steps P slot s)
  run-program (makes (to_force_remove slot)) s =
      run-then_pure (force_remove_steps P slot) (force_remove_key P slot) (λ _. nothing) s
        (Alone.run-force_remove_steps P slot s)
  run-program (makes to_seal) s =
      run-then_pure (sealed_steps P) (sealed P) text s (Alone.run-sealed_steps P s)
