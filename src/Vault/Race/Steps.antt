-- ===== src/Vault/Race/Steps.antt =====
-- The steps of a session among the sessions of its vault.
use touchvault.Base.{
  ℕ, zero, suc, Bytes, some, none, List, [], ◌∷◌, ◌≡◌, refl, arith, ap, Option-cases, inl, inr, nth,
}
use touchvault.Errors.{Result, ok}
use touchvault.Effects.Programs.{Prog, done, tick, ◌>>=◌}
use touchvault.Platform.{Platform}
use touchvault.Threads.Paused.{peel}
use touchvault.Vault.Session.{Machine}
use touchvault.Vault.Shared.{Shared, set_nth}
use touchvault.Vault.Race.{in_session, data_key_of, machine_of, put_back}

-- What follows a result.
pub done-bind :
    {S A B : Type 0} (r : Result A) (g : A → Prog S B) (a : A) → r ≡ ok a → (done r >>= g) ≡ g a
unfolding ◌>>=◌
done-bind r g a e = ap (λ (x : Result _). done x >>= g) e

pub set_nth-same : (n : ℕ) (ks : List Bytes) (d : Bytes) → nth n ks ≡ some d → set_nth n d ks ≡ ks
unfolding nth set_nth
set_nth-same n [] d e = refl
set_nth-same zero (k ∷ ks) d e = ground (arith)
set_nth-same (suc n) (k ∷ ks) d e = ap (λ (l : List Bytes). k ∷ l) (set_nth-same n ks d e)

pub set_nth-missing : (n : ℕ) (ks : List Bytes) (d : Bytes) → nth n ks ≡ none → set_nth n d ks ≡ ks
unfolding nth set_nth
set_nth-missing n [] d e = refl
set_nth-missing zero (k ∷ ks) d e = absurd (ground (arith))
set_nth-missing (suc n) (k ∷ ks) d e = ap (λ (l : List Bytes). k ∷ l) (set_nth-missing n ks d e)

module _ (P : Platform) where
  -- A session that was only read leaves the vault as it was.
  pub put_back-same : (n : ℕ) (st : Shared P) → put_back P n (machine_of P n st) st ≡ st
  unfolding data_key_of
  put_back-same n st = elim (Option-cases (nth n st.data_keys)) [
    | inl missing ↦ ground (arith, set_nth-missing n st.data_keys [] missing)
    | inr (d, found) ↦ ground (arith, set_nth-same n st.data_keys d found)
  ]

  -- A step that only reads.
  pub peel-reads :
      {A : Type 0} (n m : ℕ) (k : Machine P → Prog (Machine P) A) (st : Shared P)
      → peel (suc n) (in_session P m (tick (λ s. s) k)) st
        ≡ peel n (in_session P m (k (machine_of P m st))) st
  unfolding peel in_session
  peel-reads n m k st =
      ap (λ (t : Shared P). peel n (in_session P m (k (machine_of P m st))) t) (put_back-same m st)
