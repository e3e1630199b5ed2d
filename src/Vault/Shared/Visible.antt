-- ===== src/Vault/Shared/Visible.antt =====
-- What one session of a vault sees of another.
use touchvault.Base.{
  ℕ, zero, suc, Bytes, Text, List, [], ◌∷◌, some, ◌≡◌, ◌≢◌, false, inl, inr, arith, refl, ap,
  is_empty, list_eq, nat_Eq, if◌then◌else◌, nth, nth-All,
}
use touchvault.Errors.{ok}
use touchvault.Effects.Runs.{Run-cases}
use touchvault.Platform.{Platform, IsFullRead}
use touchvault.Platform.Ciphers.{IsGcm}
use touchvault.Sealed.Document.{SealedVault}
use touchvault.Vault.Session.{Machine, read_string, put, lock}
use touchvault.Vault.Session.Reading.{read_string_lem}
use touchvault.Vault.Session.Writing.{put-eq-ok, read_string-put}
use touchvault.Vault.Calls.{perform, to_put, to_lock}
use touchvault.Vault.Shared.{Shared, set_nth, calls, machine, act}
use touchvault.Vault.Shared.Sound.{IsSharedSound, Held}

nth-set_nth :
    {A : Type 0} (i j : ℕ) (a b : A) (xs : List A)
    → nth j xs ≡ some b
    → i ≢ j
    → nth j (set_nth i a xs) ≡ some b
unfolding nth set_nth
nth-set_nth i j a b [] h d = h
nth-set_nth zero zero a b (x ∷ xs) h d = absurd (d refl)
nth-set_nth zero (suc j) a b (x ∷ xs) h d = h
nth-set_nth (suc i) zero a b (x ∷ xs) h d = h
nth-set_nth (suc i) (suc j) a b (x ∷ xs) h d = nth-set_nth i j a b xs h (λ e. d (ap suc e))

nth-set_nth_same :
    {A : Type 0} (i : ℕ) (a b : A) (xs : List A)
    → nth i xs ≡ some b
    → nth i (set_nth i a xs) ≡ some a
unfolding nth set_nth
nth-set_nth_same i a b [] h = absurd (ground arith)
nth-set_nth_same zero a b (x ∷ xs) h = refl
nth-set_nth_same (suc i) a b (x ∷ xs) h = nth-set_nth_same i a b xs h

-- Putting back what is there changes nothing.
set_nth_again : {A : Type 0} (i : ℕ) (a : A) (xs : List A) → nth i xs ≡ some a → set_nth i a xs ≡ xs
unfolding nth set_nth
set_nth_again i a [] h = refl
set_nth_again zero a (x ∷ xs) h = ground arith
set_nth_again (suc i) a (x ∷ xs) h = ap (λ r. x ∷ r) (set_nth_again i a xs h)

module _ (P : Platform) (st t : Shared P) (i j : ℕ) (k d : Bytes) where
  -- `Lock` of one session locks that one: it has no data key any more, any other session has the
  -- one that it had, and the document is the same.
  pub nth-act_lock :
      nth i st.data_keys ≡ some k
      → nth j st.data_keys ≡ some d
      → i ≢ j
      → act P (calls i to_lock) st ≡ (ok tt, t)
      → (nth i t.data_keys ≡ some []) × (nth j t.data_keys ≡ some d) × (t.doc ≡ st.doc)
  unfolding act perform lock
  nth-act_lock here there differ done = ground (
    arith,
    nth-set_nth_same i [] k st.data_keys here,
    nth-set_nth i j [] d st.data_keys there differ,
  )

module _ (P : Platform) (law : IsGcm P.crypto) (full : IsFullRead P) (h : SealedVault)
    (data_key : Bytes) where
  -- In a sound vault, where the ciphers and the entropy source work as documented: what one session
  -- puts, every unlocked session of the same vault reads, itself and the others, and every other
  -- name reads as before. The data keys of the sessions stay.
  pub read_string-act_put :
      (st t : Shared P) (i j : ℕ) (k d : Bytes) (name other : Text) (p : Bytes)
      → IsSharedSound P h data_key st
      → nth i st.data_keys ≡ some k
      → nth j st.data_keys ≡ some d
      → is_empty d ≡ false
      → act P (calls i (to_put name (some (ok p)))) st ≡ (ok tt, t)
      → (t.data_keys ≡ st.data_keys)
        × ((read_string P other (machine P t d)).0
            ≡ (if list_eq name other then ok p else (read_string P other (machine P st d)).0))
  unfolding act perform
  read_string-act_put st t i j k d name other p sound here there unlocked done =
      elim (Run-cases (put P name (some (ok p)) (machine P st k))) [
        | inr (e, m, failed) ↦ absurd (ground arith)
        | inl (u, m, made) ↦
            let (_, _, _, _, _, k_unlocked, _, after) =
              put-eq-ok P name (some (ok p)) (machine P st k) m made in
            let k_same = nth-All (Held data_key) i st.data_keys sound.held here in
            let d_same = nth-All (Held data_key) j st.data_keys sound.held there in
            let same : d ≡ k = ground (arith, k_same, d_same) in
            let kept : m.session.data_key ≡ k = ap (λ (n : Machine P). n.session.data_key) after in
            let keys : t.data_keys ≡ st.data_keys =
              ground (arith, set_nth_again i k st.data_keys here) in
            let reads = read_string-put P law full name p other (machine P st k) m made in
            (
              keys,
              ground (
                arith,
                same,
                kept,
                reads,
                read_string_lem P other (machine P t d),
                read_string_lem P other (machine P st d),
                read_string_lem P other (machine P st k),
                read_string_lem P other m,
              ),
            )
      ]
