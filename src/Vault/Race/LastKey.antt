-- ===== src/Vault/Race/LastKey.antt =====
-- Two sessions of one vault that each remove a key.
use touchvault.Base.{
  ℕ, some, List, [], ◌∷◌, ◌≡◌, ◌≢◌, refl, arith, int_eq_iff, true, false, is_empty, Option-cases,
  inl, inr, ℤ, Done, not, ap, ◌∙◌, nth,
}
use touchvault.Errors.{ok, err, last_key, no_such_slot, refuse_if}
use touchvault.Effects.Programs.{Prog, run, ◌>>=◌, ◌>>◌}
use touchvault.Effects.Programs
use touchvault.Platform.{Platform}
use touchvault.Sealed.Document.{SealedKey}
use touchvault.Sealed.Find.{slot_occupied, slot_in}
use touchvault.Threads.{Event}
use touchvault.Threads.Paused.{peel, overlap}
use touchvault.Vault.Session.{Machine, remove_key, remove_entry, key, keys_without, has_one}
use touchvault.Vault.Shared.{Shared, set_nth, act}
use touchvault.Vault.Shared
use touchvault.Vault.Calls.{perform, to_remove}
use touchvault.Vault.Steps.{document, remove_steps, remove_entry_steps}
use touchvault.Vault.Goroutines.{Request, makes, Reply, nothing, program}
use touchvault.Vault.Race.{crews, mutex, in_session, method, data_key_of, machine_of}
use touchvault.Vault.Race.Steps.{done-bind, peel-reads, set_nth-same}

module _ (P : Platform) where
  abbrev finish : Prog (Machine P) Done → Prog (Machine P) Reply
  finish p = p >>= λ _. Programs.pure nothing

  abbrev check_last : ℤ → Prog (Machine P) Done
  check_last slot = document P >>= λ doc.
      Programs.raise_if (has_one doc.keys) last_key >> remove_entry_steps P slot

  abbrev check_slot : ℤ → Prog (Machine P) Done
  check_slot slot = document P >>= λ doc.
      Programs.raise_if (not (slot_occupied doc slot)) no_such_slot >> check_last slot

  -- What is left of `RemoveKey` after its checks.
  abbrev removing : ℕ → ℤ → Prog (Shared P) Reply
  removing n slot = in_session P n (finish (remove_entry_steps P slot))

  peel-remove :
      (n : ℕ) (slot : ℤ) (st : Shared P)
      → is_empty (data_key_of P n st) ≡ false
      → slot_occupied st.doc slot ≡ true
      → has_one st.doc.keys ≡ false
      → peel 3 (method P (n, makes (to_remove slot))) st ≡ some (removing n slot, st)
  unfolding peel program remove_steps ◌>>=◌ ◌>>◌ key
  peel-remove n slot st unlocked occupied two =
      let m = machine_of P n st in
      peel-reads P 2 n (λ s. finish (Programs.done (key P s).0 >>= λ _. check_slot slot)) st
      ∙ ap (λ (p : Prog (Machine P) Done). peel 2 (in_session P n (finish p)) st)
          (done-bind (key P m).0 (λ _. check_slot slot) (data_key_of P n st) (ground (arith)))
      ∙ peel-reads P 1 n
          (λ s. finish (
            Programs.raise_if (not (slot_occupied s.session.doc slot)) no_such_slot
            >> check_last slot))
          st
      ∙ ap (λ (p : Prog (Machine P) Done). peel 1 (in_session P n (finish p)) st)
          (done-bind (refuse_if (not (slot_occupied st.doc slot)) no_such_slot)
            (λ _. check_last slot) tt (ground (arith)))
      ∙ peel-reads P 0 n
          (λ s.
            finish (
              Programs.raise_if (has_one s.session.doc.keys) last_key >> remove_entry_steps P slot))
          st
      ∙ ap (λ (p : Prog (Machine P) Done). peel 0 (in_session P n (finish p)) st)
          (done-bind (refuse_if (has_one st.doc.keys) last_key) (λ _. remove_entry_steps P slot) tt
            (ground (arith)))

  -- Removing, with no one coming between.
  run-removing :
      (n : ℕ) (slot : ℤ) (st : Shared P)
      → let r = run (removing n slot) st in
        (r.0 ≡ ok nothing) × (r.1.doc.keys ≡ keys_without slot st.doc.keys)
  unfolding run remove_entry_steps in_session ◌>>=◌
  run-removing n slot st = (refl, refl)

  -- Two keys in different slots: what the checks and the loop of `RemoveKey` see of them.
  two_keys :
      (st : Shared P) (a b : SealedKey)
      → st.doc.keys ≡ a ∷ b ∷ []
      → a.slot ≢ b.slot
      → (slot_occupied st.doc a.slot ≡ true)
        × (slot_occupied st.doc b.slot ≡ true)
        × (has_one st.doc.keys ≡ false)
        × (keys_without b.slot (keys_without a.slot st.doc.keys) ≡ [])
  unfolding slot_occupied slot_in keys_without
  two_keys st a b e differ =
      let same_a = (int_eq_iff a.slot a.slot).1 refl in
      let same_b = (int_eq_iff b.slot b.slot).1 refl in
      rw (e, slot_occupied)
        (ground (arith, same_a), ground (arith, same_b), refl, ground (arith, same_a, same_b))

  last_refused :
      (n : ℕ) (st : Shared P) (b : SealedKey)
      → st.doc.keys ≡ b ∷ []
      → is_empty (data_key_of P n st) ≡ false
      → (act P (Shared.calls n (to_remove b.slot)) st).0 ≡ err last_key
  unfolding act perform remove_key key data_key_of slot_occupied slot_in
  last_refused n st b e unlocked = elim (Option-cases (nth n st.data_keys)) [
    | inl missing ↦ absurd (ground (arith))
    | inr (d, found) ↦ ground (arith, int_eq_iff b.slot b.slot)
  ]

  first_removed :
      (n : ℕ) (st : Shared P) (a b : SealedKey)
      → st.doc.keys ≡ a ∷ b ∷ []
      → a.slot ≢ b.slot
      → is_empty (data_key_of P n st) ≡ false
      → let t = act P (Shared.calls n (to_remove a.slot)) st in
        (t.0 ≡ ok tt) × (t.1.doc.keys ≡ b ∷ []) × (t.1.data_keys ≡ st.data_keys)
  unfolding act perform remove_key remove_entry key data_key_of slot_occupied slot_in keys_without
  first_removed n st a b e differ unlocked = elim (Option-cases (nth n st.data_keys)) [
    | inl missing ↦ absurd (ground (arith))
    | inr (d, found) ↦
        let same_a = (int_eq_iff a.slot a.slot).1 refl in
        let not_b = int_eq_iff b.slot a.slot in
        (
          ground (arith, same_a),
          ground (arith, same_a, not_b),
          ground (arith, same_a, set_nth-same n st.data_keys d found),
        )
  ]

  -- One after the other, the second call is refused.
  one_by_one :
      (st : Shared P) (a b : SealedKey)
      → st.doc.keys ≡ a ∷ b ∷ []
      → a.slot ≢ b.slot
      → is_empty (data_key_of P 0 st) ≡ false
      → is_empty (data_key_of P 1 st) ≡ false
      → let t = act P (Shared.calls 0 (to_remove a.slot)) st in
        (t.0 ≡ ok tt) × ((act P (Shared.calls 1 (to_remove b.slot)) t.1).0 ≡ err last_key)
  unfolding data_key_of
  one_by_one st a b e differ unlocked unlocked' =
      let t = act P (Shared.calls 0 (to_remove a.slot)) st in
      let (removed, one, same) = first_removed 0 st a b e differ unlocked in
      (removed, last_refused 1 t.1 b one (rw (same, data_key_of) unlocked'))

  -- Both calls pass their checks before either writes.
  overlapping :
      (st : Shared P) (a b : SealedKey)
      → st.doc.keys ≡ a ∷ b ∷ []
      → a.slot ≢ b.slot
      → is_empty (data_key_of P 0 st) ≡ false
      → is_empty (data_key_of P 1 st) ≡ false
      → (es : List (Event (ℕ × Request P))) × ((crews P es st).shared.doc.keys ≡ [])
        × ((crews P es st).log
            ≡ (1, (1, makes (to_remove b.slot)), ok nothing)
              ∷ (0, (0, makes (to_remove a.slot)), ok nothing)
              ∷ [])
  unfolding crews
  overlapping st a b e differ unlocked unlocked' =
      let (has_a, has_b, two, none_left) = two_keys st a b e differ in
      let (es, (left, logged)) =
        overlap (mutex P) (method P) (0, makes (to_remove a.slot)) (1, makes (to_remove b.slot)) 3 3
          st (λ h. omega (arith, h)) (peel-remove 0 a.slot st unlocked has_a two)
          (peel-remove 1 b.slot st unlocked' has_b two) in
      let ra = run-removing 0 a.slot st in
      let rb = run-removing 1 b.slot (run (removing 0 a.slot) st).1 in
      (
        es,
        ap (λ (t : Shared P). t.doc.keys) left ∙ rb.1 ∙ ap (keys_without b.slot) ra.1 ∙ none_left,
        rw (rb.0, ra.0) at logged,
      )

  -- A vault with two keys, and two sessions of it that are unlocked. Two goroutines call
  -- `RemoveKey`, one of the first session for the one slot, and one of the second session for the
  -- other. One after the other, the first call succeeds and the second is refused, as its key is
  -- the last one. But there is a schedule of their steps by which both calls succeed, and the vault
  -- has no key left.
  pub remove_race :
      (st : Shared P) (a b : SealedKey)
      → st.doc.keys ≡ a ∷ b ∷ []
      → a.slot ≢ b.slot
      → is_empty (data_key_of P 0 st) ≡ false
      → is_empty (data_key_of P 1 st) ≡ false
      → (let t = act P (Shared.calls 0 (to_remove a.slot)) st in
          (t.0 ≡ ok tt) × ((act P (Shared.calls 1 (to_remove b.slot)) t.1).0 ≡ err last_key))
        × ((es : List (Event (ℕ × Request P))) × ((crews P es st).shared.doc.keys ≡ [])
            × ((crews P es st).log
                ≡ (1, (1, makes (to_remove b.slot)), ok nothing)
                  ∷ (0, (0, makes (to_remove a.slot)), ok nothing)
                  ∷ []))
  remove_race st a b e differ unlocked unlocked' = (
    one_by_one st a b e differ unlocked unlocked',
    overlapping st a b e differ unlocked unlocked',
  )
