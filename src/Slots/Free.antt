-- ===== src/Slots/Free.antt =====
-- The slot that `FreeSlot` picks.
use touchvault.Base.{
  ℕ, zero, suc, ℤ, pos, negsuc, List, [], ◌∷◌, length, map, contains, int_Eq, int_eq,
}
use touchvault.Base.{
  ◌+◌, ◌≡◌, ◌≤◌, ◌<◌, true, false, arith, leb, ◌==◌, if◌then◌else◌, inl, inr, Bool-cases,
}
use touchvault.Sealed.Listing.{SlotInfo}
use touchvault.Slots.{free_from, free_slot}

abbrev at_least : ℕ → ℤ → ℕ
at_least n (pos k) = if leb n k then 1 else 0
at_least n (negsuc k) = 0

-- How many of the slots are numbered `n` or higher.
abbrev above : List ℤ → ℕ → ℕ
above [] n = 0
above (s ∷ ss) n = at_least n s + above ss n

above-length : (ss : List ℤ) (n : ℕ) → above ss n ≤ length ss
above-length [] n = omega arith
above-length (pos k ∷ ss) n = ground (arith, above-length ss n)
above-length (negsuc k ∷ ss) n = ground (arith, above-length ss n)

above-suc : (ss : List ℤ) (n : ℕ) → above ss (n + 1) ≤ above ss n
above-suc [] n = omega arith
above-suc (pos k ∷ ss) n = ground (arith, above-suc ss n)
above-suc (negsuc k ∷ ss) n = ground (arith, above-suc ss n)

above-contains : (ss : List ℤ) (n : ℕ) → contains ss (pos n) ≡ true → above ss (n + 1) < above ss n
above-contains [] n h = absurd (ground arith)
above-contains (pos k ∷ ss) n h = elim (Bool-cases (int_eq (pos k) (pos n))) [
  | inl same ↦ ground (arith, above-suc ss n)
  | inr differ ↦ ground (arith, above-contains ss n (ground arith), above-suc ss n)
]
above-contains (negsuc k ∷ ss) n h = ground (arith, above-contains ss n (ground arith))

free_from_lem :
    (fuel : ℕ) (ss : List ℤ) (n : ℕ)
    → above ss n ≤ fuel
    → (contains ss (pos (free_from fuel ss n)) ≡ false)
      × ((k : ℕ) → n ≤ k → k < free_from fuel ss n → contains ss (pos k) ≡ true)
unfolding free_from
free_from_lem zero ss n h = elim (Bool-cases (contains ss (pos n))) [
  | inl taken ↦ absurd (omega (arith, above-contains ss n taken))
  | inr free ↦ (free, λ k from below. absurd (omega arith))
]
free_from_lem (suc fuel) ss n h = elim (Bool-cases (contains ss (pos n))) [
  | inl taken ↦
      let later = free_from_lem fuel ss (n + 1) (omega (arith, above-contains ss n taken)) in
      rw taken (
        later.0,
        λ k from below. elim (Bool-cases (k == n)) [
          | inl same ↦ ground arith
          | inr differ ↦ later.1 k (ground arith) below
        ],
      )
  | inr free ↦ rw free (free, λ k from below. absurd (omega arith))
]

-- `FreeSlot` returns the lowest number, from 0 on, that no slot of the listing has.
pub free_slot_lem :
    (slots : List SlotInfo)
    → (contains (map (λ s. s.slot) slots) (pos (free_slot slots)) ≡ false)
      × ((k : ℕ) → k < free_slot slots → contains (map (λ s. s.slot) slots) (pos k) ≡ true)
unfolding free_slot
free_slot_lem slots =
    let occupied = map (λ s. s.slot) slots in
    let free = free_from_lem (length occupied) occupied 0 (above-length occupied 0) in
    (free.0, λ k below. free.1 k (omega arith) below)
