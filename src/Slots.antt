-- ===== src/Slots.antt =====
-- slots.go: choosing a free slot.
pub mod Free
pub mod Line
use touchvault.Base.{ℕ, zero, suc, ℤ, pos, List, length, map, contains, int_Eq, if◌then◌else◌, ◌+◌}
use touchvault.Sealed.Listing.{SlotInfo}

-- The loop of `FreeSlot` from `n`, with fuel.
unfoldable pub free_from : ℕ → List ℤ → ℕ → ℕ
free_from zero occupied n = n
free_from (suc fuel) occupied n =
    let later = free_from fuel occupied (n + 1) in if contains occupied (pos n) then later else n

-- `FreeSlot`. One round for each occupied slot is enough.
unfoldable pub free_slot : List SlotInfo → ℕ
unfolding free_from
free_slot slots = let occupied = map (λ s. s.slot) slots in free_from (length occupied) occupied 0
