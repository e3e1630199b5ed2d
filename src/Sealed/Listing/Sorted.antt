-- ===== src/Sealed/Listing/Sorted.antt =====
-- The order of the listings.
use touchvault.Base.{
  ℤ, Text, Bool, true, false, List, [], ◌∷◌, map, ◌≡◌, arith, ltb_ℤ, inl, inr, Bool-cases, pos,
  negsuc, contains, ◌↔◌, ◌≢◌, none, ◌∙◌, list_Eq, nat_Eq, int_Eq,
}
use touchvault.Sealed.Document.{SealedVault}
use touchvault.Sealed.Find.{find_secret, slot_occupied}
use touchvault.Sealed.Listing.Complete.{names_iff, slots_contain, contains-sort}
use touchvault.Sealed.Listing.{
  SlotInfo, insert_sorted, sort, text_lt, slot_lt, slot_info, names, slots,
}

-- No entry is less than the one before it.
abbrev pub IsSorted {ℓ} : {A : Type ℓ} → (A → A → Bool) → List A → Type 0
IsSorted less [] = Unit
IsSorted less (x ∷ []) = Unit
IsSorted less (x ∷ y ∷ ys) = (less y x ≡ false) × IsSorted less (y ∷ ys)

module _ {A : Type 0} (less : A → A → Bool)
    (asymmetric : (x y : A) → less x y ≡ true → less y x ≡ false) where
  insert_sorted-IsSorted :
      (x : A) (xs : List A) → IsSorted less xs → IsSorted less (insert_sorted less x xs)
  unfolding insert_sorted
  insert_sorted-IsSorted x [] s = tt
  insert_sorted-IsSorted x (y ∷ []) s = elim (Bool-cases (less y x)) [
    | inl before ↦ rw before (asymmetric y x before, tt)
    | inr after ↦ rw after (after, tt)
  ]
  insert_sorted-IsSorted x (y ∷ z ∷ zs) s = elim (Bool-cases (less y x)) [
    | inr after ↦ rw after (after, s)
    | inl before ↦
        let rest = insert_sorted-IsSorted x (z ∷ zs) s.1 in
        elim (Bool-cases (less z x)) [
          | inl further ↦ rw (before, further) (s.0, rw further at rest)
          | inr after ↦ rw (before, after) (asymmetric y x before, rw after at rest)
        ]
  ]

  sort-IsSorted : (xs : List A) → IsSorted less (sort less xs)
  unfolding sort
  sort-IsSorted [] = tt
  sort-IsSorted (x ∷ xs) = insert_sorted-IsSorted x (sort less xs) (sort-IsSorted xs)

text_lt_asymmetric : (x y : Text) → text_lt x y ≡ true → text_lt y x ≡ false
unfolding text_lt
text_lt_asymmetric [] [] h = absurd (ground arith)
text_lt_asymmetric [] (y ∷ ys) h = ground arith
text_lt_asymmetric (x ∷ xs) [] h = absurd (ground arith)
text_lt_asymmetric (x ∷ xs) (y ∷ ys) h = ground (arith, text_lt_asymmetric xs ys)

slot_lt_asymmetric : (a b : ℤ) → ltb_ℤ a b ≡ true → ltb_ℤ b a ≡ false
slot_lt_asymmetric (pos a) (pos b) h = ground arith
slot_lt_asymmetric (pos a) (negsuc b) h = ground arith
slot_lt_asymmetric (negsuc a) (pos b) h = ground arith
slot_lt_asymmetric (negsuc a) (negsuc b) h = ground arith

-- `Names` is sorted, and lists a name exactly when a secret is found under it. `Slots` is sorted by
-- slot, and lists a slot exactly when it is occupied.
pub listings-IsSorted :
    (v : SealedVault)
    → IsSorted text_lt (names v)
      × ((name : Text) → (contains (names v) name ≡ true) ↔ (find_secret v name ≢ none))
      × IsSorted slot_lt (slots v)
      × ((slot : ℤ)
          → contains (map (λ (i : SlotInfo). i.slot) (slots v)) slot ≡ slot_occupied v slot)
unfolding names slots slot_occupied
listings-IsSorted v = (
  sort-IsSorted text_lt text_lt_asymmetric (map (λ s. s.name) v.secrets),
  names_iff v,
  sort-IsSorted slot_lt (λ a b. slot_lt_asymmetric a.slot b.slot) (map slot_info v.keys),
  λ slot.
      contains-sort slot_lt (λ i. i.slot) (map slot_info v.keys) slot ∙ slots_contain v.keys slot,
)
