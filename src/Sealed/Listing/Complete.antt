-- ===== src/Sealed/Listing/Complete.antt =====
-- What the listings hold.
use touchvault.Base.{
  ℤ, pos, Text, Bool, true, false, List, [], ◌∷◌, none, map, contains, Eq, list_Eq, nat_Eq, int_Eq,
  ◌||◌, ◌≡◌, ◌↔◌, ◌≢◌, arith, refl, ◌∙◌, sym,
}
use touchvault.Sealed.Document.{SealedVault, SealedKey, SealedSecret}
use touchvault.Sealed.Find.{find_secret, find_secret_in, slot_in, slot_occupied}
use touchvault.Sealed.Listing.{
  SlotInfo, insert_sorted, sort, text_lt, slot_lt, slot_info, names, slots,
}
use touchvault.Slots.{free_slot}
use touchvault.Slots.Free.{free_slot_lem}

module _ {A B : Type 0} ⦃e : Eq B⦄ (less : A → A → Bool) (f : A → B) where
  contains-insert_sorted :
      (x : A) (xs : List A) (b : B)
      → contains (map f (insert_sorted less x xs)) b ≡ (e.beq (f x) b || contains (map f xs) b)
  unfolding insert_sorted
  contains-insert_sorted x [] b = refl
  contains-insert_sorted x (y ∷ ys) b = ground (arith, contains-insert_sorted x ys b)

  pub contains-sort :
      (xs : List A) (b : B) → contains (map f (sort less xs)) b ≡ contains (map f xs) b
  unfolding sort
  contains-sort [] b = refl
  contains-sort (x ∷ xs) b =
      ground (arith, contains-insert_sorted x (sort less xs) b, contains-sort xs b)

map_self : (xs : List Text) → map (λ x. x) xs ≡ xs
map_self [] = refl
map_self (x ∷ xs) = ground (arith, map_self xs)

find_secret_in-listed :
    (ss : List SealedSecret) (name : Text)
    → (contains (map (λ s. s.name) ss) name ≡ true) ↔ (find_secret_in ss name ≢ none)
unfolding find_secret_in
find_secret_in-listed [] name = ground arith
find_secret_in-listed (s ∷ ss) name = ground (arith, find_secret_in-listed ss name)

pub slots_contain :
    (ks : List SealedKey) (slot : ℤ)
    → contains (map (λ (i : SlotInfo). i.slot) (map slot_info ks)) slot ≡ slot_in ks slot
unfolding slot_in
slots_contain [] slot = refl
slots_contain (k ∷ ks) slot = ground (arith, slots_contain ks slot)

-- `Names` lists a name exactly when a secret is found under it.
pub names_iff :
    (v : SealedVault) (name : Text) → (contains (names v) name ≡ true) ↔ (find_secret v name ≢ none)
unfolding names find_secret
names_iff v name = ground (
  arith,
  map_self (sort text_lt (map (λ s. s.name) v.secrets)),
  map_self (map (λ s. s.name) v.secrets),
  contains-sort text_lt (λ x. x) (map (λ s. s.name) v.secrets) name,
  find_secret_in-listed v.secrets name,
)

-- The slot that `FreeSlot` picks from the listing of a vault's slots is one that `EnrollKey` finds
-- free in the document.
pub slot_occupied-free_slot :
    (v : SealedVault) → slot_occupied v (pos (free_slot (slots v))) ≡ false
unfolding slots slot_occupied
slot_occupied-free_slot v =
    let free = pos (free_slot (slots v)) in
    sym (slots_contain v.keys free)
    ∙ sym (contains-sort slot_lt (λ i. i.slot) (map slot_info v.keys) free)
    ∙ (free_slot_lem (slots v)).0
