-- ===== src/Sealed/Listing.antt =====
-- The listings of sealed.go: `sort` is an insertion sort here, which gives the same list where
-- no two entries compare alike.
pub mod Complete
pub mod Sorted
use touchvault.Base.{ℕ, ℤ, Bytes, Text, Bool, true, false, List, [], ◌∷◌, ◌+◌, ◌/◌, ◌%◌}
use touchvault.Base.{ltb, ◌==◌, ltb_ℤ, ◌&&◌, ◌||◌, take, map, if◌then◌else◌}
use touchvault.Sealed.Document.{SealedVault, SealedKey}

-- slots.go, `SlotInfo`
pub record SlotInfo : Type 0 where
  pub slot : ℤ
  pub label : Text
  pub credential_id_hex : Text

-- Go's `<` on strings.
unfoldable pub text_lt : Text → Text → Bool
text_lt [] [] = false
text_lt [] (y ∷ ys) = true
text_lt (x ∷ xs) [] = false
text_lt (x ∷ xs) (y ∷ ys) = ltb x y || x == y && text_lt xs ys

-- The order of the slots in a listing.
abbrev pub slot_lt : SlotInfo → SlotInfo → Bool
slot_lt a b = ltb_ℤ a.slot b.slot

module _ {A : Type 0} (less : A → A → Bool) where
  unfoldable pub insert_sorted : A → List A → List A
  insert_sorted x [] = x ∷ []
  insert_sorted x (y ∷ ys) = if less y x then y ∷ insert_sorted x ys else x ∷ y ∷ ys

  unfoldable pub sort : List A → List A
  unfolding insert_sorted
  sort [] = []
  sort (x ∷ xs) = insert_sorted x (sort xs)

abbrev hex_digit : ℕ → ℕ
hex_digit d = if ltb d 10 then d + b'0' else d + 87

-- `%x` of bytes.
unfoldable pub hex : Bytes → Text
hex [] = []
hex (b ∷ bs) = hex_digit (b / 16) ∷ hex_digit (b % 16) ∷ hex bs

abbrev pub credential_id_prefix_len : ℕ
credential_id_prefix_len = 8

abbrev pub slot_info : SealedKey → SlotInfo
slot_info k = record {
  slot = k.slot;
  label = k.label;
  credential_id_hex = hex (take credential_id_prefix_len k.credential_id);
}

-- `names`
unfoldable pub names : SealedVault → List Text
unfolding sort text_lt
names v = sort text_lt (map (λ s. s.name) v.secrets)

-- `slots`
unfoldable pub slots : SealedVault → List SlotInfo
unfolding sort hex
slots v = sort slot_lt (map slot_info v.keys)
