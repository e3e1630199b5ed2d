-- ===== src/Slots/Line.antt =====
-- slots.go: the line that describes a slot.
use touchvault.Base.{Text, ◌≡◌, ◌++◌, codes, decimal, decimal-injective, ap, drop}
use touchvault.Sealed.Listing.{SlotInfo}

-- `SlotInfo.String`
unfoldable pub slot_string : SlotInfo → Text
slot_string s =
    codes "slot "
    ++ (decimal s.slot ++ (codes " (" ++ (s.label ++ (codes ") " ++ s.credential_id_hex))))

-- Two slots that are described alike have one number, whatever their labels and credentials say.
pub slot_string-injective : (a b : SlotInfo) → slot_string a ≡ slot_string b → a.slot ≡ b.slot
unfolding slot_string
slot_string-injective a b h = decimal-injective a.slot b.slot _ _ (ap (drop 5) h)
