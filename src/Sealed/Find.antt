-- ===== src/Sealed/Find.antt =====
-- The lookups of sealed.go, and what is asked of the authenticator.
use touchvault.Base.{ℤ, Bytes, Text, Bool, true, false, Option, none, some, List, [], ◌∷◌}
use touchvault.Base.{list_eq, int_eq, nat_Eq, map, if◌then◌else◌}
use touchvault.Authenticator.{UserVerification, uv_required, uv_discouraged}
use touchvault.Sealed.Document.{SealedKey, SealedSecret, SealedVault}

-- The loop of `findKey`; `subtle.ConstantTimeCompare` is equality of bytes.
unfoldable pub find_key_in : List SealedKey → Bytes → Option SealedKey
find_key_in [] id = none
find_key_in (k ∷ ks) id = if list_eq k.credential_id id then some k else find_key_in ks id

-- `findKey`
unfoldable pub find_key : SealedVault → Bytes → Option SealedKey
unfolding find_key_in
find_key v id = find_key_in v.keys id

unfoldable pub slot_in : List SealedKey → ℤ → Bool
slot_in [] slot = false
slot_in (k ∷ ks) slot = if int_eq k.slot slot then true else slot_in ks slot

-- `slotOccupied`
unfoldable pub slot_occupied : SealedVault → ℤ → Bool
unfolding slot_in
slot_occupied v slot = slot_in v.keys slot

unfoldable pub find_secret_in : List SealedSecret → Text → Option SealedSecret
find_secret_in [] name = none
find_secret_in (s ∷ ss) name = if list_eq s.name name then some s else find_secret_in ss name

-- `findSecret`
unfoldable pub find_secret : SealedVault → Text → Option SealedSecret
unfolding find_secret_in
find_secret v name = find_secret_in v.secrets name

-- `credentialIDs`
unfoldable pub credential_ids : SealedVault → List Bytes
credential_ids v = map (λ k. k.credential_id) v.keys

-- `uvRequirement`
unfoldable pub uv_requirement : SealedVault → UserVerification
uv_requirement v = if v.user_verified then uv_required else uv_discouraged
