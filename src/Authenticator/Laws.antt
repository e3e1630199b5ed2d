-- ===== src/Authenticator/Laws.antt =====
-- What the shared request checks of authenticator.go let through.
use touchvault.Base.{ℤ, pos, Bytes, true, List, [], ◌∷◌, length, All, arith, ◌≡◌, ◌≢◌, ◌↔◌, ltb_ℤ}
use touchvault.Errors.{ok}
use touchvault.Authenticator.{DeriveRequest, validate, check_ids, or_default, salt_len}

pub check_ids_iff : (ids : List Bytes) → (check_ids ids ≡ ok tt) ↔ All (λ id. id ≢ []) ids
unfolding check_ids
check_ids_iff [] = ground arith
check_ids_iff ([] ∷ ids) = ground arith
check_ids_iff ((b ∷ id) ∷ ids) = ground (arith, check_ids_iff ids)

-- A derive request passes exactly when its allow-list is not empty, no credential ID in it is
-- empty, and its salt has 32 bytes.
pub validate_iff :
    (r : DeriveRequest)
    → (validate r ≡ ok tt) ↔ (
        (r.credential_ids ≢ []) × All (λ id. id ≢ []) r.credential_ids × (length r.salt ≡ salt_len))
unfolding validate
validate_iff r = ground (arith, check_ids_iff r.credential_ids)

-- Every timeout that a provider resolves is positive.
pub or_default_pos : (d : ℤ) → ltb_ℤ (pos 0) (or_default d) ≡ true
unfolding or_default
or_default_pos d = ground arith
