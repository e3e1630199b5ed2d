-- ===== src/Entropy/Gate.antt =====
-- What the gate lets through.
use Prim.Native.Nat.{bit_xor, bit_xor-bitwise, bitwise, digits, differ}
use touchvault.Base.{
  ℕ, ◌+◌, ◌*◌, ◌/◌, ◌%◌, zero, suc, Bytes, Text, Bool, true, List, [], ◌∷◌, ◌++◌, ◌≡◌, ◌≢◌,
}
use touchvault.Base.{nat_Eq, ◌<◌, length, take, arith, list_eq_iff, inl, inr, refl, ap, sym, ◌∙◌}
use touchvault.Errors.{ok, Result-cases}
use touchvault.Authenticator.{
  Authenticator, UserVerification, DeriveResult, DeriveRequest, derive_request, salt_len,
}
use touchvault.Platform.{Platform}
use touchvault.World.{World, derived}
use touchvault.Entropy.{flip_last, verify_derivation_depends_on_salt}

pub length-flip_last : (b : Bytes) → length (flip_last b) ≡ length b
unfolding flip_last
length-flip_last [] = refl
length-flip_last (x ∷ []) = refl
length-flip_last (x ∷ y ∷ rest) = ap suc (length-flip_last (y ∷ rest))

-- The probe and the salt agree up to any length below the whole.
pub take-flip_last : (n : ℕ) (b : Bytes) → n < length b → take n (flip_last b) ≡ take n b
unfolding flip_last
take-flip_last zero b h = refl
take-flip_last (suc n) [] h = refl
take-flip_last (suc zero) (x ∷ []) h = absurd (omega arith)
take-flip_last (suc (suc n)) (x ∷ []) h = absurd (omega arith)
take-flip_last (suc n) (x ∷ y ∷ rest) h =
    ap (λ r. x ∷ r) (take-flip_last n (y ∷ rest) (omega arith))

-- A number whose lowest digit was changed is another number.
other_digit : (q r x : ℕ) → x % 2 ≡ r → q * 2 + differ r 1 ≢ x
other_digit q zero x h e = absurd (omega arith)
other_digit q (suc zero) x h e = absurd (omega arith)
other_digit q (suc (suc r)) x h e = absurd (omega arith)

bitwise-ne : (x : ℕ) → bitwise (λ b. b) differ x 0xFF ≢ x
bitwise-ne zero e = absurd (omega arith)
bitwise-ne (suc x) e =
    other_digit (digits (λ b. b) differ x (suc x / 2) (0xFF / 2)) (suc x % 2) (suc x) refl e

bit_xor-ne : (x : ℕ) → bit_xor x 0xFF ≢ x
bit_xor-ne x e = bitwise-ne x (sym (λ i. bit_xor-bitwise x 0xFF i) ∙ e)

-- The probe is not the salt.
pub flip_last-ne : (b : Bytes) → b ≢ [] → flip_last b ≢ b
unfolding flip_last
flip_last-ne [] h e = h refl
flip_last-ne (x ∷ []) h e = bit_xor-ne x (ground arith)
flip_last-ne (x ∷ y ∷ rest) h e =
    flip_last-ne (y ∷ rest) (λ n. absurd (ground arith)) (ground arith)

module _ (P : Platform) where
  -- The gate passes only on an answer over the salt with its last byte flipped that a touch was
  -- reported for, under the same user verification, with an output that is neither empty nor the
  -- one before. It asks for one touch.
  pub verify-eq-ok :
      (auth : Authenticator P.Outside) (rpid : Text) (id salt real : Bytes) (uv : UserVerification)
      (observed : Bool) (w w' : World P)
      → verify_derivation_depends_on_salt P auth rpid id salt real uv observed w ≡ (ok tt, w')
      → let req = derive_request rpid (id ∷ []) (flip_last salt) uv in
        (got : DeriveResult) × ((auth.derive req w.outside).0 ≡ ok got)
        × (length salt ≡ salt_len)
        × (got.user_present ≡ true)
        × (got.user_verified ≡ observed)
        × (got.secret ≢ [])
        × (got.secret ≢ real)
        × (w'.gestures ≡ w.gestures ++ (derived req ∷ []))
  unfolding verify_derivation_depends_on_salt
  verify-eq-ok auth rpid id salt real uv observed w w' h =
      elim (Result-cases
        (auth.derive (derive_request rpid (id ∷ []) (flip_last salt) uv) w.outside).0) [
          | inr (e, failed) ↦ absurd (ground arith)
          | inl (got, answered) ↦ (
            got,
            answered,
            ground arith,
            ground arith,
            ground arith,
            ground arith,
            ground (arith, list_eq_iff got.secret real),
            ground arith,
          )
        ]

-- An authenticator whose output depends on no more than the first `n` bytes of the salt, beside
-- the relying party, the allow-list and whether it verified the operator.
pub record Truncates {S : Type 0} (auth : Authenticator S) (n : ℕ) : Type 0 where
  pub output : Text → List Bytes → Bool → Bytes → Bytes
  pub truncated :
      (req : DeriveRequest) (s : S) (got : DeriveResult)
      → (auth.derive req s).0 ≡ ok got
      → got.secret ≡ output req.rpid req.credential_ids got.user_verified (take n req.salt)

module _ (P : Platform) where
  -- The gate does not pass a truncating authenticator, given the output and the verification that
  -- it gave over the salt itself.
  pub verify_truncated :
      (auth : Authenticator P.Outside) (n : ℕ) (t : Truncates auth n) (rpid : Text)
      (id salt : Bytes) (uv : UserVerification) (real : DeriveResult) (w w' : World P)
      → n < salt_len
      → real.secret ≡ t.output rpid (id ∷ []) real.user_verified (take n salt)
      → verify_derivation_depends_on_salt P auth rpid id salt real.secret uv real.user_verified w
        ≢ (ok tt, w')
  verify_truncated auth n t rpid id salt uv real w w' small given passed =
      let (got, answered, full, present, same, nonempty, differs, _) =
        verify-eq-ok P auth rpid id salt real.secret uv real.user_verified w w' passed in
      let probe = t.truncated _ w.outside got answered in
      differs (rw (probe, same, take-flip_last n salt (omega (arith, full)), given))
