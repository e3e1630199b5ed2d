-- ===== src/Errors.antt =====
-- The errors of errors.go, and the code that can return one.
-- An error is modelled by what `errors.Is` sees: the sentinel that it is or wraps with `%w`. The
-- errors that wrap no sentinel have a constructor each; the text of a message is left out.
pub mod Chain
use touchvault.Base.{
  ℕ, Done, ◌≡◌, refl, ◌⊎◌, inl, inr, arith, Bool, true, false, Option, none, some,
}

pub data Error : Type 0 where
  -- The sentinels.
  no_such_secret slot_occupied no_such_slot unknown_credential : Error
  user_verification_mismatch not_present derivation_ignores_salt not_entropy_verified : Error
  wrong_format locked no_keys_enrolled last_key resident_key : Error
  no_attestation unsupported_attestation_format : Error
  untrusted_authenticator attestation_signature : Error
  no_prf no_authenticator_data salt_length no_credential_id : Error
  -- The sentinels of the package `fido`.
  unsupported_platform under_test under_agent : Error
  -- The errors made in place.
  rpid_required rpid_mismatch name_required value_required negative_slot already_enrolled : Error
  key_size authentication certificate_unreadable answering_unknown : Error
  no_id_returned nothing_returned : Error
  -- What the code only passes on from outside: UTF-16, webauthn.dll, the entropy source, the
  -- ciphers, the key derivation, the serializer, and with a code of its own a reader or a provider.
  not_utf16 dll_failed entropy_failed cipher_failed derivation_failed marshal_failed : Error
  outside : ℕ → Error

pub data Result {ℓ} (A : Type ℓ) : Type ℓ where
  ok : A → Result A
  err : Error → Result A

-- `if test { return err }`
abbrev pub refuse_if : Bool → Error → Result Done
refuse_if true e = err e
refuse_if false e = ok tt

-- `if missing { return err }`, for a value that may be missing.
abbrev pub or_error {ℓ} : {A : Type ℓ} → Option A → Error → Result A
or_error none e = err e
or_error (some a) e = ok a

-- `if err != nil { return err }`
abbrev pub and_then {ℓ κ} : {A : Type ℓ} {B : Type κ} → Result A → (A → Result B) → Result B
and_then (ok a) f = f a
and_then (err e) f = err e

pub Result-cases {ℓ} :
    {A : Type ℓ} (r : Result A) → ((a : A) × (r ≡ ok a)) ⊎ ((e : Error) × (r ≡ err e))
Result-cases (ok a) = inl (a, refl)
Result-cases (err e) = inr (e, refl)

-- A call that fails with no error but one.
pub record FailsOnlyWith {ℓ} {A : Type ℓ} (e : Error) (r : Result A) : Type ℓ where
  pub only : (x : Error) → r ≡ err x → x ≡ e

pub and_then-FailsOnlyWith {ℓ} :
    {A B : Type ℓ} {e : Error} {r : Result A} {f : A → Result B}
    → FailsOnlyWith e r
    → ((a : A) → FailsOnlyWith e (f a))
    → FailsOnlyWith e (and_then r f)
and_then-FailsOnlyWith {r} {f} h k = record {
  only = λ x q. elim (Result-cases r) [
    | inl (a, e) ↦ (k a).only x (rw e at q)
    | inr (y, e) ↦ h.only x (ground arith)
  ];
}

pub refuse_if-FailsOnlyWith : (e : Error) (test : Bool) → FailsOnlyWith e (refuse_if test e)
refuse_if-FailsOnlyWith e true = record { only = λ x q. ground arith }
refuse_if-FailsOnlyWith e false = record { only = λ x q. absurd (ground arith) }

-- A guard in front of a call, with the same error.
pub guarded-FailsOnlyWith {ℓ} :
    {A : Type ℓ} {e : Error} {r : Result A} (test : Bool)
    → FailsOnlyWith e r
    → FailsOnlyWith e (and_then (refuse_if test e) (λ _. r))
guarded-FailsOnlyWith {e} true h = record { only = λ x q. ground arith }
guarded-FailsOnlyWith false h = h

pub or_error-FailsOnlyWith {ℓ} :
    {A : Type ℓ} (e : Error) (o : Option A) → FailsOnlyWith e (or_error o e)
or_error-FailsOnlyWith e none = record { only = λ x q. ground arith }
or_error-FailsOnlyWith e (some a) = record { only = λ x q. absurd (ground arith) }

pub ok-FailsOnlyWith {ℓ} : {A : Type ℓ} (e : Error) (a : A) → FailsOnlyWith e (ok a)
ok-FailsOnlyWith e a = record { only = λ x q. absurd (ground arith) }

pub ruleset fails_rules =
    (and_then-FailsOnlyWith, refuse_if-FailsOnlyWith, or_error-FailsOnlyWith, ok-FailsOnlyWith)
