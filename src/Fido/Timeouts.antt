-- ===== src/Fido/Timeouts.antt =====
-- The time that webauthn.dll is given.
use touchvault.Base.{
  ℕ, ℤ, pos, negsuc, ◌/◌, ◌%◌, ◌^◌, ◌≡◌, to_u32, ltb_ℤ, if◌then◌else◌, refl, arith,
}
use touchvault.Authenticator.{
  EnrollRequest, DeriveRequest, enroll_timeout_or_default, derive_timeout_or_default, or_default,
}
use touchvault.Fido.Windows.{milliseconds, creation_request, assertion_request}

-- The whole milliseconds of a time that is set, in the 32 bits that the DLL is given, and a minute
-- where none is.
abbrev pub dll_timeout : ℤ → ℕ
dll_timeout (pos n) = if ltb_ℤ (pos 0) (pos n) then n / 1_000_000 % 2 ^ 32 else 60_000
dll_timeout (negsuc n) = 60_000

default_in_milliseconds : (d : ℤ) → to_u32 (milliseconds (or_default d)) ≡ dll_timeout d
unfolding to_u32 milliseconds or_default
default_in_milliseconds (pos n) = ground arith
default_in_milliseconds (negsuc n) = refl

-- A request that leaves the timeout unset, or sets a negative one, is given a minute by the DLL.
-- Any other is given its whole milliseconds, of which the low 32 bits count, so that a time below a
-- millisecond becomes 0 and one of 2^32 milliseconds starts again from 0.
pub timeouts_given :
    (window : ℕ) (e : EnrollRequest) (r : DeriveRequest)
    → ((creation_request window e).timeout_ms ≡ dll_timeout e.timeout)
      × ((assertion_request window r).timeout_ms ≡ dll_timeout r.timeout)
unfolding enroll_timeout_or_default derive_timeout_or_default
timeouts_given window e r = (default_in_milliseconds e.timeout, default_in_milliseconds r.timeout)
