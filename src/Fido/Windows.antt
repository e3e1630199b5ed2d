-- ===== src/Fido/Windows.antt =====
-- fido/webauthn_windows.go: the authenticator over webauthn.dll.
use Prim.Native.Nat.{bit_and}
use touchvault.Base.{ℕ, ℤ, pos, negsuc, ◌+◌, ◌-◌, ◌/◌, Bytes, true}
use touchvault.Base.{List, [], ◌∷◌, length, drop, is_empty, to_u32, not, ltb, ◌==◌, if◌then◌else◌}
use touchvault.Errors.{
  Result, ok, err, no_id_returned, no_prf, no_authenticator_data, answering_unknown,
}
use touchvault.Effects.{M, ◌>>=◌, ◌>>◌, pure, try, gets, raise_if}
use touchvault.Authenticator.{
  Authenticator, EnrollRequest, EnrollResult, DeriveRequest, DeriveResult, uv_is_required, validate,
  derive_timeout_or_default, enroll_timeout_or_default,
}
use touchvault.Fido.Dll.{Dll}
use touchvault.Fido.Bindings.{MakeCredentialRequest, GetAssertionRequest}
use touchvault.Fido.Bindings.Making.{make_credential}
use touchvault.Fido.Bindings.Asserting.{get_assertion}

-- `time.Duration.Milliseconds`, which rounds to zero.
unfoldable pub milliseconds : ℤ → ℤ
milliseconds (pos n) = pos (n / 1_000_000)
milliseconds (negsuc n) = let q = (n + 1) / 1_000_000 in if q == 0 then pos 0 else negsuc (q - 1)

-- Byte 32 of the authenticator data, 0 where there is none.
unfoldable pub flags_of : Bytes → ℕ
flags_of auth_data = elim (drop 32 auth_data) [ [] ↦ 0 | flags ∷ rest ↦ flags ]

-- The credential that answered, or the only one that was allowed.
unfoldable pub answering : Bytes → List Bytes → Result Bytes
answering (b ∷ id) ids = ok (b ∷ id)
answering [] (id ∷ []) = ok id
answering [] _ = err answering_unknown

-- The request that `Enroll` makes of the DLL, with the handle of the console window.
abbrev pub creation_request : ℕ → EnrollRequest → MakeCredentialRequest
creation_request window req = record {
  window_handle = window;
  rpid = req.rpid;
  rp_name = req.rp_name;
  user_id = req.user_id;
  user_name = req.user_name;
  require_uv = uv_is_required req.uv;
  timeout_ms = to_u32 (milliseconds (enroll_timeout_or_default req));
}

-- The request that `Derive` makes of the DLL, with the handle of the console window.
abbrev pub assertion_request : ℕ → DeriveRequest → GetAssertionRequest
assertion_request window req = record {
  window_handle = window;
  rpid = req.rpid;
  credential_ids = req.credential_ids;
  salt = req.salt;
  require_uv = uv_is_required req.uv;
  timeout_ms = to_u32 (milliseconds (derive_timeout_or_default req));
}

module _ {S : Type 0} (D : Dll S) where
  -- `windowsAuthenticator.Enroll`
  unfoldable pub enroll : EnrollRequest → M S EnrollResult
  enroll req = do
    window ← gets D.console_window
    res ← make_credential D (creation_request window req)
    raise_if (is_empty res.credential_id) no_id_returned
    pure (record {
      credential_id = res.credential_id;
      prf_enabled = true;
      resident_key = res.resident_key;
      attestation_format = res.attestation_format;
      attestation_alg = res.attestation_alg;
      attestation_signature = res.attestation_signature;
      authenticator_data = res.authenticator_data;
      client_data_hash = res.client_data_hash;
      attestation_certs = res.attestation_certs;
    })

  -- `windowsAuthenticator.Derive`
  unfoldable pub derive : DeriveRequest → M S DeriveResult
  derive req = do
    try (validate req)
    window ← gets D.console_window
    res ← get_assertion D (assertion_request window req)
    raise_if (is_empty res.hmac_secret) no_prf
    raise_if (ltb (length res.authenticator_data) 33) no_authenticator_data
    let flags = flags_of res.authenticator_data
    answered ← try (answering res.answering_credential req.credential_ids)
    pure (record {
      secret = res.hmac_secret;
      credential_id = answered;
      user_present = not (bit_and flags 0x01 == 0);
      user_verified = not (bit_and flags 0x04 == 0);
    })

  -- `newAuthenticator`
  abbrev pub windows_authenticator : Result (Authenticator S)
  windows_authenticator = ok (record { enroll = enroll; derive = derive })
