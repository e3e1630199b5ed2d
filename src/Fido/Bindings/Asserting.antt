-- ===== src/Fido/Bindings/Asserting.antt =====
-- syscall_windows.go: `GetAssertion`.
use touchvault.Base.{ℕ, pos, none, some, List, [], ◌∷◌}
use touchvault.Base.{map, leb, not, ◌==◌, if◌then◌else◌}
use touchvault.Errors.{ok, dll_failed, nothing_returned}
use touchvault.Effects.{M, ◌>>=◌, ◌>>◌, pure, raise_if, or_raise}
use touchvault.Fido.Constants.{
  hash_algorithm_sha256, credential_type_public_key, attachment_cross_platform,
  assertion_hmac_secret_values_flag, get_assertion_options_version_salt,
  get_assertion_options_version_hints, api_version_for_hints, credential_hint_security_key,
}
use touchvault.Fido.Dll.{AssertionCall, Dll}
use touchvault.Fido.Bindings.{
  as_bytes, byte_ptr, len_u32, dll_uv, GetAssertionRequest, GetAssertionResult, client_data,
  credential_ex, wide,
}

module _ {S : Type 0} (D : Dll S) where
  -- The version of the options, and the hint that a security key is meant, for a DLL that knows
  -- hints.
  unfoldable pub hints : M S (ℕ × List D.Wide)
  hints =
      if leb api_version_for_hints D.api_version
      then (wide D credential_hint_security_key >>= λ hint.
          pure (get_assertion_options_version_hints, hint ∷ []))
      else pure (get_assertion_options_version_salt, [])

  -- The call that `GetAssertion` makes, with the texts converted.
  unfoldable pub assertion_call :
      GetAssertionRequest
      → (rp_id credential_type hash_alg : D.Wide) → ℕ × List D.Wide
      → AssertionCall D.Wide
  assertion_call req rp_id credential_type hash_alg (version, hint_list) = record {
    window = req.window_handle;
    rp_id = rp_id;
    client = client_data hash_alg;
    options = record {
      version = version;
      timeout_milliseconds = req.timeout_ms;
      allow_credentials = record { count = 0; credentials = 0 };
      ext = record { count = 0; extensions = [] };
      authenticator_attachment = attachment_cross_platform;
      user_verification_req = dll_uv req.require_uv;
      flags = assertion_hmac_secret_values_flag;
      u2f_app_id = 0;
      u2f_app_id_used = 0;
      cancellation_id = 0;
      allow_credential_list = record {
        count = len_u32 req.credential_ids;
        credentials = map (credential_ex credential_type) req.credential_ids;
      };
      cred_large_blob_operation = 0;
      cred_large_blob_len = 0;
      cred_large_blob = 0;
      hmac_secret_salt_values = record {
        global_salt = record {
          first_len = len_u32 req.salt;
          first = byte_ptr req.salt;
          second_len = 0;
          second = 0;
        };
        list_count = 0;
        list = 0;
      };
      browser_in_private_mode = pos 0;
      linked_device = 0;
      auto_fill = pos 0;
      json_ext_len = 0;
      json_ext = 0;
      credential_hints_count = len_u32 hint_list;
      credential_hints = hint_list;
    };
  }

  -- `GetAssertion`
  unfoldable pub get_assertion : GetAssertionRequest → M S GetAssertionResult
  get_assertion req = do
    rp_id ← wide D req.rpid
    credential_type ← wide D credential_type_public_key
    hash_alg ← wide D hash_algorithm_sha256
    hint_list ← hints
    let call = assertion_call req rp_id credential_type hash_alg hint_list
    (hr, answer) ← λ s. let (r, t) = D.get_assertion call s in (ok r, t)
    raise_if (not (hr == 0)) dll_failed
    out ← or_raise answer nothing_returned
    pure (record {
      authenticator_data = as_bytes out.authenticator_data out.authenticator_data_len;
      answering_credential = as_bytes out.credential.id out.credential.id_len;
      hmac_secret = elim out.hmac_secret [ none ↦ [] | some b ↦ as_bytes b.first b.first_len ];
    })
