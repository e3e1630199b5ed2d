-- ===== src/Tests/Provider.antt =====
-- The provider, over a DLL that answers each assertion with its salt.
use Prim.Native.Nat.{bit_and}
use touchvault.Base.{
  negsuc, pos, ◌<◌, ◌^◌, arith, ℕ, ◌≡◌, ◌≢◌, ◌↔◌, ◌≤◌, ◌++◌, ◌⊎◌, ◌==◌, refl, [], ◌∷◌, some, true,
  false, Bytes, Text, not, length, All, codes,
}
use touchvault.Errors.{ok}
use touchvault.Fido.Timeouts.{dll_timeout, timeouts_given}
use touchvault.Authenticator.{
  EnrollRequest, DeriveRequest, DeriveResult, derive_request, uv_required, validate,
}
use touchvault.Fido.{Surroundings, agent_env_markers, new}
use touchvault.Fido.Door.{new_iff}
use touchvault.Fido.Dll.{AssertionCall}
use touchvault.Fido.Dll.Outputs.{Assertion}
use touchvault.Fido.Bindings.{
  GetAssertionResult, MakeCredentialRequest, MakeCredentialResult, wide, as_bytes, byte_ptr,
  x5c_certs,
}
use touchvault.Fido.Bindings.Making.{make_credential, decoded, raw, resident}
use touchvault.Fido.Bindings.Asserting.{get_assertion, assertion_call, hints}
use touchvault.Fido.Bindings.Asked.{allowed, salted, result_of}
use touchvault.Fido.Unlocking.{windows, unlock-windows}
use touchvault.Sealed.Document.{SealedKey}
use touchvault.Sealed.Find.{find_key, credential_ids}
use touchvault.Sealed.Aad.{key_aad}
use touchvault.Crypto.Pure.{unwrap_data_key, derive_kek, open_bytes, new_gcm}
use touchvault.Vault.Options.{Vault}
use touchvault.Vault.Open.{unlock}
use touchvault.Toy.Keys.{toy, toy_options, start}
use touchvault.Toy.Device.{toy_dll}
use touchvault.Tests.Created.{made_session, unlocked_world}
use touchvault.Fido.Windows.{creation_request, derive, assertion_request, flags_of, answering}
use touchvault.Fido.Flags.{derive-eq-ok}
use touchvault.Toy.Cipher.{fit}

abbrev salt : Bytes
salt = fit 32 (9 ∷ [])

abbrev request : DeriveRequest
request = derive_request (codes "acme") ((7 ∷ []) ∷ []) salt uv_required

abbrev result : DeriveResult
result = record {
  secret = salt ++ (7 ∷ []);
  credential_id = 7 ∷ [];
  user_present = true;
  user_verified = true;
}

derived_salt : derive toy_dll request 0 ≡ (ok result, 1)
unfolding derive validate get_assertion flags_of answering as_bytes byte_ptr assertion_call wide
    hints
derived_salt = refl

derive-eq-ok_example :
    (res : GetAssertionResult) × (validate request ≡ ok tt)
    × (get_assertion toy_dll (assertion_request 1 request) 0 ≡ (ok res, 1))
    × (33 ≤ length res.authenticator_data)
    × (true ≡ not (bit_and (flags_of res.authenticator_data) 1 == 0))
    × (true ≡ not (bit_and (flags_of res.authenticator_data) 4 == 0))
    × (salt ++ (7 ∷ []) ≡ res.hmac_secret)
    × (salt ++ (7 ∷ []) ≢ [])
    × ((result.credential_id ≡ res.answering_credential)
        ⊎ ((res.answering_credential ≡ []) × (request.credential_ids ≡ result.credential_id ∷ [])))
derive-eq-ok_example = derive-eq-ok toy_dll request 0 1 result derived_salt

abbrev unnamed : DeriveRequest
unnamed = derive_request (codes "acme") [] salt uv_required

abbrev desk : Surroundings
desk = record { testing = false; is_set = λ name. false }

new_iff_example : (new desk (ok uv_required) ≡ ok uv_required) ↔ (
    (desk.testing ≡ false)
    × All (λ name. desk.is_set name ≡ false) agent_env_markers
    × (ok uv_required ≡ ok uv_required))
new_iff_example = new_iff desk (ok uv_required) uv_required

asserted : get_assertion toy_dll (assertion_request 1 request) 0 ≡ (
  ok (record {
    authenticator_data = fit 32 [] ++ (5 ∷ []);
    answering_credential = [];
    hmac_secret = salt ++ (7 ∷ []);
  }),
  1,
)
unfolding get_assertion as_bytes byte_ptr assertion_call wide hints
asserted = refl

abbrev creation : MakeCredentialRequest
creation = record {
  window_handle = 1;
  rpid = codes "acme";
  rp_name = codes "Acme";
  user_id = salt;
  user_name = codes "acme";
  require_uv = false;
  timeout_ms = 60000;
}

abbrev credential : MakeCredentialResult
credential = record {
  credential_id = 7 ∷ [];
  resident_key = false;
  resident_key_known = true;
  authenticator_data = 1 ∷ [];
  attestation_format = codes "packed";
  attestation_alg = negsuc 6;
  attestation_signature = 1 ∷ 2 ∷ [];
  attestation_certs = (5 ∷ []) ∷ [];
  client_data_hash = 2 ∷ [];
}

credential_made : make_credential toy_dll creation 0 ≡ (ok credential, 1)
unfolding make_credential wide raw decoded resident as_bytes x5c_certs
credential_made = refl

abbrev closed_vault : Vault toy
closed_vault = record { doc = made_session.doc; opts = toy_options }

unlocked : unlock toy closed_vault (windows toy_dll) start ≡ (ok made_session, unlocked_world)
unfolding unlock find_key unwrap_data_key derive_kek open_bytes new_gcm key_aad derive validate
    get_assertion flags_of answering as_bytes byte_ptr assertion_call wide hints credential_ids
unlocked = refl

short_ids : All (λ id. length id < 2 ^ 32) (credential_ids made_session.doc)
unfolding credential_ids
short_ids = (omega arith, tt)

unlock-windows_example :
    (call : AssertionCall Text) × (out : Assertion Text) × (after : ℕ) × (id : Bytes)
    × (entry : SealedKey) × (toy_dll.get_assertion call 40 ≡ ((0, some out), after))
    × (salted call ≡ made_session.doc.salt)
    × (allowed call.options.allow_credential_list.credentials ≡ credential_ids made_session.doc)
    × (bit_and (flags_of (result_of out).authenticator_data) 1 ≢ 0)
    × (true ≡ not (bit_and (flags_of (result_of out).authenticator_data) 4 == 0))
    × (find_key made_session.doc id ≡ some entry)
    × (unwrap_data_key toy.crypto made_session.doc entry (result_of out).hmac_secret
        ≡ ok made_session.data_key)
unlock-windows_example =
    unlock-windows toy toy_dll closed_vault start unlocked_world made_session short_ids unlocked

abbrev enrollment : EnrollRequest
enrollment = record {
  rpid = codes "acme";
  rp_name = codes "acme";
  user_id = 1 ∷ [];
  user_name = codes "acme";
  uv = uv_required;
  timeout = pos 1_500_000_000;
}

-- 1.5 seconds, and no timeout.
timeouts_given_example :
    ((creation_request 1 enrollment).timeout_ms ≡ dll_timeout (pos 1_500_000_000))
    × ((assertion_request 1 request).timeout_ms ≡ dll_timeout (pos 0))
timeouts_given_example = timeouts_given 1 enrollment request
