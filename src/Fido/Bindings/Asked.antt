-- ===== src/Fido/Bindings/Asked.antt =====
-- What webauthn.dll is asked for in an assertion, and what is read from its answer.
use touchvault.Base.{
  ℕ, Bytes, List, [], ◌∷◌, ◌≡◌, ◌<◌, ◌^◌, ◌%◌, All, none, some, take, length, map, arith, refl, ap,
  inl, inr, Option-cases,
}
use touchvault.Errors.{ok}
use touchvault.Effects.Runs.{Run-cases}
use touchvault.Fido.Constants.{
  hash_algorithm_sha256, credential_type_public_key, assertion_hmac_secret_values_flag,
}
use touchvault.Fido.Dll.{AssertionCall, Dll}
use touchvault.Fido.Dll.Inputs.{CredentialEx}
use touchvault.Fido.Dll.Outputs.{Assertion}
use touchvault.Fido.Bindings.{
  as_bytes, byte_ptr, len_u32, dll_uv, wide, credential_ex, GetAssertionRequest, GetAssertionResult,
}
use touchvault.Fido.Bindings.Asserting.{assertion_call, get_assertion, hints}

take-length : (b : Bytes) → take (length b) b ≡ b
take-length [] = refl
take-length (x ∷ b) = ap (λ r. x ∷ r) (take-length b)

-- A slice that is passed as a pointer and a 32-bit length arrives whole.
pub as_bytes-byte_ptr : (b : Bytes) → length b < 2 ^ 32 → as_bytes (byte_ptr b) (len_u32 b) ≡ b
unfolding as_bytes byte_ptr len_u32
as_bytes-byte_ptr [] h = refl
as_bytes-byte_ptr (x ∷ b) h = rw (modulo h) (take-length (x ∷ b))
  where
    modulo : {n : ℕ} → n < 2 ^ 32 → n % 2 ^ 32 ≡ n
    modulo h = omega (arith, h)

-- The credential IDs that an allow-list names.
abbrev pub allowed : {Wide : Type 0} → List (CredentialEx Wide) → List Bytes
allowed cs = map (λ c. as_bytes c.id c.id_len) cs

allowed-credential_ex :
    {Wide : Type 0} (t : Wide) (ids : List Bytes)
    → All (λ id. length id < 2 ^ 32) ids
    → allowed (map (credential_ex t) ids) ≡ ids
unfolding credential_ex
allowed-credential_ex t [] h = refl
allowed-credential_ex t (id ∷ ids) h =
    rw (as_bytes-byte_ptr id h.0) (ap (λ r. id ∷ r) (allowed-credential_ex t ids h.1))

-- The salt that a call hands over.
abbrev pub salted : {Wide : Type 0} → AssertionCall Wide → Bytes
salted call =
    let salt = call.options.hmac_secret_salt_values.global_salt in
    as_bytes salt.first salt.first_len

-- What an output structure holds.
abbrev pub result_of : {Wide : Type 0} → Assertion Wide → GetAssertionResult
result_of out = record {
  authenticator_data = as_bytes out.authenticator_data out.authenticator_data_len;
  answering_credential = as_bytes out.credential.id out.credential.id_len;
  hmac_secret = elim out.hmac_secret [ none ↦ [] | some b ↦ as_bytes b.first b.first_len ];
}

module _ {S : Type 0} (D : Dll S) where
  get_assertion-eq-ok :
      (req : GetAssertionRequest) (s s' : S) (res : GetAssertionResult)
      → get_assertion D req s ≡ (ok res, s')
      → (rp_id : D.Wide) × (t : D.Wide) × (h : D.Wide) × (hint_list : ℕ × List D.Wide)
        × (out : Assertion D.Wide) × (D.utf16_ptr req.rpid ≡ some rp_id)
        × (D.get_assertion (assertion_call D req rp_id t h hint_list) s ≡ ((0, some out), s'))
        × (res ≡ result_of out)
  unfolding get_assertion wide hints
  get_assertion-eq-ok req s s' res h = elim (Option-cases (D.utf16_ptr req.rpid)) [
    | inl failed ↦ absurd (ground arith)
    | inr (rp_id, rp) ↦ elim (Option-cases (D.utf16_ptr credential_type_public_key)) [
      | inl failed ↦ absurd (ground arith)
      | inr (t, ct) ↦ elim (Option-cases (D.utf16_ptr hash_algorithm_sha256)) [
        | inl failed ↦ absurd (ground arith)
        | inr (hash_alg, ha) ↦ elim (Run-cases (hints D s)) [
          | inr (e, s₁, failed) ↦ absurd (ground arith)
          | inl (hint_list, s₁, hinted) ↦
              let call = assertion_call D req rp_id t hash_alg hint_list in
              elim (Option-cases (D.get_assertion call s).0.1) [
                | inl failed ↦ absurd (ground arith)
                | inr (out, answered) ↦
                    (rp_id, t, hash_alg, hint_list, out, rp, ground arith, ground arith)
              ]
        ]
      ]
    ]
  ]

  -- Where no credential ID and no salt is longer than 2 ^ 32 - 1 bytes, an assertion that is
  -- returned was asked of webauthn.dll in one call for the RP ID, the whole salt, the whole
  -- allow-list and the verification of the request, with raw hmac-secret output, the DLL reported
  -- success, and the result is what its structure holds.
  pub get_assertion_asked :
      (req : GetAssertionRequest) (s s' : S) (res : GetAssertionResult)
      → length req.salt < 2 ^ 32
      → All (λ id. length id < 2 ^ 32) req.credential_ids
      → get_assertion D req s ≡ (ok res, s')
      → (call : AssertionCall D.Wide) × (out : Assertion D.Wide) × (D.get_assertion call s
          ≡ ((0, some out), s'))
        × (D.utf16_ptr req.rpid ≡ some call.rp_id)
        × (salted call ≡ req.salt)
        × (allowed call.options.allow_credential_list.credentials ≡ req.credential_ids)
        × (call.options.user_verification_req ≡ dll_uv req.require_uv)
        × (call.options.flags ≡ assertion_hmac_secret_values_flag)
        × (res ≡ result_of out)
  unfolding assertion_call
  get_assertion_asked req s s' res short_salt short_ids h =
      let (rp_id, t, hash_alg, hint_list, out, rp, asked, result) =
        get_assertion-eq-ok req s s' res h in
      (
        assertion_call D req rp_id t hash_alg hint_list,
        out,
        asked,
        rp,
        as_bytes-byte_ptr req.salt short_salt,
        allowed-credential_ex t req.credential_ids short_ids,
        refl,
        refl,
        result,
      )
