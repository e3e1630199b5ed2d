-- ===== src/Fido/Bindings/Created.antt =====
-- What webauthn.dll is asked for in an enrollment, and what is read from its answer.
use touchvault.Base.{
  pos, true, [], ◌∷◌, ◌≡◌, ◌==◌, ◌⊎◌, none, Bool-cases, List-cases, ◌≢◌, ◌≤◌, ◌<◌, ◌^◌, ◌↔◌, some,
  length, map, arith, refl, inl, inr, Option-cases, int_eq_iff,
}
use touchvault.Errors.{ok}
use touchvault.Fido.Constants.{
  hash_algorithm_sha256, credential_type_public_key, extension_identifier_hmac_secret,
  attestation_conveyance_direct, attestation_decode_common,
}
use touchvault.Fido.Dll.{MakeCall, Dll}
use touchvault.Fido.Dll.Outputs.{CredentialAttestation, CommonAttestation}
use touchvault.Fido.Bindings.{
  as_bytes, dll_uv, wide, client_json, MakeCredentialRequest, MakeCredentialResult, x5c_certs,
}
use touchvault.Fido.Bindings.Making.{make_call, make_credential, decoded, raw, resident}
use touchvault.Fido.Bindings.Asked.{as_bytes-byte_ptr}

module _ {S : Type 0} (D : Dll S) where
  -- The attestation of a result is the one that the DLL's structure holds, decoded.
  pub record Attested (out : CredentialAttestation D.Wide) (res : MakeCredentialResult)
      : Type 0 where
    pub client_data_hash : res.client_data_hash ≡ D.sha256 client_json
    pub decode_type : out.attestation_decode_type ≡ attestation_decode_common
    pub att : CommonAttestation D.Wide
    pub decoded_there : out.attestation_decode ≡ some att
    pub alg : res.attestation_alg ≡ att.alg_id
    pub signature : res.attestation_signature ≡ as_bytes att.signature att.signature_len
    pub certs : res.attestation_certs ≡ x5c_certs att.x5c_count att.x5c
    pub format :
        ((out.format_type ≡ none) × (res.attestation_format ≡ []))
        ⊎ ((w : D.Wide) × (out.format_type ≡ some w) × (res.attestation_format ≡ D.utf16_text w))

  decoded-Attested :
      (out : CredentialAttestation D.Wide) (bare : MakeCredentialResult)
      → bare.client_data_hash ≡ D.sha256 client_json
      → bare.attestation_format ≡ []
      → bare.attestation_certs ≡ []
      → (decoded D out bare).attestation_certs ≢ []
      → Attested out (decoded D out bare)
  unfolding decoded
  decoded-Attested out bare hash none_yet no_certs certified =
      elim (Bool-cases (out.attestation_decode_type == attestation_decode_common)) [
        | inr other ↦ absurd (ground (arith, certified, no_certs))
        | inl common ↦ elim (Option-cases out.attestation_decode) [
          | inl missing ↦ absurd (ground (arith, certified, no_certs))
          | inr (att, there) ↦ record {
            client_data_hash = ground (arith, hash);
            decode_type = ground arith;
            att = att;
            decoded_there = there;
            alg = ground arith;
            signature = ground arith;
            certs = ground arith;
            format = elim (Option-cases out.format_type) [
              | inl unnamed ↦ inl (unnamed, ground (arith, none_yet))
              | inr (w, named) ↦ inr (w, named, ground arith)
            ];
          }
        ]
      ]

  make_credential-eq-ok :
      (req : MakeCredentialRequest) (s s' : S) (res : MakeCredentialResult)
      → make_credential D req s ≡ (ok res, s')
      → (rp_id : D.Wide) × (rp_name : D.Wide) × (user_name : D.Wide) × (t : D.Wide) × (h : D.Wide)
        × (e : D.Wide) × (out : CredentialAttestation D.Wide) × (D.utf16_ptr req.rpid ≡ some rp_id)
        × (D.utf16_ptr extension_identifier_hmac_secret ≡ some e)
        × (D.make_credential (make_call D req rp_id rp_name user_name t h e) s
            ≡ ((0, some out), s'))
        × (res.credential_id ≡ as_bytes out.credential_id out.credential_id_len)
        × (res.authenticator_data ≡ as_bytes out.authenticator_data out.authenticator_data_len)
        × (bare : MakeCredentialResult) × (bare.client_data_hash ≡ D.sha256 client_json)
        × (bare.attestation_format ≡ [])
        × (bare.attestation_certs ≡ [])
        × (res ≡ decoded D out bare)
        × ((res.resident_key ≡ true) ↔ ((3 ≤ out.version) × (out.resident_key ≢ pos 0)))
  unfolding make_credential wide raw decoded resident
  make_credential-eq-ok req s s' res h = elim (Option-cases (D.utf16_ptr req.rpid)) [
    | inl failed ↦ absurd (ground arith)
    | inr (rp_id, e₁) ↦ elim (Option-cases (D.utf16_ptr req.rp_name)) [
      | inl failed ↦ absurd (ground arith)
      | inr (rp_name, e₂) ↦ elim (Option-cases (D.utf16_ptr req.user_name)) [
        | inl failed ↦ absurd (ground arith)
        | inr (user_name, e₃) ↦ elim (Option-cases (D.utf16_ptr credential_type_public_key)) [
          | inl failed ↦ absurd (ground arith)
          | inr (t, e₄) ↦ elim (Option-cases (D.utf16_ptr hash_algorithm_sha256)) [
            | inl failed ↦ absurd (ground arith)
            | inr (hash_alg, e₅) ↦
                elim (Option-cases (D.utf16_ptr extension_identifier_hmac_secret)) [
                  | inl failed ↦ absurd (ground arith)
                  | inr (hmac_id, e₆) ↦
                      let call = make_call D req rp_id rp_name user_name t hash_alg hmac_id in
                      elim (Option-cases (D.make_credential call s).0.1) [
                        | inl failed ↦ absurd (ground arith)
                        | inr (out, answered) ↦ (
                          rp_id,
                          rp_name,
                          user_name,
                          t,
                          hash_alg,
                          hmac_id,
                          out,
                          e₁,
                          e₆,
                          ground arith,
                          ground arith,
                          ground arith,
                          raw D out,
                          refl,
                          refl,
                          refl,
                          ground arith,
                          ground (arith, int_eq_iff out.resident_key (pos 0)),
                        )
                      ]
                ]
          ]
        ]
      ]
    ]
  ]

  -- Where the user ID is not longer than 2 ^ 32 - 1 bytes, a credential that is returned was asked
  -- of webauthn.dll in one call for the RP ID, the whole user ID and the verification of the
  -- request, for no resident key, for direct attestation, and for the extension hmac-secret. The
  -- DLL reported success, the credential ID and the authenticator data are what its structure
  -- holds, a resident key is reported exactly where the structure is of version 3 or later and
  -- says so, and an attestation with certificates is the one that the structure holds.
  pub make_credential_asked :
      (req : MakeCredentialRequest) (s s' : S) (res : MakeCredentialResult)
      → length req.user_id < 2 ^ 32
      → make_credential D req s ≡ (ok res, s')
      → (call : MakeCall D.Wide) × (out : CredentialAttestation D.Wide) × (hmac_id : D.Wide)
        × (D.make_credential call s ≡ ((0, some out), s'))
        × (D.utf16_ptr req.rpid ≡ some call.rp.id)
        × (as_bytes call.user.id call.user.id_len ≡ req.user_id)
        × (call.options.user_verification_req ≡ dll_uv req.require_uv)
        × (call.options.require_resident_key ≡ pos 0)
        × (call.options.attestation_conveyance ≡ attestation_conveyance_direct)
        × (D.utf16_ptr extension_identifier_hmac_secret ≡ some hmac_id)
        × (map (λ e. e.identifier) call.options.ext.extensions ≡ hmac_id ∷ [])
        × (res.credential_id ≡ as_bytes out.credential_id out.credential_id_len)
        × (res.authenticator_data ≡ as_bytes out.authenticator_data out.authenticator_data_len)
        × ((res.resident_key ≡ true) ↔ ((3 ≤ out.version) × (out.resident_key ≢ pos 0)))
        × ((res.attestation_certs ≡ []) ⊎ Attested out res)
  unfolding make_call
  make_credential_asked req s s' res short h =
      let (
        rp_id, rp_name, user_name, t, hash_alg, hmac_id, out, rp, hmac, asked, id, auth_data, bare,
        hash, none_yet, no_certs, same, resident,
      ) =
        make_credential-eq-ok req s s' res h in
      (
        make_call D req rp_id rp_name user_name t hash_alg hmac_id,
        out,
        hmac_id,
        asked,
        rp,
        as_bytes-byte_ptr req.user_id short,
        refl,
        refl,
        refl,
        hmac,
        refl,
        id,
        auth_data,
        resident,
        elim (List-cases res.attestation_certs) [
          | inl nothing ↦ inl nothing
          | inr (c, cs, some_there) ↦ inr (
              rw same (
                decoded-Attested out bare hash none_yet no_certs
                  (rw (← same) (λ e. absurd (ground (arith, some_there, e))))))
        ],
      )
