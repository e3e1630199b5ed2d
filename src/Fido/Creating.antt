-- ===== src/Fido/Creating.antt =====
-- A vault that is created with the authenticator of webauthn.dll.
use touchvault.Base.{
  ◌≢◌, Option, sym, [], ◌∷◌, ◌≡◌, ◌<◌, pos, map, arith, inl, inr, ◌∙◌, some, ◌⊎◌, Bool-cases, leb,
  int_eq, int_eq_iff,
}
use touchvault.Errors.{ok}
use touchvault.Effects.Runs.{Run-cases}
use touchvault.Authenticator.{EnrollRequest, EnrollResult}
use touchvault.Platform.{Platform, IsFullRead}
use touchvault.World.{World}
use touchvault.Sealed.Find.{credential_ids}
use touchvault.Crypto.Fields.{wrap_data_key-fields}
use touchvault.Attestation.{verify_genuine_hardware, packed_format}
use touchvault.Attestation.Genuine.{IsGenuine, verify_genuine_hardware_iff}
use touchvault.Vault.Options.{Options, Session, user_id_len, first_slot, label}
use touchvault.Vault.Create.{create}
use touchvault.Vault.Created.{create-eq-ok, proven_doc}
use touchvault.Fido.Dll.{Dll, MakeCall}
use touchvault.Fido.Dll.Outputs.{CredentialAttestation, CommonAttestation}
use touchvault.Fido.Constants.{
  extension_identifier_hmac_secret, attestation_conveyance_direct, attestation_decode_common,
}
use touchvault.Fido.Bindings.{MakeCredentialResult, as_bytes, x5c_certs, client_json}
use touchvault.Fido.Bindings.Making.{make_credential}
use touchvault.Fido.Bindings.Created.{Attested, make_credential_asked}
use touchvault.Fido.Windows.{enroll, creation_request}
use touchvault.Fido.Unlocking.{windows}

packed_format-named : packed_format ≢ []
packed_format-named e = absurd (ground (arith, e))

module _ {S : Type 0} (D : Dll S) where
  -- `Enroll` returns what the DLL's call gave, unjudged.
  pub enroll-eq-ok :
      (req : EnrollRequest) (s : S) (cred : EnrollResult)
      → (enroll D req s).0 ≡ ok cred
      → (res : MakeCredentialResult) × (s' : S) × (make_credential D
            (creation_request (D.console_window s) req)
            s
          ≡ (ok res, s'))
        × (cred.credential_id ≡ res.credential_id)
        × (cred.resident_key ≡ res.resident_key)
        × (cred.authenticator_data ≡ res.authenticator_data)
        × (cred.attestation_format ≡ res.attestation_format)
        × (cred.attestation_alg ≡ res.attestation_alg)
        × (cred.attestation_signature ≡ res.attestation_signature)
        × (cred.attestation_certs ≡ res.attestation_certs)
        × (cred.client_data_hash ≡ res.client_data_hash)
  unfolding enroll
  enroll-eq-ok req s cred h =
      elim (Run-cases (make_credential D (creation_request (D.console_window s) req) s)) [
        | inr (e, s', failed) ↦ absurd (ground arith)
        | inl (res, s', made) ↦ (
          res,
          s',
          made,
          ground arith,
          ground arith,
          ground arith,
          ground arith,
          ground arith,
          ground arith,
          ground arith,
          ground arith,
        )
      ]

module _ {P : Platform} {roots : Option P.certs.Pool} (D : Dll P.Outside)
    (out : CredentialAttestation D.Wide) (res : MakeCredentialResult) {cred : EnrollResult}
    (g : IsGenuine P cred roots) where
  certified :
      (res.attestation_certs ≡ []) ⊎ Attested D out res
      → cred.attestation_certs ≡ res.attestation_certs
      → Attested D out res
  certified (inl nothing) same = absurd (ground (arith, g.certs, same, nothing))
  certified (inr a) _ = a

  -- The format of a genuine credential is named.
  has_format :
      Attested D out res
      → cred.attestation_format ≡ res.attestation_format
      → (w : D.Wide) × (out.format_type ≡ some w) × (res.attestation_format ≡ D.utf16_text w)
  has_format a same = elim a.format [
    | inl (_, unnamed) ↦ absurd (packed_format-named (sym g.format ∙ same ∙ unnamed))
    | inr there ↦ there
  ]

module _ (P : Platform) (D : Dll P.Outside) (full : IsFullRead P) (opts : Options P) where
  -- A vault that `Create` makes over webauthn.dll, where the entropy source is never short, rests
  -- on one successful call of the DLL that asked for a credential of the vault's relying party with
  -- the extension hmac-secret, for no resident key and for direct attestation. The one credential
  -- that is enrolled is the one in the structure that the DLL returned, which reports no resident
  -- key where it is of version 3 or later. The attestation that was verified is that structure's:
  -- its authenticator data, its format, the algorithm, signature and certificates that it decoded,
  -- and the hash of the client data that the program sends.
  pub create-windows :
      (w w' : World P) (s : Session P)
      → create P (windows D) opts w ≡ (ok s, w')
      → (call : MakeCall D.Wide) × (out : CredentialAttestation D.Wide) × (hmac_id : D.Wide)
        × (cred : EnrollResult) × (before : P.Outside) × (after : P.Outside) × (D.make_credential
              call before
            ≡ ((0, some out), after))
        × (D.utf16_ptr opts.rpid ≡ some call.rp.id)
        × (call.options.require_resident_key ≡ pos 0)
        × (call.options.attestation_conveyance ≡ attestation_conveyance_direct)
        × (D.utf16_ptr extension_identifier_hmac_secret ≡ some hmac_id)
        × (map (λ e. e.identifier) call.options.ext.extensions ≡ hmac_id ∷ [])
        × (credential_ids s.doc ≡ as_bytes out.credential_id out.credential_id_len ∷ [])
        × ((out.version < 3) ⊎ (out.resident_key ≡ pos 0))
        × (cred.credential_id ≡ as_bytes out.credential_id out.credential_id_len)
        × (cred.authenticator_data ≡ as_bytes out.authenticator_data out.authenticator_data_len)
        × (cred.client_data_hash ≡ D.sha256 client_json)
        × (att : CommonAttestation D.Wide) × (format : D.Wide) × (out.attestation_decode_type
            ≡ attestation_decode_common)
        × (out.attestation_decode ≡ some att)
        × (out.format_type ≡ some format)
        × (cred.attestation_format ≡ D.utf16_text format)
        × (cred.attestation_alg ≡ att.alg_id)
        × (cred.attestation_signature ≡ as_bytes att.signature att.signature_len)
        × (cred.attestation_certs ≡ x5c_certs att.x5c_count att.x5c)
        × (verify_genuine_hardware P cred opts.roots ≡ ok tt)
  unfolding credential_ids
  create-windows w w' s created =
      let c = create-eq-ok P (windows D) opts w w' s created in
      let e = c.enrollment in
      let (res, after, made, id, resident, auth_data, named, alg, sig, certs, hash) =
        enroll-eq-ok D _ e.before_enroll c.cred e.enroll_answer in
      let size = full.full user_id_len e.before_draw e.user_id e.drawn in
      let (
        call, out, hmac_id, asked, rp, _, _, no_resident, direct, hmac, ext, res_id, res_data, told,
        attest,
      ) =
        make_credential_asked D _ e.before_enroll after res (omega (arith, size)) made in
      let g = (verify_genuine_hardware_iff P c.cred opts.roots).0 e.genuine in
      let a : Attested D out res = certified D out res g attest certs in
      let (format, format_there, text) = has_format D out res g a named in
      let fields =
        wrap_data_key-fields P (proven_doc opts c.salt c.answer.user_verified) s.data_key
          c.cred.credential_id c.answer.secret first_slot (label opts) c.w₄ w' c.wrapped in
      (
        call,
        out,
        hmac_id,
        c.cred,
        e.before_enroll,
        after,
        asked,
        rp,
        no_resident,
        direct,
        hmac,
        ext,
        ground (arith, c.document, fields, id, res_id),
        elim (Bool-cases (leb 3 out.version)) [
          | inr older ↦ inl (ground arith)
          | inl newer ↦ elim (Bool-cases (int_eq out.resident_key (pos 0))) [
            | inl zero_there ↦ inr ((int_eq_iff out.resident_key (pos 0)).0 zero_there)
            | inr other ↦ absurd (
                ground (arith, told, resident, e.not_resident, int_eq_iff out.resident_key (pos 0)))
          ]
        ],
        id ∙ res_id,
        auth_data ∙ res_data,
        hash ∙ a.client_data_hash,
        a.att,
        format,
        a.decode_type,
        a.decoded_there,
        format_there,
        named ∙ text,
        alg ∙ a.alg,
        sig ∙ a.signature,
        certs ∙ a.certs,
        e.genuine,
      )
