-- ===== src/Attestation.antt =====
-- attestation.go: proof that a new credential lives on hardware of a trusted vendor.
pub mod Genuine
pub mod Pem
pub mod Describe
pub mod Roots
use touchvault.Base.{ℕ, zero, suc, negsuc, Bytes, Text, Done, Bool, Option, none, some, List}
use touchvault.Base.{[], ◌∷◌, ◌++◌, length, take, drop, is_empty, list_eq, int_eq, nat_Eq, codes}
use touchvault.Base.{not, ltb, if◌then◌else◌}
use touchvault.Errors.{Result, ok, refuse_if, or_error, unsupported_attestation_format}
use touchvault.Errors.{no_attestation, attestation_signature, untrusted_authenticator}
use touchvault.Errors.{certificate_unreadable}
use touchvault.Errors.Chain.{◌>>=◌, ◌>>◌}
use touchvault.Authenticator.{EnrollResult}
use touchvault.Platform.{Platform}
use touchvault.Platform.Certificates.{Certs, Extension}

abbrev pub packed_format : Text
packed_format = codes "packed"

-- `coseAlgES256` is -7.
abbrev pub cose_alg_es256 : touchvault.Base.ℤ
cose_alg_es256 = negsuc 6

abbrev pub oid_fido_gen_ce_aaguid : List ℕ
oid_fido_gen_ce_aaguid = 1 ∷ 3 ∷ 6 ∷ 1 ∷ 4 ∷ 1 ∷ 45724 ∷ 1 ∷ 1 ∷ 4 ∷ []

-- The loop of `checkAAGUIDMatches`: the first extension with the AAGUID's identifier.
unfoldable pub find_extension : List Extension → Option Bytes
find_extension [] = none
find_extension (e ∷ es) =
    if list_eq e.id oid_fido_gen_ce_aaguid then some e.value else find_extension es

module _ (X : Certs) where
  -- The loop of `parsePEMCertificates`, with fuel.
  unfoldable pub parse_pem : ℕ → Bytes → List X.Certificate
  parse_pem zero input = []
  parse_pem (suc fuel) input = elim (X.pem_decode input) [
    | none ↦ []
    | some (block, rest) ↦
        let more = parse_pem fuel rest in
        if not (list_eq block.kind (codes "CERTIFICATE"))
        then more
        else elim (X.parse_certificate block.content) [ none ↦ more | some c ↦ c ∷ more ]
  ]

  -- `parsePEMCertificates`. Each block takes a byte at least, so the length is fuel enough.
  unfoldable pub parse_pem_certificates : Bytes → List X.Certificate
  unfolding parse_pem
  parse_pem_certificates input = parse_pem (suc (length input)) input

  -- `trustedFIDORoots`
  unfoldable pub trusted_fido_roots : X.Pool
  trusted_fido_roots = X.pool_from_pem X.roots_pem

  -- `fidoIntermediates`
  unfoldable pub fido_intermediates : List X.Certificate
  unfolding parse_pem_certificates
  fido_intermediates = parse_pem_certificates X.intermediates_pem

  -- The loop of `verifyGenuineHardware` over the chain behind the leaf.
  unfoldable pub parse_chain : List Bytes → Result (List X.Certificate)
  parse_chain [] = ok []
  parse_chain (der ∷ ders) = do
    c ← or_error (X.parse_certificate der) certificate_unreadable
    cs ← parse_chain ders
    ok (c ∷ cs)

  -- `checkAAGUIDMatches`
  unfoldable pub check_aaguid_matches : X.Certificate → Bytes → Result Done
  check_aaguid_matches leaf auth_data = elim (find_extension (X.extensions leaf)) [
    | none ↦ ok tt
    | some ext ↦ do
      cert_aaguid ← or_error (X.octet_string ext) untrusted_authenticator
      refuse_if (ltb (length auth_data) 53) untrusted_authenticator
      refuse_if (not (list_eq cert_aaguid (take 16 (drop 37 auth_data)))) untrusted_authenticator
  ]

  -- The first certificate of the chain, or nothing.
  abbrev pub leaf_of : List Bytes → Option (Bytes × List Bytes)
  leaf_of [] = none
  leaf_of (der ∷ ders) = some (der, ders)

  -- The pool that was chosen, or the bundled roots where none was.
  unfoldable pub chosen_roots : Option X.Pool → X.Pool
  unfolding trusted_fido_roots
  chosen_roots none = trusted_fido_roots
  chosen_roots (some pool) = pool

module _ (P : Platform) where
  -- `verifyGenuineHardware`
  unfoldable pub verify_genuine_hardware : EnrollResult → Option P.certs.Pool → Result Done
  verify_genuine_hardware r roots = do
    refuse_if (not (list_eq r.attestation_format packed_format)) unsupported_attestation_format
    (leaf_der, ders) ← or_error (leaf_of P.certs r.attestation_certs) no_attestation
    refuse_if (not (int_eq r.attestation_alg cose_alg_es256)) attestation_signature
    leaf ← or_error (P.certs.parse_certificate leaf_der) certificate_unreadable
    presented ← parse_chain P.certs ders
    refuse_if
        (not (
          P.certs.chains leaf (chosen_roots P.certs roots)
            (fido_intermediates P.certs ++ presented)))
        untrusted_authenticator
    pub_key ← or_error (P.certs.ecdsa_key leaf) attestation_signature
    refuse_if
        (not (
          P.certs.verify_asn1 pub_key (P.crypto.sha256 (r.authenticator_data ++ r.client_data_hash))
            r.attestation_signature))
        attestation_signature
    check_aaguid_matches P.certs leaf r.authenticator_data
