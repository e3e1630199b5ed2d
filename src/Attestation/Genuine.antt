-- ===== src/Attestation/Genuine.antt =====
-- What `verifyGenuineHardware` checks, as one list of conditions.
use touchvault.Base.{
  List-cases, Bytes, List, [], ◌∷◌, ◌++◌, ◌≡◌, ◌↔◌, ◌⊎◌, ◌≤◌, inl, inr, Option, none, some, true,
}
use touchvault.Base.{length, take, drop, list_eq_iff, int_eq_iff, nat_Eq, arith, Option-cases}
use touchvault.Errors.{ok, Result-cases}
use touchvault.Authenticator.{EnrollResult}
use touchvault.Platform.{Platform}
use touchvault.Platform.Certificates.{Certs}
use touchvault.Attestation.{
  packed_format, cose_alg_es256, find_extension, parse_chain, check_aaguid_matches, chosen_roots,
  verify_genuine_hardware, fido_intermediates,
}

-- Certificates parsed from their bytes, one by one.
abbrev pub Parsed : (X : Certs) → List Bytes → List X.Certificate → Type 0
Parsed X [] [] = Unit
Parsed X (der ∷ ders) (c ∷ cs) = (X.parse_certificate der ≡ some c) × Parsed X ders cs
Parsed X _ _ = ⊥

parse_chain_iff :
    (X : Certs) (ders : List Bytes) (cs : List X.Certificate)
    → (parse_chain X ders ≡ ok cs) ↔ Parsed X ders cs
unfolding parse_chain
parse_chain_iff X [] [] = ground arith
parse_chain_iff X [] (c ∷ cs) = ground arith
parse_chain_iff X (der ∷ ders) [] = elim (Option-cases (X.parse_certificate der)) [
  | inl unreadable ↦ ground arith
  | inr (d, parsed) ↦ elim (Result-cases (parse_chain X ders)) [
    | inl (ds, e) ↦ ground arith
    | inr (x, e) ↦ ground arith
  ]
]
parse_chain_iff X (der ∷ ders) (c ∷ cs) = elim (Option-cases (X.parse_certificate der)) [
  | inl unreadable ↦ ground arith
  | inr (d, parsed) ↦ elim (Result-cases (parse_chain X ders)) [
    | inl (ds, e) ↦ ground (arith, parse_chain_iff X ders cs)
    | inr (x, e) ↦ ground (arith, parse_chain_iff X ders cs)
  ]
]

-- A model named in the certificate is the one in the authenticator data, at bytes 37 to 52.
abbrev pub NamesModel : (X : Certs) → X.Certificate → Bytes → Type 0
NamesModel X leaf auth_data =
    (find_extension (X.extensions leaf) ≡ none)
    ⊎ ((ext : Bytes) × (find_extension (X.extensions leaf) ≡ some ext)
        × (53 ≤ length auth_data)
        × (X.octet_string ext ≡ some (take 16 (drop 37 auth_data))))

check_aaguid_matches_iff :
    (X : Certs) (leaf : X.Certificate) (auth_data : Bytes)
    → (check_aaguid_matches X leaf auth_data ≡ ok tt) ↔ NamesModel X leaf auth_data
unfolding check_aaguid_matches
check_aaguid_matches_iff X leaf auth_data =
    elim (Option-cases (find_extension (X.extensions leaf))) [
      | inl missing ↦ ground arith
      | inr (ext, found) ↦ elim (Option-cases (X.octet_string ext)) [
        | inl malformed ↦ ground arith
        | inr (id, parsed) ↦ ground (arith, list_eq_iff id (take 16 (drop 37 auth_data)))
      ]
    ]

-- The conditions on a new credential: packed attestation with ES256 and certificates, of which
-- the leaf and those behind it can be read, a chain to the roots, an EC key that made the
-- signature over the authenticator data and the client data hash, and the model it names.
pub record IsGenuine (P : Platform) (r : EnrollResult) (roots : Option P.certs.Pool) : Type 0 where
  pub format : r.attestation_format ≡ packed_format
  pub alg : r.attestation_alg ≡ cose_alg_es256
  pub leaf_der : Bytes
  pub ders : List Bytes
  pub certs : r.attestation_certs ≡ leaf_der ∷ ders
  pub leaf : P.certs.Certificate
  pub leaf_parsed : P.certs.parse_certificate leaf_der ≡ some leaf
  pub presented : List P.certs.Certificate
  pub presented_parsed : Parsed P.certs ders presented
  pub chained :
      P.certs.chains leaf (chosen_roots P.certs roots) (fido_intermediates P.certs ++ presented)
      ≡ true
  pub pub_key : P.certs.PublicKey
  pub is_ecdsa : P.certs.ecdsa_key leaf ≡ some pub_key
  pub signed :
      P.certs.verify_asn1 pub_key
        (P.crypto.sha256 (r.authenticator_data ++ r.client_data_hash))
        r.attestation_signature
      ≡ true
  pub model : NamesModel P.certs leaf r.authenticator_data

module _ (P : Platform) (r : EnrollResult) (roots : Option P.certs.Pool) where
  verify_genuine_hardware-eq-ok : verify_genuine_hardware P r roots ≡ ok tt → IsGenuine P r roots
  unfolding verify_genuine_hardware
  verify_genuine_hardware-eq-ok h = elim (List-cases r.attestation_certs) [
    | inl missing ↦ absurd (ground (arith, list_eq_iff r.attestation_format packed_format))
    | inr (leaf_der, ders, certs) ↦ elim (Option-cases (P.certs.parse_certificate leaf_der)) [
      | inl unreadable ↦ absurd (ground arith)
      | inr (leaf, leaf_parsed) ↦ elim (Result-cases (parse_chain P.certs ders)) [
        | inr (x, unreadable) ↦ absurd (ground arith)
        | inl (presented, chain_parsed) ↦ elim (Option-cases (P.certs.ecdsa_key leaf)) [
          | inl other_key ↦ absurd (ground arith)
          | inr (pub_key, is_ecdsa) ↦
              let matched : check_aaguid_matches P.certs leaf r.authenticator_data ≡ ok tt =
                ground arith in
              record {
                format = ground (arith, list_eq_iff r.attestation_format packed_format);
                alg = ground (arith, int_eq_iff r.attestation_alg cose_alg_es256);
                leaf_der = leaf_der;
                ders = ders;
                certs = certs;
                leaf = leaf;
                leaf_parsed = leaf_parsed;
                presented = presented;
                presented_parsed = (parse_chain_iff P.certs ders presented).0 chain_parsed;
                chained = ground arith;
                pub_key = pub_key;
                is_ecdsa = is_ecdsa;
                signed = ground arith;
                model = (check_aaguid_matches_iff P.certs leaf r.authenticator_data).0 matched;
              }
        ]
      ]
    ]
  ]

  verify_genuine_hardware_total : IsGenuine P r roots → verify_genuine_hardware P r roots ≡ ok tt
  unfolding verify_genuine_hardware
  verify_genuine_hardware_total g =
      let chain_parsed = (parse_chain_iff P.certs g.ders g.presented).1 g.presented_parsed in
      let matched = (check_aaguid_matches_iff P.certs g.leaf r.authenticator_data).1 g.model in
      ground (
        arith,
        list_eq_iff r.attestation_format packed_format,
        int_eq_iff r.attestation_alg cose_alg_es256,
        g.format,
        g.alg,
        g.certs,
        g.leaf_parsed,
        chain_parsed,
        g.chained,
        g.is_ecdsa,
        g.signed,
        matched,
      )

  -- A new credential is accepted exactly when it is genuine: packed attestation with ES256 and
  -- certificates that can be read, a chain from the leaf to the roots that were chosen, an ECDSA
  -- key of the leaf that made the signature over the authenticator data and the client data hash,
  -- and, where the leaf names a model, that model at bytes 37 to 52 of the authenticator data.
  pub verify_genuine_hardware_iff :
      (verify_genuine_hardware P r roots ≡ ok tt) ↔ IsGenuine P r roots
  verify_genuine_hardware_iff = (verify_genuine_hardware-eq-ok, verify_genuine_hardware_total)
