-- ===== src/Attestation/Pem.antt =====
-- The loop over PEM blocks.
use touchvault.Base.{ℕ, zero, suc, ◌<◌, ◌≡◌, Bytes, [], ◌∷◌, none, some, length, arith, inl, inr}
use touchvault.Base.{Option-cases, list_eq, nat_Eq, codes, not, if◌then◌else◌}
use touchvault.Platform.Certificates.{Certs, Decodes}
use touchvault.Attestation.{parse_pem, parse_pem_certificates}

module _ (X : Certs) (decodes : Decodes X) where
  -- The fuel does not matter, where it is enough.
  parse_pem_enough :
      (f g : ℕ) (input : Bytes)
      → length input < f
      → length input < g
      → parse_pem X f input ≡ parse_pem X g input
  unfolding parse_pem
  parse_pem_enough zero g input hf hg = absurd (omega arith)
  parse_pem_enough (suc f) zero input hf hg = absurd (omega arith)
  parse_pem_enough (suc f) (suc g) input hf hg = elim (Option-cases (X.pem_decode input)) [
    | inl done ↦ ground arith
    | inr (found, e) ↦
        let (block, rest) = found in
        let shorter = decodes.rest_shorter input block rest e in
        ground (arith, parse_pem_enough f g rest (omega (arith, shorter)) (omega (arith, shorter)))
  ]

  -- Where a block that is decoded is taken off the input, the certificates of a PEM text are those
  -- of its first block, if that is a certificate that can be read, and then those of the rest;
  -- where there is no block there are none.
  pub parse_pem_certificates_lem :
      (input : Bytes)
      → parse_pem_certificates X input ≡ elim (X.pem_decode input) [
        | none ↦ []
        | some (block, rest) ↦
            if not (list_eq block.kind (codes "CERTIFICATE"))
            then parse_pem_certificates X rest
            else elim (X.parse_certificate block.content) [
              | none ↦ parse_pem_certificates X rest
              | some c ↦ c ∷ parse_pem_certificates X rest
            ]
      ]
  unfolding parse_pem_certificates parse_pem
  parse_pem_certificates_lem input = elim (Option-cases (X.pem_decode input)) [
    | inl done ↦ ground arith
    | inr (found, e) ↦
        let (block, rest) = found in
        let shorter = decodes.rest_shorter input block rest e in
        ground
          (arith, parse_pem_enough (length input) (suc (length rest)) rest shorter (omega arith))
  ]
