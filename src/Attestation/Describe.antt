-- ===== src/Attestation/Describe.antt =====
-- attestation.go: the text that says which chain a key presented, and which anchors it was checked
-- against.
use touchvault.Base.{ℕ, pos, Bytes, Text, List, [], ◌∷◌, ◌++◌, ◌+◌, none, some, map, codes, decimal}
use touchvault.Platform.Certificates.{Certs}
use touchvault.Attestation.{parse_pem_certificates, fido_intermediates, trusted_fido_roots}

-- `strings.Join`
unfoldable pub join : List Text → Text → Text
join [] separator = []
join (t ∷ []) separator = t
join (t ∷ u ∷ ts) separator = t ++ (separator ++ join (u ∷ ts) separator)

module _ (X : Certs) where
  -- `BundledRoots`
  unfoldable pub bundled_roots : X.Pool
  unfolding trusted_fido_roots
  bundled_roots = X.clone (trusted_fido_roots X)

  -- `commonNames`
  unfoldable pub common_names : List X.Certificate → List Text
  common_names certs = map (λ c. X.quoted (X.subject_name c)) certs

  -- The line of one certificate.
  unfoldable pub certificate_line : ℕ → Bytes → Text
  certificate_line i der =
      codes "    ["
      ++ (decimal (pos i)
          ++ elim (X.parse_certificate der) [
            | none ↦ codes "] unparseable: " ++ X.parse_failure der
            | some c ↦
                codes "] subject="
                ++ (X.quoted (X.subject_name c)
                    ++ (codes " issuer="
                        ++ (X.quoted (X.issuer_name c) ++ (codes " notAfter=" ++ X.not_after c))))
          ]
          ++ (10 ∷ []))

  -- The loop of `describeAttestation`, from an index on.
  unfoldable pub certificate_lines : ℕ → List Bytes → Text
  unfolding certificate_line
  certificate_lines i [] = []
  certificate_lines i (der ∷ ders) = certificate_line i der ++ certificate_lines (i + 1) ders

  -- `describeAttestation`
  unfoldable pub describe_attestation : List Bytes → Text
  unfolding join common_names certificate_lines parse_pem_certificates fido_intermediates
  describe_attestation certs =
      codes "  attestation chain presented by the key:"
      ++ (10 ∷ certificate_lines 0 certs
          ++ (codes "  trusted roots: "
              ++ (join (common_names (parse_pem_certificates X X.roots_pem)) (codes ", ")
                  ++ (10 ∷ codes "  bundled intermediates: "
                      ++ join (common_names (fido_intermediates X)) (codes ", ")))))
