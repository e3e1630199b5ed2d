-- ===== src/Platform/Certificates.antt =====
-- crypto/x509, crypto/ecdsa, encoding/asn1 and encoding/pem, as parameters, and the two files of
-- certificates under roots/ that are embedded in the program.
use touchvault.Base.{ℕ, ◌≡◌, ◌<◌, Bytes, Text, Bool, Option, some, List, length}

-- `pem.Block`: its type and its bytes.
pub record PemBlock : Type 0 where
  pub kind : Text
  pub content : Bytes

-- `pkix.Extension`: its object identifier and its value.
pub record Extension : Type 0 where
  pub id : List ℕ
  pub value : Bytes

pub record Certs : Type 1 where
  pub Certificate : Type 0
  pub Pool : Type 0
  pub PublicKey : Type 0
  -- `x509.ParseCertificate`
  pub parse_certificate : Bytes → Option Certificate
  -- `leaf.Verify` with these roots and intermediates, and any extended key usage, at the time at
  -- which the program runs: the clock is taken to stand still.
  pub chains : Certificate → Pool → List Certificate → Bool
  -- `leaf.PublicKey.(*ecdsa.PublicKey)`
  pub ecdsa_key : Certificate → Option PublicKey
  pub extensions : Certificate → List Extension
  -- `ecdsa.VerifyASN1`: key, digest, signature.
  pub verify_asn1 : PublicKey → Bytes → Bytes → Bool
  -- `asn1.Unmarshal` into a byte slice.
  pub octet_string : Bytes → Option Bytes
  -- `pem.Decode`: the next block and the rest.
  pub pem_decode : Bytes → Option (PemBlock × Bytes)
  -- `x509.NewCertPool` and `AppendCertsFromPEM`
  pub pool_from_pem : Bytes → Pool
  -- `pool.Clone()`
  pub clone : Pool → Pool
  -- `Subject.CommonName`, `Issuer.CommonName`, and `NotAfter` as a date.
  pub subject_name : Certificate → Text
  pub issuer_name : Certificate → Text
  pub not_after : Certificate → Text
  -- The text of the error of `x509.ParseCertificate`.
  pub parse_failure : Bytes → Text
  -- `%q` of fmt.
  pub quoted : Text → Text
  pub roots_pem : Bytes
  pub intermediates_pem : Bytes

-- A block that `pem.Decode` finds is taken off its input.
pub record Decodes (X : Certs) : Type 0 where
  pub rest_shorter :
      (input : Bytes) (b : PemBlock) (rest : Bytes)
      → X.pem_decode input ≡ some (b, rest)
      → length rest < length input
