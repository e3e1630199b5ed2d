-- ===== src/Toy/Keys.antt =====
-- A platform made of these parts, security keys for it, and the calls that the tests run.
use touchvault.Base.{
  ℕ, ◌+◌, ◌==◌, Option, if◌then◌else◌, Bytes, Bool, true, false, none, some, [], ◌∷◌, ◌++◌,
}
use touchvault.Base.{codes, contains, list_Eq, length, ◌<◌, take, list_eq, nat_Eq, ◌≡◌, refl, arith}
use touchvault.Errors.{ok, err, no_prf}
use touchvault.Authenticator.{Authenticator, EnrollResult, DeriveRequest, DeriveResult}
use touchvault.Platform.{Platform, IsFullRead, NeverFails}
use touchvault.Platform.Certificates.{Certs, Decodes, PemBlock}
use touchvault.World.{World}
use touchvault.Attestation.{packed_format, cose_alg_es256}
use touchvault.Entropy.Gate.{Truncates}
use touchvault.Vault.Options.{Options}
use touchvault.Toy.Codec.{toy_json}
use touchvault.Toy.Cipher.{toy_crypto, fit, length-fit}

-- A block is one byte, and a byte of 0 is a key.
abbrev toy_pem : Bytes → Option (PemBlock × Bytes)
toy_pem [] = none
toy_pem (n ∷ rest) =
    let kind = if n == 0 then codes "PRIVATE KEY" else codes "CERTIFICATE" in
    some (record { kind = kind; content = n ∷ [] }, rest)

-- A certificate is its bytes and its own public key, and a signature is what it signs.
abbrev pub toy_certs : Certs
toy_certs = record {
  Certificate = Bytes;
  Pool = Bytes;
  PublicKey = Bytes;
  parse_certificate = λ der. some der;
  chains = λ leaf roots intermediates. list_eq leaf roots;
  ecdsa_key = λ c. some c;
  extensions = λ c. [];
  verify_asn1 = λ k digest signature. list_eq digest signature;
  octet_string = λ b. some b;
  pem_decode = toy_pem;
  pool_from_pem = λ b. b;
  clone = λ pool. pool;
  subject_name = λ c. c;
  issuer_name = λ c. c;
  not_after = λ c. codes "2030-01-01";
  parse_failure = λ der. codes "malformed";
  quoted = λ t. b'"' ∷ t ++ (b'"' ∷ []);
  roots_pem = 5 ∷ [];
  intermediates_pem = 0 ∷ 6 ∷ [];
}

pub toy-Decodes : Decodes toy_certs
toy-Decodes = record { rest_shorter = shorter }
  where
    shorter :
        (input : Bytes) (b : PemBlock) (rest : Bytes)
        → toy_pem input ≡ some (b, rest)
        → length rest < length input
    shorter [] b rest h = absurd (ground arith)
    shorter (n ∷ more) b rest h = ground arith

-- The entropy source counts the reads.
abbrev pub toy : Platform
toy = record {
  Outside = ℕ;
  rand_read = λ n s. (some (fit n (s ∷ [])), s + 1);
  crypto = toy_crypto;
  certs = toy_certs;
  json = toy_json;
}

pub toy-IsFullRead : IsFullRead toy
toy-IsFullRead = record { full = λ n s b h. ground (arith, length-fit n (s ∷ [])) }

pub toy-NeverFails : NeverFails toy
toy-NeverFails = record { drawn = λ n s. (fit n (s ∷ []), refl) }

abbrev pub credential : Bytes → EnrollResult
credential id = record {
  credential_id = id;
  prf_enabled = true;
  resident_key = false;
  attestation_format = packed_format;
  attestation_alg = cose_alg_es256;
  attestation_signature = 1 ∷ 2 ∷ [];
  authenticator_data = 1 ∷ [];
  client_data_hash = 2 ∷ [];
  attestation_certs = (5 ∷ []) ∷ [];
}

abbrev pub key_answer : ℕ → Bytes → Bool → DeriveRequest → DeriveResult
key_answer n id uv req = record {
  secret = take n req.salt ++ id;
  credential_id = id;
  user_present = true;
  user_verified = uv;
}

-- A key with a credential ID, whose output depends on so many bytes of the salt. It answers where
-- its credential is on the allow-list.
abbrev pub key_of : ℕ → Bytes → Bool → Authenticator ℕ
key_of n id uv = record {
  enroll = λ req s. (ok (credential id), s + 1);
  derive = λ req s.
      (if contains req.credential_ids id then ok (key_answer n id uv req) else err no_prf, s + 1);
}

abbrev pub first_key : Authenticator ℕ
first_key = key_of 32 (7 ∷ []) true

abbrev pub second_key : Authenticator ℕ
second_key = key_of 32 (8 ∷ []) true

-- A key that reads one byte less than the whole salt.
abbrev pub short_key : Authenticator ℕ
short_key = key_of 31 (7 ∷ []) true

pub short_key-Truncates : Truncates short_key 31
short_key-Truncates = record {
  output = λ rpid ids uv salt. salt ++ (7 ∷ []);
  truncated = λ req s got h. ground arith;
}

abbrev pub toy_options : Options toy
toy_options = record { rpid = codes "acme"; rp_name = []; roots = none; label = [] }

abbrev pub start : World toy
start = record { outside = 40; gestures = [] }
