-- ===== src/Platform.antt =====
-- The code outside the repository that the core calls: Go's standard library where it reaches
-- the operating system, the ciphers, certificates and JSON. Each part is a parameter of the model.
pub mod Ciphers
pub mod Certificates
pub mod Serializer
use touchvault.Base.{ℕ, ◌≡◌, Bytes, Option, some, length}
use Ciphers.{Crypto}
use Certificates.{Certs}
use Serializer.{Json}

pub record Platform : Type 1 where
  -- The world outside the process: the entropy source, the security keys, the operator.
  pub Outside : Type 0
  -- `rand.Read` of so many bytes; `none` is an error.
  pub rand_read : ℕ → Outside → Option Bytes × Outside
  pub crypto : Crypto
  pub certs : Certs
  pub json : Json

-- "Read fills b with cryptographically secure random bytes": it is never short.
pub record IsFullRead (P : Platform) : Type 0 where
  pub full : (n : ℕ) (s : P.Outside) (b : Bytes) → (P.rand_read n s).0 ≡ some b → length b ≡ n

-- "Read never returns an error".
pub record NeverFails (P : Platform) : Type 0 where
  pub drawn : (n : ℕ) (s : P.Outside) → (b : Bytes) × ((P.rand_read n s).0 ≡ some b)
