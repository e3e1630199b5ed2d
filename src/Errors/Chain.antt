-- ===== src/Errors/Chain.antt =====
-- `do` blocks for code that can return an error and touches no state.
use touchvault.Base.{Done}
use touchvault.Errors.{Result, and_then}

infixl 5 ◌>>=◌ ◌>>◌
abbrev pub ◌>>=◌ {ℓ κ} : {A : Type ℓ} {B : Type κ} → Result A → (A → Result B) → Result B
m >>= f = and_then m f

abbrev pub ◌>>◌ {ℓ} : {B : Type ℓ} → Result Done → Result B → Result B
m >> k = m >>= λ _. k
