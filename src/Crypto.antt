-- ===== src/Crypto.antt =====
-- crypto.go: `Pure` has what draws no random bytes, and `Seal` what does.
pub mod Pure
pub mod Seal
pub mod Fields
pub mod RoundTrip
pub mod Binding
