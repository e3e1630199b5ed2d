-- ===== src/Sealed/Parse/Valid.antt =====
-- Well-formed documents: what `parseSealed` promises of the document that it returns, stated with
-- no loop and no test of the code.
use touchvault.Base.{ℤ, Text, Bytes, ◌≡◌, ◌≢◌, List, [], length, map, All, Distinct, is_negative}
use touchvault.Base.{false}
use touchvault.Authenticator.{salt_len}
use touchvault.Sealed.Document.{SealedKey, SealedSecret, SealedVault, format_version}

abbrev pub slots_of : List SealedKey → List ℤ
slots_of ks = map (λ k. k.slot) ks

abbrev pub credentials_of : List SealedKey → List Bytes
credentials_of ks = map (λ k. k.credential_id) ks

abbrev pub names_of : List SealedSecret → List Text
names_of ss = map (λ s. s.name) ss

pub record IsWellFormed (v : SealedVault) : Type 0 where
  pub format : v.format ≡ format_version
  pub salt : length v.salt ≡ salt_len
  pub rpid : v.rpid ≢ []
  pub slots_nonneg : All (λ slot. is_negative slot ≡ false) (slots_of v.keys)
  pub slots_differ : Distinct (slots_of v.keys)
  pub credentials_nonempty : All (λ id. id ≢ []) (credentials_of v.keys)
  pub credentials_differ : Distinct (credentials_of v.keys)
  pub names_nonempty : All (λ name. name ≢ []) (names_of v.secrets)
  pub names_differ : Distinct (names_of v.secrets)
