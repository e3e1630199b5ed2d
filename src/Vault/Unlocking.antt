-- ===== src/Vault/Unlocking.antt =====
-- What `unlock` returns, and what it asks of the operator.
pub mod Errors
use touchvault.Base.{Bytes, true, [], ◌∷◌, ◌++◌, ◌≡◌, ◌≢◌, arith, inl, inr}
use touchvault.Base.{some, Option-cases, is_empty, not, ◌||◌, if◌then◌else◌}
use touchvault.Errors.{ok, err, Result-cases}
use touchvault.Errors.{user_verification_mismatch}
use touchvault.Authenticator.{Authenticator, DeriveResult}
use touchvault.Platform.{Platform}
use touchvault.World.{World, derived}
use touchvault.Sealed.Document.{SealedVault, SealedKey}
use touchvault.Sealed.Find.{find_key}
use touchvault.Crypto.Pure.{unwrap_data_key}
use touchvault.Vault.Options.{Vault, Session}
use touchvault.Vault.Open.{unlock, unlock_request}

pub find_key-keyed :
    (v : SealedVault) (id : Bytes) {entry : SealedKey} → find_key v id ≡ some entry → v.keys ≢ []
unfolding find_key
find_key-keyed v id found = ground arith

module _ (P : Platform) (v : Vault P) (auth : Authenticator P.Outside) (w : World P) where
  -- Whatever becomes of it, an unlock asks for no touch where the vault has no key or was never
  -- proven salt-dependent, and for one touch otherwise: any enrolled key, over the vault's salt,
  -- under the verification that was recorded.
  pub gestures-unlock : (unlock P v auth w).1.gestures ≡ (
      if is_empty v.doc.keys || not v.doc.entropy_verified
      then w.gestures
      else w.gestures ++ (derived (unlock_request v.doc) ∷ []))
  unfolding unlock
  gestures-unlock = ground arith

  -- A session is handed out only for a touch: a key answered that it was touched and verified the
  -- operator as the document says, its credential is enrolled, and its output unwraps the data key.
  -- The document was proven salt-dependent, and is the session's.
  pub unlock-eq-ok :
      (w' : World P) (s : Session P)
      → unlock P v auth w ≡ (ok s, w')
      → (answer : DeriveResult) × (entry : SealedKey) × (v.doc.entropy_verified ≡ true)
        × ((auth.derive (unlock_request v.doc) w.outside).0 ≡ ok answer)
        × (answer.user_present ≡ true)
        × (answer.user_verified ≡ v.doc.user_verified)
        × (find_key v.doc answer.credential_id ≡ some entry)
        × (unwrap_data_key P.crypto v.doc entry answer.secret ≡ ok s.data_key)
        × (s.doc ≡ v.doc)
        × (s.opts ≡ v.opts)
  unfolding unlock
  unlock-eq-ok w' s h = elim (Result-cases (auth.derive (unlock_request v.doc) w.outside).0) [
    | inr (e, failed) ↦ absurd (ground arith)
    | inl (answer, answered) ↦ elim (Option-cases (find_key v.doc answer.credential_id)) [
      | inl unknown ↦ absurd (ground arith)
      | inr (entry, found) ↦ (
        answer,
        entry,
        ground arith,
        answered,
        ground arith,
        ground arith,
        found,
        ground arith,
        ground arith,
        ground arith,
      )
    ]
  ]

  -- The other way round: such an answer of an enrolled key unlocks the vault.
  pub unlock_total :
      (answer : DeriveResult) (entry : SealedKey) (data_key : Bytes)
      → v.doc.keys ≢ []
      → v.doc.entropy_verified ≡ true
      → (auth.derive (unlock_request v.doc) w.outside).0 ≡ ok answer
      → answer.user_present ≡ true
      → answer.user_verified ≡ v.doc.user_verified
      → find_key v.doc answer.credential_id ≡ some entry
      → unwrap_data_key P.crypto v.doc entry answer.secret ≡ ok data_key
      → (unlock P v auth w).0 ≡ ok (record { doc = v.doc; opts = v.opts; data_key = data_key })
  unfolding unlock
  unlock_total answer entry data_key keyed proven answered present same found unwrapped =
      ground arith

  -- A key whose PIN was added or cleared is told so: where it was touched and verified the operator
  -- otherwise than at enrollment, the error names that, whatever its credential and its output.
  pub unlock_mismatch :
      (answer : DeriveResult)
      → v.doc.keys ≢ []
      → v.doc.entropy_verified ≡ true
      → (auth.derive (unlock_request v.doc) w.outside).0 ≡ ok answer
      → answer.user_present ≡ true
      → answer.user_verified ≢ v.doc.user_verified
      → (unlock P v auth w).0 ≡ err user_verification_mismatch
  unfolding unlock
  unlock_mismatch answer keyed proven answered present differ = ground arith
