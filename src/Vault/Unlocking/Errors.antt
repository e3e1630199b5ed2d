-- ===== src/Vault/Unlocking/Errors.antt =====
-- Why an unlock is refused.
use touchvault.Base.{
  List-cases, true, false, [], ◌≡◌, ◌≢◌, ◌↔◌, arith, inl, inr, none, some, Option-cases, bool_ne,
  Bool-cases, subst,
}
use touchvault.Errors.{
  Error, Result, ok, err, Result-cases, no_keys_enrolled, not_entropy_verified, not_present,
  user_verification_mismatch, unknown_credential,
}
use touchvault.Authenticator.{Authenticator, DeriveResult}
use touchvault.Platform.{Platform}
use touchvault.World.{World}
use touchvault.Sealed.Document.{SealedKey}
use touchvault.Sealed.Find.{find_key}
use touchvault.Crypto.Pure.{unwrap_data_key}
use touchvault.Vault.Options.{Vault}
use touchvault.Vault.Open.{unlock, unlock_request}

module _ (P : Platform) (v : Vault P) (auth : Authenticator P.Outside) (w : World P) where
  -- The vault may be unlocked, and a key was asked.
  pub record IsAsked (r : Result DeriveResult) : Type 0 where
    pub keyed : v.doc.keys ≢ []
    pub proven : v.doc.entropy_verified ≡ true
    pub answered : (auth.derive (unlock_request v.doc) w.outside).0 ≡ r

  -- A key answered, after a touch.
  pub record IsTouched (answer : DeriveResult) : Type 0 where
    pub asked : IsAsked (ok answer)
    pub present : answer.user_present ≡ true

  -- Each error, and what is the case when it is returned.
  pub data UnlockRefused : Error → Type 0 where
    keyless : v.doc.keys ≡ [] → UnlockRefused no_keys_enrolled
    unproven : v.doc.keys ≢ [] → v.doc.entropy_verified ≡ false → UnlockRefused not_entropy_verified
    unanswered : (e : Error) → IsAsked (err e) → UnlockRefused e
    untouched :
        (answer : DeriveResult)
        → IsAsked (ok answer)
        → answer.user_present ≡ false
        → UnlockRefused not_present
    verified_otherwise :
        (answer : DeriveResult)
        → IsTouched answer
        → answer.user_verified ≢ v.doc.user_verified
        → UnlockRefused user_verification_mismatch
    unknown :
        (answer : DeriveResult)
        → IsTouched answer
        → answer.user_verified ≡ v.doc.user_verified
        → find_key v.doc answer.credential_id ≡ none
        → UnlockRefused unknown_credential
    wrapped_otherwise :
        (e : Error) (answer : DeriveResult) (entry : SealedKey)
        → IsTouched answer
        → answer.user_verified ≡ v.doc.user_verified
        → find_key v.doc answer.credential_id ≡ some entry
        → unwrap_data_key P.crypto v.doc entry answer.secret ≡ err e
        → UnlockRefused e

  answered_refused :
      (answer : DeriveResult) (e : Error)
      → IsAsked (ok answer)
      → (unlock P v auth w).0 ≡ err e
      → UnlockRefused e
  unfolding unlock
  answered_refused answer e asked h = elim (Bool-cases answer.user_present) [
    | inr absent ↦ subst UnlockRefused (ground (arith, asked)) (untouched answer asked absent)
    | inl present ↦
        let touched : IsTouched answer = record { asked = asked; present = present } in
        elim (Bool-cases (bool_ne answer.user_verified v.doc.user_verified)) [
          | inl differ ↦
              subst UnlockRefused (ground (arith, asked))
                (verified_otherwise answer touched (ground arith))
          | inr same ↦ elim (Option-cases (find_key v.doc answer.credential_id)) [
            | inl missing ↦
                subst UnlockRefused (ground (arith, asked))
                  (unknown answer touched (ground arith) missing)
            | inr (entry, found) ↦
                elim (Result-cases (unwrap_data_key P.crypto v.doc entry answer.secret)) [
                  | inl (k, opened) ↦ absurd (ground (arith, asked))
                  | inr (x, failed) ↦
                      subst UnlockRefused (ground (arith, asked))
                        (wrapped_otherwise x answer entry touched (ground arith) found failed)
                ]
          ]
        ]
  ]

  unlock_refused : (e : Error) → (unlock P v auth w).0 ≡ err e → UnlockRefused e
  unfolding unlock
  unlock_refused e h = elim (List-cases v.doc.keys) [
    | inl none_there ↦ subst UnlockRefused (ground arith) (keyless none_there)
    | inr (k, ks, there) ↦
        let keyed : v.doc.keys ≢ [] = λ n. absurd (ground arith) in
        elim (Bool-cases v.doc.entropy_verified) [
          | inr not_proven ↦ subst UnlockRefused (ground arith) (unproven keyed not_proven)
          | inl proven ↦ elim (Result-cases (auth.derive (unlock_request v.doc) w.outside).0) [
            | inr (x, failed) ↦
                subst UnlockRefused (ground arith)
                  (unanswered x (record { keyed = keyed; proven = proven; answered = failed }))
            | inl (answer, answered) ↦
                answered_refused answer e
                  (record { keyed = keyed; proven = proven; answered = answered }) h
          ]
        ]
  ]

  refused_unlock : (e : Error) → UnlockRefused e → (unlock P v auth w).0 ≡ err e
  unfolding unlock
  refused_unlock e (keyless none_there) = ground arith
  refused_unlock e (unproven keyed not_proven) = ground arith
  refused_unlock e (unanswered x asked) = ground (arith, asked)
  refused_unlock e (untouched answer asked absent) = ground (arith, asked)
  refused_unlock e (verified_otherwise answer touched differ) = ground (arith, touched.asked)
  refused_unlock e (unknown answer touched same missing) = ground (arith, touched.asked)
  refused_unlock e (wrapped_otherwise x answer entry touched same found failed) =
      ground (arith, touched.asked)

  -- An unlock is refused with an error exactly when the first thing that is amiss is the one that
  -- the error names: the vault has no key; it was never proven salt-dependent; the security key
  -- returned that error; it was not touched; it verified the operator otherwise than the document
  -- says; its credential is not enrolled; or its entry does not unwrap under its output, with that
  -- error.
  pub unlock_error_iff : (e : Error) → ((unlock P v auth w).0 ≡ err e) ↔ UnlockRefused e
  unlock_error_iff e = (unlock_refused e, refused_unlock e)
