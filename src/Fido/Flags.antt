-- ===== src/Fido/Flags.antt =====
-- What the Windows provider reports of a derivation.
use Prim.Native.Nat.{bit_and}
use touchvault.Base.{
  Bytes, List, [], ◌∷◌, ◌≡◌, ◌≢◌, ◌≤◌, ◌⊎◌, inl, inr, length, not, ◌==◌, arith, refl,
}
use touchvault.Errors.{Error, ok, err, Result-cases}
use touchvault.Effects.Runs.{Run-cases}
use touchvault.Authenticator.{DeriveRequest, DeriveResult, validate}
use touchvault.Fido.Dll.{Dll}
use touchvault.Fido.Bindings.Asserting.{get_assertion}
use touchvault.Fido.Bindings.{GetAssertionResult}
use touchvault.Fido.Windows.{derive, assertion_request, flags_of, answering}

answering-eq-ok :
    (a : Bytes) (ids : List Bytes) (c : Bytes)
    → answering a ids ≡ ok c
    → (c ≡ a) ⊎ ((a ≡ []) × (ids ≡ c ∷ []))
unfolding answering
answering-eq-ok (b ∷ id) ids c h = inl (ground arith)
answering-eq-ok [] [] c h = absurd (ground arith)
answering-eq-ok [] (id ∷ []) c h = inr (refl, ground arith)
answering-eq-ok [] (id ∷ j ∷ ids) c h = absurd (ground arith)

module _ {S : Type 0} (D : Dll S) where
  -- A request that fails the shared checks never reaches the security key.
  pub derive_invalid :
      (req : DeriveRequest) (s : S) (e : Error) → validate req ≡ err e → derive D req s ≡ (err e, s)
  unfolding derive
  derive_invalid req s e h = ground arith

  -- A derivation that the provider returns was asked for by a request that passes the shared
  -- checks. The touch and the verification that it reports are bits 0 and 2 of byte 32 of the
  -- authenticator data of that assertion, which has 33 bytes at least, its output is not empty, and
  -- its credential is the one that answered, or where the assertion names none the only one that
  -- was allowed.
  pub derive-eq-ok :
      (req : DeriveRequest) (s s' : S) (r : DeriveResult)
      → derive D req s ≡ (ok r, s')
      → (res : GetAssertionResult) × (validate req ≡ ok tt)
        × (get_assertion D (assertion_request (D.console_window s) req) s ≡ (ok res, s'))
        × (33 ≤ length res.authenticator_data)
        × (r.user_present ≡ not (bit_and (flags_of res.authenticator_data) 1 == 0))
        × (r.user_verified ≡ not (bit_and (flags_of res.authenticator_data) 4 == 0))
        × (r.secret ≡ res.hmac_secret)
        × (r.secret ≢ [])
        × ((r.credential_id ≡ res.answering_credential)
            ⊎ ((res.answering_credential ≡ []) × (req.credential_ids ≡ r.credential_id ∷ [])))
  unfolding derive
  derive-eq-ok req s s' r h =
      elim (Run-cases (get_assertion D (assertion_request (D.console_window s) req) s)) [
        | inr (e, t, failed) ↦ absurd (ground arith)
        | inl (res, t, answered) ↦
            elim (Result-cases (answering res.answering_credential req.credential_ids)) [
              | inr (e, failed) ↦ absurd (ground arith)
              | inl (c, named) ↦
                  let same : (t ≡ s') × (r.credential_id ≡ c) = (ground arith, ground arith) in
                  (
                    res,
                    ground arith,
                    ground arith,
                    ground arith,
                    ground arith,
                    ground arith,
                    ground arith,
                    ground arith,
                    rw same.1 (answering-eq-ok res.answering_credential req.credential_ids c named),
                  )
            ]
      ]
