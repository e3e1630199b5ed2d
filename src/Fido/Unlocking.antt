-- ===== src/Fido/Unlocking.antt =====
-- A vault that is unlocked by the authenticator of webauthn.dll.
use Prim.Native.Nat.{bit_and}
use touchvault.Base.{Bytes, ◌≡◌, ◌≢◌, ◌<◌, ◌^◌, All, some, length, not, ◌==◌, arith, sym, ap, ◌∙◌}
use touchvault.Errors.{ok}
use touchvault.Authenticator.{Authenticator}
use touchvault.Authenticator.Laws.{validate_iff}
use touchvault.Platform.{Platform}
use touchvault.World.{World}
use touchvault.Sealed.Document.{SealedKey}
use touchvault.Sealed.Find.{find_key, credential_ids}
use touchvault.Crypto.Pure.{unwrap_data_key}
use touchvault.Vault.Options.{Vault, Session}
use touchvault.Vault.Open.{unlock, unlock_request}
use touchvault.Vault.Unlocking.{unlock-eq-ok}
use touchvault.Fido.Dll.{Dll, AssertionCall}
use touchvault.Fido.Dll.Outputs.{Assertion}
use touchvault.Fido.Bindings.Asked.{allowed, salted, result_of, get_assertion_asked}
use touchvault.Fido.Windows.{enroll, derive, flags_of, assertion_request}
use touchvault.Fido.Flags.{derive-eq-ok}

abbrev pub windows : {S : Type 0} → Dll S → Authenticator S
windows D = record { enroll = enroll D; derive = derive D }

module _ (P : Platform) (D : Dll P.Outside) (v : Vault P) (w : World P) where
  -- A session that is handed out over webauthn.dll, where no credential ID is longer than
  -- 2 ^ 32 - 1 bytes, rests on one successful assertion of the DLL, over the whole salt of the
  -- vault and its enrolled credentials. Bit 0 of byte 32 of the authenticator data that it returned
  -- is set, bit 2 is as the document records the verification, and its hmac-secret output unwraps
  -- the session's data key for an entry of the document.
  pub unlock-windows :
      (w' : World P) (s : Session P)
      → All (λ id. length id < 2 ^ 32) (credential_ids v.doc)
      → unlock P v (windows D) w ≡ (ok s, w')
      → (call : AssertionCall D.Wide) × (out : Assertion D.Wide) × (after : P.Outside)
        × (id : Bytes) × (entry : SealedKey) × (D.get_assertion call w.outside
            ≡ ((0, some out), after))
        × (salted call ≡ v.doc.salt)
        × (allowed call.options.allow_credential_list.credentials ≡ credential_ids v.doc)
        × (bit_and (flags_of (result_of out).authenticator_data) 1 ≢ 0)
        × (v.doc.user_verified ≡ not (bit_and (flags_of (result_of out).authenticator_data) 4 == 0))
        × (find_key v.doc id ≡ some entry)
        × (unwrap_data_key P.crypto v.doc entry (result_of out).hmac_secret ≡ ok s.data_key)
  unlock-windows w' s short h =
      let (answer, entry, _, answered, present, same, found, unwrapped, _, _) =
        unlock-eq-ok P v (windows D) w w' s h in
      let req = unlock_request v.doc in
      let after = (derive D req w.outside).1 in
      let (res, valid, asserted, _, up, uv, secret, _, _) =
        derive-eq-ok D req w.outside after answer (ground (arith, answered)) in
      let (_, _, full) = (validate_iff req).0 valid in
      let (call, out, asked, _, salt, ids, _, _, result) =
        get_assertion_asked D (assertion_request (D.console_window w.outside) req) w.outside after
          res (omega (arith, full)) short asserted in
      (
        call,
        out,
        after,
        answer.credential_id,
        entry,
        asked,
        salt,
        ids,
        ground (arith, up, present, result),
        sym same
            ∙ uv
            ∙ ap
                (λ (r : touchvault.Fido.Bindings.GetAssertionResult).
                  not (bit_and (flags_of r.authenticator_data) 4 == 0))
                result,
        found,
        ap
              (λ (r : touchvault.Fido.Bindings.GetAssertionResult).
                unwrap_data_key P.crypto v.doc entry r.hmac_secret)
              (sym result)
            ∙ ap (unwrap_data_key P.crypto v.doc entry) (sym secret)
            ∙ unwrapped,
      )
