-- ===== src/Vault/Prf.antt =====
-- A session that `Create` made with security keys that compute hmac-secret.
use touchvault.Base.{
  Bytes, Text, Bool, List, [], ◌∷◌, ◌≡◌, ◌∙◌, refl, All, arith, subst, sym, ap, inl, inr,
}
use touchvault.Errors.{ok}
use touchvault.Effects.{M, ◌>>=◌, pure}
use touchvault.Effects.Runs.{Run-cases}
use touchvault.Authenticator.{Authenticator, IsHmacSecret, uv_discouraged}
use touchvault.Platform.{Platform, IsFullRead}
use touchvault.Platform.Ciphers.{IsGcm}
use touchvault.World.{World}
use touchvault.Sealed.Document.{SealedVault}
use touchvault.Vault.Options.{Options, Session}
use touchvault.Vault.Create.{create}
use touchvault.Vault.Created.{create_lem}
use touchvault.Vault.Session.{Machine, read_string}
use touchvault.Vault.Calls.{
  Call, perform, perform_all, to_read, to_lock, to_put, to_delete, to_enroll, to_remove,
  to_force_remove, to_seal,
}
use touchvault.Vault.Calls.Sound.{IsSound}
use touchvault.Vault.Calls.Preserved.{perform-IsSound}
use touchvault.Vault.Calls.Derived.{Honest, Derives, derived_alone, perform-Derives}
use touchvault.Vault.Reopening.{create-IsSound}
use touchvault.Vault.Spec.{answer, answers}

-- Another value in place of the result changes nothing of the state.
bind_pure-state : {S A B : Type 0} (m : M S A) (b : B) (s : S) → ((m >>= λ _. pure b) s).1 ≡ (m s).1
bind_pure-state m b s = elim (Run-cases (m s)) [
  | inl (x, t, e) ↦ ground (arith)
  | inr (x, t, e) ↦ ground (arith)
]

-- The machine after the answers is the one after the calls.
answer-perform : (P : Platform) (c : Call P) (m : Machine P) → (answer P c m).1 ≡ (perform P c m).1
unfolding answer perform
answer-perform P (to_read name) m = sym (bind_pure-state (read_string P name) tt m)
answer-perform P to_lock m = bind_pure-state (perform P to_lock) [] m
answer-perform P (to_put name secret) m = bind_pure-state (perform P (to_put name secret)) [] m
answer-perform P (to_delete name) m = bind_pure-state (perform P (to_delete name)) [] m
answer-perform P (to_enroll auth slot label) m =
    bind_pure-state (perform P (to_enroll auth slot label)) [] m
answer-perform P (to_remove slot) m = bind_pure-state (perform P (to_remove slot)) [] m
answer-perform P (to_force_remove slot) m = bind_pure-state (perform P (to_force_remove slot)) [] m
answer-perform P to_seal m = bind_pure-state (perform P to_seal) [] m

pub answers-perform_all :
    (P : Platform) (cs : List (Call P)) (m : Machine P) → (answers P cs m).1 ≡ perform_all P cs m
unfolding answers perform_all
answers-perform_all P [] m = refl
answers-perform_all P (c ∷ cs) m =
    answers-perform_all P cs (answer P c m).1 ∙ ap (perform_all P cs) (answer-perform P c m)

module _ (P : Platform) (output : Text → Bytes → Bytes → Bool → Bytes) (law : IsGcm P.crypto)
    (full : IsFullRead P) where
  create-Derives :
      (auth : Authenticator P.Outside) (opts : Options P) (w w' : World P) (s : Session P)
      → IsHmacSecret output auth
      → create P auth opts w ≡ (ok s, w')
      → All (Derives P output s.doc s.data_key) s.doc.keys
  create-Derives auth opts w w' s prf created =
      let (
        cred, answer, entry, _, _, _, rpid, _, verified, _, _, one, _, same_id, unwraps, _, _, _,
        before, _, answered,
      ) =
        create_lem P law full auth opts w w' s created in
      let secret : answer.secret
          ≡ output s.doc.rpid entry.credential_id s.doc.salt s.doc.user_verified =
        ground (
          arith,
          rpid,
          verified,
          same_id,
          derived_alone output auth prf opts.rpid cred.credential_id s.doc.salt uv_discouraged
              before answer answered,
        ) in
      subst (λ ks. All (Derives P output s.doc s.data_key) ks) (sym one) (rw secret at unwraps, tt)

  calls_keep :
      (h : SealedVault) (data_key : Bytes) (cs : List (Call P)) (m : Machine P)
      → All (Honest output) cs
      → IsSound P h data_key m.session
      → All (Derives P output h data_key) m.session.doc.keys
      → IsSound P h data_key (perform_all P cs m).session
        × All (Derives P output h data_key) (perform_all P cs m).session.doc.keys
  unfolding perform_all
  calls_keep h data_key [] m honest i all = (i, all)
  calls_keep h data_key (c ∷ cs) m (prf, honest) i all =
      calls_keep h data_key cs (perform P c m).1 honest
        (perform-IsSound P h data_key law full m c i)
        (perform-Derives P output h data_key law full m c prf i all)

  -- A session that `Create` made, after any calls, is sound, and each of its keys unwraps the data
  -- key with its output, where every security key computes hmac-secret.
  pub calls-Derives :
      (auth : Authenticator P.Outside) (opts : Options P) (w w' : World P) (s : Session P)
      → IsHmacSecret output auth
      → create P auth opts w ≡ (ok s, w')
      → (cs : List (Call P)) → All (Honest output) cs
      → let n = perform_all P cs (record { session = s; world = w' }) in
        IsSound P s.doc s.data_key n.session
        × All (Derives P output s.doc s.data_key) n.session.doc.keys
  calls-Derives auth opts w w' s prf created cs honest =
      calls_keep s.doc s.data_key cs (record { session = s; world = w' }) honest
        (create-IsSound P law full auth opts w w' s created)
        (create-Derives auth opts w w' s prf created)
