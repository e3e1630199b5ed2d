-- ===== src/Vault/Touches/Enrolling.antt =====
-- What `EnrollKey` asks of the operator.
use touchvault.Base.{
  ℤ, Text, Bool, false, ◌≡◌, arith, inl, inr, append-nil, is_empty, is_negative, bool_ne, ◌||◌,
  if◌then◌else◌, ◌∙◌, Bool-cases,
}
use touchvault.Errors.{ok}
use touchvault.Effects.Runs.{Run-cases}
use touchvault.Authenticator.{Authenticator, UserVerification, EnrollResult, DeriveResult}
use touchvault.Platform.{Platform}
use touchvault.World.{World}
use touchvault.Sealed.Document.{SealedVault}
use touchvault.Sealed.Find.{find_key, slot_occupied, uv_requirement}
use touchvault.Crypto.Seal.{wrap_data_key}
use touchvault.Entropy.{verify_derivation_depends_on_salt}
use touchvault.Vault.Options.{default_label}
use touchvault.Vault.Create.{enroll_and_derive}
use touchvault.Vault.Enrollment.{enroll_and_derive-eq-ok}
use touchvault.Vault.Session.{Machine, enroll_key, key, is_enrolled}
use touchvault.Vault.Touches.{
  Touched, enroll_and_derive-Touched, gestures-verify, gestures-wrap_data_key, more_touches,
}

module _ (P : Platform) (auth : Authenticator P.Outside) (m : Machine P) (slot : ℤ)
    (name : Text) where
  abbrev doc : SealedVault
  doc = m.session.doc

  abbrev uv : UserVerification
  uv = uv_requirement m.session.doc

  -- Refused with no touch: the session is locked, or the slot cannot be taken.
  abbrev pub early : Bool
  early = is_empty m.session.data_key || is_negative slot || slot_occupied m.session.doc slot

  enrolled_touches :
      (w₁ : World P) (cred : EnrollResult) (answer : DeriveResult)
      → early ≡ false
      → enroll_and_derive P auth doc m.session.opts uv m.world ≡ (ok (cred, answer), w₁)
      → Touched P auth m.session.opts doc uv m.world (enroll_key P auth slot name m).1.world
  unfolding enroll_key key
  enrolled_touches w₁ cred answer fine made =
      let opts = m.session.opts in
      let e = enroll_and_derive-eq-ok P auth doc opts uv m.world w₁ cred answer made in
      let (k, small, asked) =
        gestures-verify P auth opts doc.rpid cred.credential_id doc.salt answer.secret uv
          answer.user_verified w₁ in
      elim (Bool-cases (
        is_enrolled (find_key doc cred.credential_id)
        || bool_ne answer.user_verified doc.user_verified)) [
          | inl refused ↦
              more_touches P auth opts doc uv m.world w₁ _ cred answer 0 e (omega arith)
                (ground (arith, append-nil w₁.gestures))
          | inr passed ↦
              let id = cred.credential_id in
              let gate =
                verify_derivation_depends_on_salt P auth doc.rpid id doc.salt answer.secret uv
                  answer.user_verified w₁ in
              let label' = if is_empty name then default_label else name in
              let after : (enroll_key P auth slot name m).1.world.gestures ≡ gate.1.gestures =
                elim (Run-cases gate) [
                  | inr (x, w₂, failed) ↦ ground arith
                  | inl (u, w₂, through) ↦
                      let same =
                        gestures-wrap_data_key P auth opts doc m.session.data_key id answer.secret
                          slot label' w₂ in
                      elim (Run-cases
                        (wrap_data_key P doc m.session.data_key id answer.secret slot label' w₂)) [
                          | inr (x, w₃, failed) ↦ ground (arith, same)
                          | inl (entry, w₃, wrapped) ↦ ground (arith, same)
                        ]
                ] in
              more_touches P auth opts doc uv m.world w₁ _ cred answer k e small (after ∙ asked)
        ]

  -- Whatever becomes of an `EnrollKey`: a locked session, and a slot that is negative or occupied,
  -- are refused with no touch. Otherwise at most three touches are asked for, in this order: to
  -- make a credential, to derive over the vault's salt from the credential that the authenticator
  -- returned, and to derive from it over the salt with its last byte flipped.
  pub enroll_key-Touched :
      let after = (enroll_key P auth slot name m).1.world in
      if early
      then (after.gestures ≡ m.world.gestures)
      else Touched P auth m.session.opts m.session.doc (uv_requirement m.session.doc) m.world after
  unfolding enroll_key key
  enroll_key-Touched = elim (Bool-cases early) [
    | inl refused ↦ rw refused (ground arith)
    | inr fine ↦
        rw fine (elim (Run-cases (enroll_and_derive P auth doc m.session.opts uv m.world)) [
          | inl (ca, w₁, made) ↦ enrolled_touches w₁ ca.0 ca.1 fine made
          | inr (x, w₁, failed) ↦
              let t = enroll_and_derive-Touched P auth m.session.opts doc uv m.world in
              record {
                count = t.count;
                user_id = t.user_id;
                id = t.id;
                at_most = t.at_most;
                cred = t.cred;
                before = t.before;
                its_own = t.its_own;
                gestures = ground (arith, t.gestures);
              }
        ])
  ]
