-- ===== src/Vault/Race/Enrolling.antt =====
-- `EnrollKey` after its checks, among the sessions of a vault.
use touchvault.Base.{
  All, ℕ, zero, suc, ℤ, Bytes, Text, List, [], ◌∷◌, ◌++◌, ◌≡◌, refl, arith, ap, ◌∙◌, sym, length,
  is_empty, if◌then◌else◌, bool_ne,
}
use touchvault.Errors.{Result, ok, err, already_enrolled, user_verification_mismatch}
use touchvault.Effects.Programs.{Prog, done, tick, run, gets, modify, atomic, raise_if, ◌>>=◌, ◌>>◌}
use touchvault.Authenticator.{Authenticator, salt_len}
use touchvault.Platform.{Platform, NeverFails}
use touchvault.Platform.Ciphers.{IsGcm}
use touchvault.World.{World}
use touchvault.Sealed.Document.{SealedKey}
use touchvault.Sealed.Find.{find_key, uv_requirement}
use touchvault.Crypto.Fields.{wrap_data_key-fields}
use touchvault.Vault.Options.{default_label}
use touchvault.Vault.Session.{Machine, set_keys, on_world, is_enrolled}
use touchvault.Vault.Shared.{Shared, set_nth}
use touchvault.Vault.Steps.{document, enrolling_steps}
use touchvault.Effects.{M}
use touchvault.Entropy.{verify_derivation_depends_on_salt}
use touchvault.Crypto.Seal.{wrap_data_key}
use touchvault.Vault.Create.{enroll_and_derive}
use touchvault.Vault.Race.Steps.{put_back-same}
use touchvault.Vault.Race.Reading.Invariant.{data_key_of-put_back}
use touchvault.Vault.Working.{IsWorkingKey}
use touchvault.Vault.Working.Enrolled.{enroll_and_derive_total, verify_total}
use touchvault.Vault.Working.Unlocks.{find_key_in-none}
use touchvault.Vault.Working.Entries.{wrap_data_key_total}
use touchvault.Vault.Race.{in_session, machine_of, put_back}

module _ (P : Platform) (law : IsGcm P.crypto) (never : NeverFails P) where
  -- With a working key they succeed, whatever slots are occupied by then.
  pub enrolling_returns :
      (data_key : Bytes) (auth : Authenticator P.Outside) (slot : ℤ) (name : Text) (m : Machine P)
      (working : IsWorkingKey P auth m.session.opts.roots)
      → length m.session.doc.salt ≡ salt_len
      → All (λ k. ¬ working.mine m.session.doc.rpid k.credential_id) m.session.doc.keys
      → working.verified ≡ m.session.doc.user_verified
      → (entry : SealedKey) × (w : World P) × (run (enrolling_steps P data_key auth slot name) m
          ≡ (ok tt, set_keys P (m.session.doc.keys ++ (entry ∷ [])) (record m { world = w })))
        × (entry.slot ≡ slot)
        × working.mine m.session.doc.rpid entry.credential_id
  unfolding enrolling_steps run ◌>>=◌ ◌>>◌ find_key
  enrolling_returns data_key auth slot name m working size others same_uv =
      let doc = m.session.doc in
      let uv = uv_requirement doc in
      let (cred, w₁, enrolled, mine, held₁, has_id) =
        enroll_and_derive_total P never auth m.session.opts working doc uv m.world size in
      let id = cred.credential_id in
      let prf = working.output doc.rpid id doc.salt in
      let new = find_key_in-none (working.mine doc.rpid) doc.keys id others mine in
      let (w₂, passed, held₂) =
        verify_total P never auth m.session.opts working doc.rpid id doc.salt uv w₁ held₁ has_id
          size in
      let label = if is_empty name then default_label else name in
      let (entry, w₃, wrapped) =
        wrap_data_key_total P law never doc data_key id prf slot label w₂
          (working.has_output doc.rpid id doc.salt has_id) in
      let fields = wrap_data_key-fields P doc data_key id prf slot label w₂ w₃ wrapped in
      (
        entry,
        w₃,
        ground (arith, new, same_uv, enrolled, passed, wrapped),
        fields.0,
        rw fields.2 mine,
      )

set_nth-twice :
    (n : ℕ) (ks : List Bytes) (a b : Bytes) → set_nth n a (set_nth n b ks) ≡ set_nth n a ks
unfolding set_nth
set_nth-twice n [] a b = refl
set_nth-twice zero (x ∷ ks) a b = refl
set_nth-twice (suc n) (x ∷ ks) a b = ap (λ (l : List Bytes). x ∷ l) (set_nth-twice n ks a b)

module _ {P : Platform} where
  -- Steps that leave the data key and the options alone.
  unfoldable pub KeepsKey : {A : Type 0} → Prog (Machine P) A → Type 0
  KeepsKey (done r) = Unit
  KeepsKey (tick f k) =
      ((s : Machine P)
        → ((f s).session.data_key ≡ s.session.data_key) × ((f s).session.opts ≡ s.session.opts))
      × ((s : Machine P) → KeepsKey (k s))

  pub KeepsKey-bind :
      {A B : Type 0} (p : Prog (Machine P) A) (g : A → Prog (Machine P) B)
      → KeepsKey p
      → ((a : A) → KeepsKey (g a))
      → KeepsKey (p >>= g)
  unfolding KeepsKey ◌>>=◌
  KeepsKey-bind (done (ok a)) g h k = k a
  KeepsKey-bind (done (err e)) g h k = tt
  KeepsKey-bind (tick f c) g (h, rest) k = (h, λ s. KeepsKey-bind (c s) g (rest s) k)

module _ (P : Platform) where
  reads-KeepsKey : {A : Type 0} (f : Machine P → A) → KeepsKey (gets f)
  unfolding KeepsKey
  reads-KeepsKey f = (λ s. (refl, refl), λ s. tt)

  on_world-KeepsKey : {A : Type 0} (c : M (World P) A) → KeepsKey (atomic (on_world P c))
  unfolding KeepsKey
  on_world-KeepsKey c = (λ s. (refl, refl), λ s. tt)

  result-KeepsKey : {A : Type 0} (r : Result A) → KeepsKey {P = P} (done r)
  unfolding KeepsKey
  result-KeepsKey r = tt

  writes-KeepsKey :
      (keys : Machine P → List SealedKey) → KeepsKey (modify λ s. set_keys P (keys s) s)
  unfolding KeepsKey
  writes-KeepsKey keys = (λ s. (refl, refl), λ s. tt)

  pub enrolling-KeepsKey :
      (data_key : Bytes) (auth : Authenticator P.Outside) (slot : ℤ) (name : Text)
      → KeepsKey (enrolling_steps P data_key auth slot name)
  unfolding enrolling_steps ◌>>◌
  enrolling-KeepsKey data_key auth slot name =
      KeepsKey-bind (gets λ (s : Machine P). uv_requirement s.session.doc) _ (reads-KeepsKey _)
        λ uv. KeepsKey-bind (document P) _ (reads-KeepsKey _) λ doc.
          KeepsKey-bind (gets λ (s : Machine P). s.session.opts) _ (reads-KeepsKey _) λ opts.
            KeepsKey-bind (atomic (on_world P (enroll_and_derive P auth doc opts uv))) _
              (on_world-KeepsKey _)
              λ pair.
                KeepsKey-bind (gets λ (s : Machine P). find_key s.session.doc pair.0.credential_id)
                  _ (reads-KeepsKey _)
                  λ found.
                    KeepsKey-bind (raise_if (is_enrolled found) already_enrolled) _
                      (result-KeepsKey _)
                      λ _.
                        KeepsKey-bind (gets λ (s : Machine P). s.session.doc.user_verified) _
                          (reads-KeepsKey _)
                          λ uv_now.
                            KeepsKey-bind
                              (raise_if (bool_ne pair.1.user_verified uv_now)
                                user_verification_mismatch)
                              _ (result-KeepsKey _)
                              λ _. KeepsKey-bind (document P) _ (reads-KeepsKey _) λ gate.
                                KeepsKey-bind
                                  (atomic (
                                    on_world P (
                                      verify_derivation_depends_on_salt P auth gate.rpid
                                        pair.0.credential_id gate.salt pair.1.secret uv
                                        pair.1.user_verified)))
                                  _ (on_world-KeepsKey _)
                                  λ _. KeepsKey-bind (document P) _ (reads-KeepsKey _) λ doc'.
                                    KeepsKey-bind
                                      (atomic (
                                        on_world P (
                                          wrap_data_key P doc' data_key pair.0.credential_id
                                            pair.1.secret slot
                                            (if is_empty name then default_label else name))))
                                      _ (on_world-KeepsKey _)
                                      λ entry.
                                        writes-KeepsKey (λ s. s.session.doc.keys ++ (entry ∷ []))

  -- The steps of a session alone, among the sessions of its vault.
  pub run-in_session :
      {A : Type 0} (n : ℕ) (p : Prog (Machine P) A) (st : Shared P)
      → KeepsKey p
      → run (in_session P n p) st
        ≡ ((run p (machine_of P n st)).0, put_back P n (run p (machine_of P n st)).1 st)
  unfolding run in_session KeepsKey
  run-in_session n (done r) st keeps = ap (λ (t : Shared P). (r, t)) (sym (put_back-same P n st))
  run-in_session n (tick f k) st (kept, rest) =
      let m = machine_of P n st in
      let t = put_back P n (f m) st in
      let (same_key, same_opts) = kept m in
      let mine : machine_of P n t ≡ f m =
        cc (data_key_of-put_back P n (f m) st (λ e. same_key ∙ e), same_opts) in
      run-in_session n (k m) t (rest m)
      ∙ ap (λ (x : Machine P). ((run (k m) x).0, put_back P n (run (k m) x).1 t)) mine
      ∙ ap
          (λ (ks : List Bytes).
            ((run (k m) (f m)).0, record (put_back P n (run (k m) (f m)).1 t) { data_keys = ks }))
          (set_nth-twice n st.data_keys (run (k m) (f m)).1.session.data_key (f m).session.data_key)
