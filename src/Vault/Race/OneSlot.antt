-- ===== src/Vault/Race/OneSlot.antt =====
-- Two sessions of one vault that each enroll a key, into the same slot.
use touchvault.Base.{
  All, All-append, ℕ, ℤ, Bytes, Text, some, false, List, [], ◌∷◌, ◌++◌, ◌≡◌, refl, arith, ap, ◌∙◌,
  sym, length, is_empty, is_negative, map, Distinct, nat_Eq, inl, inr, Done,
}
use touchvault.Errors
use touchvault.Errors.{Result, ok, err, refuse_if, negative_slot, wrong_format, Result-cases}
use touchvault.Effects as Effects
use touchvault.Effects.Programs.{Prog, done, tick, run, gets, ◌>>=◌, ◌>>◌}
use touchvault.Effects.Programs
use touchvault.Authenticator.{Authenticator, salt_len}
use touchvault.Platform.{Platform, NeverFails}
use touchvault.Platform.Ciphers.{IsGcm}
use touchvault.Platform.Serializer.{Json, IsJson, coerced_key, coerced_vault}
use touchvault.World.{World}
use touchvault.Sealed.Document.{SealedKey, SealedVault}
use touchvault.Sealed.Find.{slot_occupied}
use touchvault.Sealed.Parse.{marshal, parse_sealed}
use touchvault.Sealed.Parse.Valid.{slots_of}
use touchvault.Sealed.Parse.Exact.{parse_sealed_iff, parse_sealed_error}
use touchvault.Threads.{Event}
use touchvault.Threads.Paused.{peel, overlap}
use touchvault.Vault.Session.{Machine, key, set_keys}
use touchvault.Vault.Calls.{to_enroll}
use touchvault.Vault.Open.{open_vault, open_with}
use touchvault.Vault.Shared.{Shared}
use touchvault.Vault.Steps.{document, enroll_steps, enrolling_steps}
use touchvault.Vault.Working.{IsWorkingKey}
use touchvault.Vault.Goroutines.{Request, makes, Reply, nothing, program}
use touchvault.Vault.Goroutines.Alone.{run-then_pure}
use touchvault.Vault.Race.{crews, mutex, method, in_session, machine_of, put_back, data_key_of}
use touchvault.Vault.Race.Steps.{done-bind, peel-reads}
use touchvault.Vault.Race.Enrolling.{
  enrolling_returns, enrolling-KeepsKey, KeepsKey, KeepsKey-bind, run-in_session,
}

module _ (P : Platform) where
  abbrev finish : Prog (Machine P) Done → Prog (Machine P) Reply
  finish p = p >>= λ _. Programs.pure nothing

  abbrev check_slot : Bytes → Authenticator P.Outside → ℤ → Text → Prog (Machine P) Done
  check_slot data_key auth slot label = document P >>= λ doc.
      Programs.raise_if (slot_occupied doc slot) Errors.slot_occupied
      >> enrolling_steps P data_key auth slot label

  -- What is left of `EnrollKey` after its checks of the arguments.
  abbrev enrolling : ℕ → Bytes → Authenticator P.Outside → ℤ → Text → Prog (Shared P) Reply
  enrolling n data_key auth slot label =
      in_session P n (finish (enrolling_steps P data_key auth slot label))

  peel-enroll :
      (n : ℕ) (auth : Authenticator P.Outside) (slot : ℤ) (label : Text) (st : Shared P)
      → is_empty (data_key_of P n st) ≡ false
      → is_negative slot ≡ false
      → slot_occupied st.doc slot ≡ false
      → peel 2 (method P (n, makes (to_enroll auth slot label))) st
        ≡ some (enrolling n (data_key_of P n st) auth slot label, st)
  unfolding peel program enroll_steps ◌>>=◌ ◌>>◌ key
  peel-enroll n auth slot label st unlocked nonneg free =
      let m = machine_of P n st in
      let d = data_key_of P n st in
      peel-reads P 1 n
        (λ s. finish (
          done (key P s).0 >>= λ k.
          Programs.raise_if (is_negative slot) negative_slot >> check_slot k auth slot label))
        st
      ∙ ap (λ (p : Prog (Machine P) Done). peel 1 (in_session P n (finish p)) st)
          (done-bind (key P m).0
              (λ k.
                Programs.raise_if (is_negative slot) negative_slot >> check_slot k auth slot label)
              d (ground (arith))
            ∙ done-bind (refuse_if (is_negative slot) negative_slot)
                (λ _. check_slot d auth slot label) tt (ground (arith)))
      ∙ peel-reads P 0 n
          (λ s. finish (
            Programs.raise_if (slot_occupied s.session.doc slot) Errors.slot_occupied
            >> enrolling_steps P d auth slot label))
          st
      ∙ ap (λ (p : Prog (Machine P) Done). peel 0 (in_session P n (finish p)) st)
          (done-bind (refuse_if (slot_occupied st.doc slot) Errors.slot_occupied)
            (λ _. enrolling_steps P d auth slot label) tt (ground (arith)))

module _ (P : Platform) (law : IsGcm P.crypto) (never : NeverFails P) where
  -- The vault after an entry was added through a session.
  abbrev added : ℕ → Shared P → SealedKey → World P → Shared P
  added n t entry w =
      put_back P n
        (set_keys P (t.doc.keys ++ (entry ∷ [])) (record (machine_of P n t) { world = w })) t

  run-enrolling :
      (n : ℕ) (data_key : Bytes) (auth : Authenticator P.Outside) (slot : ℤ) (label : Text)
      (t : Shared P) (working : IsWorkingKey P auth t.opts.roots)
      → length t.doc.salt ≡ salt_len
      → All (λ k. ¬ working.mine t.doc.rpid k.credential_id) t.doc.keys
      → working.verified ≡ t.doc.user_verified
      → (entry : SealedKey) × (w : World P) × (run (enrolling P n data_key auth slot label) t
          ≡ (ok nothing, added n t entry w))
        × (entry.slot ≡ slot)
        × working.mine t.doc.rpid entry.credential_id
  unfolding KeepsKey
  run-enrolling n data_key auth slot label t working size new same_uv =
      let m = machine_of P n t in
      let p = enrolling_steps P data_key auth slot label in
      let (entry, w, ran, at, id) =
        enrolling_returns P law never data_key auth slot label m working size new same_uv in
      let keeps =
        KeepsKey-bind p (λ _. Programs.pure nothing) (enrolling-KeepsKey P data_key auth slot label)
          (λ _. tt) in
      let alone : run (finish P p) m
          ≡ Effects.◌>>=◌
              (λ _. (ok tt, set_keys P (t.doc.keys ++ (entry ∷ [])) (record m { world = w })))
              (λ _. Effects.pure nothing) m =
        run-then_pure p
          (λ _. (ok tt, set_keys P (t.doc.keys ++ (entry ∷ [])) (record m { world = w })))
          (λ _. nothing) m ran in
      (
        entry,
        w,
        run-in_session P n (finish P p) t keeps
            ∙ ap (λ (r : Result Reply × Machine P). (r.0, put_back P n r.1 t)) alone,
        at,
        id,
      )

-- Two entries in one slot at the end of a list, whatever was done to their labels.
same_slots :
    (J : Json) (ks : List SealedKey) (a b : SealedKey)
    → a.slot ≡ b.slot
    → ¬ Distinct (slots_of (map (coerced_key J) ((ks ++ (a ∷ [])) ++ (b ∷ []))))
same_slots J [] a b e d = d.0.0 e
same_slots J (k ∷ ks) a b e d = same_slots J ks a b e d.1

module _ (P : Platform) (law : IsGcm P.crypto) (never : NeverFails P) (json : IsJson P.json) where
  -- A document that ends with two entries in one slot is written, and refused when it is read.
  refused :
      (v : SealedVault) (ks : List SealedKey) (a b : SealedKey)
      → v.keys ≡ (ks ++ (a ∷ [])) ++ (b ∷ [])
      → a.slot ≡ b.slot
      → (bytes : Bytes) × (marshal P.json v ≡ ok bytes) × (open_vault P bytes ≡ err wrong_format)
  unfolding marshal open_vault open_with
  refused v ks a b keys same =
      let (bytes, written, read) = json.unmarshal-marshal v in
      let no : parse_sealed P.json bytes ≡ err wrong_format =
        elim (Result-cases (parse_sealed P.json bytes)) [
          | inl (u, parsed) ↦
              let good = (parse_sealed_iff P.json bytes u).0 parsed in
              let is_v : u ≡ coerced_vault P.json v = ground (arith, good.0, read) in
              absurd (same_slots P.json ks a b same (rw keys at (rw is_v at good.1.slots_differ)))
          | inr (x, failed) ↦ rw (parse_sealed_error P.json bytes x failed) at failed
        ] in
      (bytes, ground (arith), rw no refl)

  -- Where the ciphers, the entropy source and JSON work as documented: a vault with two sessions
  -- that are unlocked, a slot that is free, and two working keys that have no credential in common
  -- and none that is enrolled, and verify the operator as the document says. Two goroutines call
  -- `EnrollKey` for that slot, one of the first session with the one key, and one of the second
  -- session with the other. There is a schedule of their steps by which both calls succeed and the
  -- document is then written without an error into bytes that no longer open: their format is
  -- refused.
  pub slot_race :
      (st : Shared P) (auth other : Authenticator P.Outside) (slot : ℤ) (label : Text)
      (working : IsWorkingKey P auth st.opts.roots) (also : IsWorkingKey P other st.opts.roots)
      → length st.doc.salt ≡ salt_len
      → is_empty (data_key_of P 0 st) ≡ false
      → is_empty (data_key_of P 1 st) ≡ false
      → is_negative slot ≡ false
      → slot_occupied st.doc slot ≡ false
      → All (λ k. ¬ working.mine st.doc.rpid k.credential_id) st.doc.keys
      → All (λ k. ¬ also.mine st.doc.rpid k.credential_id) st.doc.keys
      → ((id : Bytes) → working.mine st.doc.rpid id → ¬ also.mine st.doc.rpid id)
      → working.verified ≡ st.doc.user_verified
      → also.verified ≡ st.doc.user_verified
      → (es : List (Event (ℕ × Request P))) × ((crews P es st).log
          ≡ (1, (1, makes (to_enroll other slot label)), ok nothing)
            ∷ (0, (0, makes (to_enroll auth slot label)), ok nothing)
            ∷ [])
        × (bytes : Bytes) × (marshal P.json (crews P es st).shared.doc ≡ ok bytes)
        × (open_vault P bytes ≡ err wrong_format)
  unfolding crews
  slot_race st auth other slot label working also size key₀ key₁ nonneg free new₀ new₁ differ uv₀
        uv₁ =
      let (es, (left, logged)) =
        overlap (mutex P) (method P) (0, makes (to_enroll auth slot label))
          (1, makes (to_enroll other slot label)) 2 2 st (λ h. omega (arith, h))
          (peel-enroll P 0 auth slot label st key₀ nonneg free)
          (peel-enroll P 1 other slot label st key₁ nonneg free) in
      let (a, w, ran, at, id) =
        run-enrolling P law never 0 (data_key_of P 0 st) auth slot label st working size new₀ uv₀ in
      let t = added P law never 0 st a w in
      let still_new =
        All-append (λ k. ¬ also.mine st.doc.rpid k.credential_id) st.doc.keys (a ∷ []) new₁
          (differ a.credential_id id, tt) in
      let (b, w', ran', at', id') =
        run-enrolling P law never 1 (data_key_of P 1 st) other slot label t also size still_new
          uv₁ in
      let first : run (enrolling P 1 (data_key_of P 1 st) other slot label)
            (run (enrolling P 0 (data_key_of P 0 st) auth slot label) st).1
          ≡ (ok nothing, added P law never 1 t b w') =
        ap
          (λ (x : Result Reply × Shared P).
            run (enrolling P 1 (data_key_of P 1 st) other slot label) x.1)
          ran
        ∙ ran' in
      let keys =
        ap (λ (x : Shared P). x.doc.keys)
          (left ∙ ap (λ (x : Result Reply × Shared P). x.1) first) in
      let (bytes, written, unread) =
        refused (crews P es st).shared.doc st.doc.keys a b keys (at ∙ sym at') in
      (es, rw (first, ran) at logged, bytes, written, unread)
