-- ===== src/Vault/Spec/Refines.antt =====
-- The methods of a session as calls of the store.
use touchvault.Base.{
  Bytes, Text, false, List, [], ◌∷◌, ◌≡◌, ◌≢◌, inl, inr, nat_Eq, arith, refl, ap, ◌∙◌,
}
use touchvault.Errors.{Result, ok, err, locked, no_such_secret}
use touchvault.Effects.{◌>>=◌, pure}
use touchvault.Effects.Runs.{Run-cases}
use touchvault.Authenticator.{Authenticator}
use touchvault.Platform.{Platform, IsFullRead}
use touchvault.Platform.Ciphers.{Crypto, IsGcm}
use touchvault.Sealed.Document.{SealedVault}
use touchvault.Sealed.Find.{find_secret, find_secret_in}
use touchvault.Vault.Options.{Session}
use touchvault.Vault.Session.{Machine, read_string, lock, sealed}
use touchvault.Vault.Session.Reading.{contents, read_string_lem}
use touchvault.Vault.Calls.{
  Call, perform, to_read, to_lock, to_put, to_delete, to_enroll, to_remove, to_force_remove,
  to_seal,
}
use touchvault.Vault.Calls.Sound.{IsSound}
use touchvault.Vault.Calls.Preserved.{perform-IsSound}
use touchvault.Vault.Spec.{
  Store, empty_store, read_store, IsWrite, Allowed, reads, locks, seals, AllowedAll, done,
  then_call, answer, answers,
}
use touchvault.World.{World}
use touchvault.Vault.Options.{Options}
use touchvault.Vault.Create.{create}
use touchvault.Vault.Created.{create_lem}
use touchvault.Vault.Reopening.{create-IsSound}
use touchvault.Vault.Spec.Represents.{Represents, same-Represents}
use touchvault.Vault.Spec.Refused.{refused}
use touchvault.Vault.Spec.Writes.{write_allowed}
use touchvault.Vault.Spec.Listed.{Lists, list_names-Lists}
use touchvault.Base.{length}
use touchvault.Crypto.Pure.{data_key_len}

contents-locked :
    (C : Crypto) (doc : SealedVault) (name : Text) → contents C doc [] name ≡ err locked
unfolding contents
contents-locked C doc name = refl

contents-empty :
    (C : Crypto) (doc : SealedVault) (data_key : Bytes) (name : Text)
    → doc.secrets ≡ []
    → data_key ≢ []
    → contents C doc data_key name ≡ err no_such_secret
unfolding contents find_secret find_secret_in
contents-empty C doc data_key name empty keyed = ground arith

module _ (P : Platform) (h : SealedVault) (data_key : Bytes) (law : IsGcm P.crypto)
    (full : IsFullRead P) (size : length data_key ≡ data_key_len) where
  keyed : data_key ≢ []
  keyed e = absurd (ground (arith, size, e))

  -- A call of a method, and what it answers, is a call that the store allows.
  abbrev StepAllowed : Call P → Machine P → Store → Type 0
  StepAllowed c m a =
      (b : Store) × Allowed a c (answer P c m).0 b × Represents P h data_key (answer P c m).1 b

  stepped :
      (c : Call P) (m n : Machine P) (a b : Store) (res : Result Text)
      → answer P c m ≡ (res, n)
      → Allowed a c res b
      → Represents P h data_key n b
      → StepAllowed c m a
  stepped c m n a b res e allowed r = (b, rw e allowed, rw e r)

  -- A name reads as it does in the store.
  read_shown :
      (name : Text) (m : Machine P) (a : Store)
      → Represents P h data_key m a
      → contents P.crypto m.session.doc m.session.data_key name ≡ read_store a name
  read_shown name m a r = elim r.sound.held [
    | inl gone ↦ ground (arith, gone, contents-locked P.crypto m.session.doc name, r.lock_state)
    | inr same ↦ ground (arith, same, keyed, r.lock_state, r.shown name)
  ]

  pub read_represented :
      (name : Text) (m : Machine P) (a : Store)
      → Represents P h data_key m a
      → (read_string P name m).0 ≡ read_store a name
  read_represented name m a r = ap (λ t. t.0) (read_string_lem P name m) ∙ read_shown name m a r

  read_allowed :
      (name : Text) (m : Machine P) (a : Store)
      → Represents P h data_key m a
      → StepAllowed (to_read name) m a
  unfolding answer
  read_allowed name m a r =
      stepped (to_read name) m m a a (read_store a name)
        (read_string_lem P name m ∙ ap (λ t. (t, m)) (read_shown name m a r)) (reads name) r

  seal_allowed : (m : Machine P) (a : Store) → Represents P h data_key m a → StepAllowed to_seal m a
  unfolding answer perform sealed
  seal_allowed m a r = elim (Run-cases (answer P to_seal m)) [
    | inl (t, n, e) ↦
        stepped to_seal m n a a (ok t) e (seals (ok t))
          (same-Represents P h data_key m n a r (ground arith))
    | inr (x, n, e) ↦
        stepped to_seal m n a a (err x) e (seals (err x))
          (same-Represents P h data_key m n a r (ground arith))
  ]

  wrote_allowed :
      (c : Call P) (m : Machine P) (a : Store)
      → IsWrite c
      → Represents P h data_key m a
      → (answer P c m ≡ (perform P c >>= λ _. pure []) m)
      → StepAllowed c m a
  wrote_allowed c m a w r e = elim (Run-cases (perform P c m)) [
    | inr (x, n, failed) ↦
        let (allowed, kept) = refused P h data_key law size c m n a x w r failed in
        stepped c m n a a (err x) (ground (arith, e, failed)) allowed kept
    | inl (u, n, made) ↦
        let sound : IsSound P h data_key n.session =
          rw made at (perform-IsSound P h data_key law full m c r.sound) in
        let (b, allowed, kept) = write_allowed P h data_key law full keyed c m n a w r made sound in
        stepped c m n a b (ok []) (ground (arith, e, made)) allowed kept
  ]

  -- In a session that stands for a store, every call answers as the store allows, and leaves a
  -- session that stands for the store after it.
  answer-Allowed :
      (c : Call P) (m : Machine P) (a : Store) → Represents P h data_key m a → StepAllowed c m a
  unfolding answer perform lock
  answer-Allowed (to_read name) m a r = read_allowed name m a r
  answer-Allowed to_seal m a r = seal_allowed m a r
  answer-Allowed to_lock m a r = (
    record a { unlocked = false },
    locks,
    record {
      sound = record {
        header = r.sound.header;
        held = inl refl;
        well_formed = r.sound.well_formed;
        secrets_open = r.sound.secrets_open;
        keys_unwrap = r.sound.keys_unwrap;
      };
      lock_state = refl;
      shown = r.shown;
    },
  )
  answer-Allowed (to_put name secret) m a r = wrote_allowed (to_put name secret) m a tt r refl
  answer-Allowed (to_delete name) m a r = wrote_allowed (to_delete name) m a tt r refl
  answer-Allowed (to_enroll auth slot label) m a r =
      wrote_allowed (to_enroll auth slot label) m a tt r refl
  answer-Allowed (to_remove slot) m a r = wrote_allowed (to_remove slot) m a tt r refl
  answer-Allowed (to_force_remove slot) m a r = wrote_allowed (to_force_remove slot) m a tt r refl

  pub answers-AllowedAll :
      (cs : List (Call P)) (m : Machine P) (a : Store)
      → Represents P h data_key m a
      → (b : Store) × AllowedAll a cs (answers P cs m).0 b
        × Represents P h data_key (answers P cs m).1 b
  unfolding answers
  answers-AllowedAll [] m a r = (a, done, r)
  answers-AllowedAll (c ∷ cs) m a r =
      let (b, allowed, kept) = answer-Allowed c m a r in
      let (d, rest, last) = answers-AllowedAll cs (answer P c m).1 b kept in
      (d, then_call allowed rest, last)

module _ (P : Platform) (law : IsGcm P.crypto) (full : IsFullRead P)
    (auth : Authenticator P.Outside) (opts : Options P) where
  -- A session that `Create` returned stands for the empty store, and so do the states that calls
  -- lead to for the stores that the calls lead to.
  pub created-AllowedAll :
      (w w' : World P) (s : Session P) (cs : List (Call P))
      → create P auth opts w ≡ (ok s, w')
      → let run = answers P cs (record { session = s; world = w' }) in
        (b : Store) × AllowedAll empty_store cs run.0 b × Represents P s.doc s.data_key run.1 b
  created-AllowedAll w w' s cs created =
      let m : Machine P = record { session = s; world = w' } in
      let (_, _, _, _, _, _, _, _, _, _, empty, _, _, _, _, size, _, _, _, _, _) =
        create_lem P law full auth opts w w' s created in
      let keyed : s.data_key ≢ [] = λ e. absurd (ground (arith, size, e)) in
      answers-AllowedAll P s.doc s.data_key law full size cs m empty_store (record {
        sound = create-IsSound P law full auth opts w w' s created;
        lock_state = ground (arith, keyed);
        shown = λ name. contents-empty P.crypto s.doc s.data_key name empty keyed;
      })

  -- The methods of a session implement the store. Where the ciphers and the entropy source work as
  -- documented, whatever calls are made on a session that `Create` returned, whichever of them
  -- fail, their answers are ones that a store allows which starts empty and unlocked, and at the
  -- end a name reads as it does in that store, and `Names` lists those that have a value.
  pub answers_refine :
      (w w' : World P) (s : Session P) (cs : List (Call P))
      → create P auth opts w ≡ (ok s, w')
      → let run = answers P cs (record { session = s; world = w' }) in
        (b : Store) × AllowedAll empty_store cs run.0 b
        × ((name : Text) → (read_string P name run.1).0 ≡ read_store b name)
        × Lists P run.1 b
  answers_refine w w' s cs created =
      let (_, _, _, _, _, _, _, _, _, _, _, _, _, _, _, size, _, _, _, _, _) =
        create_lem P law full auth opts w w' s created in
      let (b, allowed, last) = created-AllowedAll w w' s cs created in
      let keyed : s.data_key ≢ [] = λ e. absurd (ground (arith, size, e)) in
      (
        b,
        allowed,
        λ name. read_represented P s.doc s.data_key law full size name _ b last,
        list_names-Lists P s.doc s.data_key keyed _ b last,
      )
