-- ===== src/Vault/Spec/Writes.antt =====
-- The calls that write, as calls of the store.
use touchvault.Base.{
  ℤ, Bytes, Text, false, Option, none, some, List, [], ◌∷◌, ◌≡◌, ◌≢◌, inl, inr, All, Bool-cases,
  Option-cases, is_empty, list_eq, nat_Eq, arith, ap, ◌∙◌, ◌++◌, subst,
}
use touchvault.Errors.{Result, ok}
use touchvault.Platform.{Platform, IsFullRead}
use touchvault.Platform.Ciphers.{IsGcm}
use touchvault.Sealed.Document.{SealedVault, SealedKey, SealedSecret}
use touchvault.Sealed.Find.{find_secret, find_secret_in}
use touchvault.Vault.Options.{Session}
use touchvault.Vault.Session.{
  Machine, put, delete, delete_secret, remove_key, force_remove_key, remove_entry, keys_without,
  sealed, key,
}
use touchvault.Vault.Session.Reading.{contents, read_string_lem}
use touchvault.Vault.Session.Writing.{put-eq-ok, read_string-put, delete-eq-ok, read_string-delete}
use touchvault.Vault.Session.Enrolling.{enroll_key-eq-ok}
use touchvault.Vault.Calls.{
  Call, perform, to_read, to_lock, to_put, to_delete, to_enroll, to_remove, to_force_remove,
  to_seal,
}
use touchvault.Vault.Calls.Sound.{IsSound, Opens, held_unlocked, open_secret-header}
use touchvault.Vault.Spec.{
  Store, update, IsWrite, Allowed, puts, deletes, enrolls, removes, force_removes,
}
use touchvault.Vault.Spec.Represents.{Represents, contents-keys}

module _ (P : Platform) (h : SealedVault) (data_key : Bytes) where
  found_secret :
      (name : Text) (ss kept : List SealedSecret)
      → delete_secret name ss ≡ some kept
      → (e : SealedSecret) × (find_secret_in ss name ≡ some e)
  unfolding delete_secret find_secret_in
  found_secret name [] kept e = absurd (ground arith)
  found_secret name (s ∷ ss) kept e = elim (Bool-cases (list_eq s.name name)) [
    | inl here ↦ (s, ground arith)
    | inr later ↦ elim (Option-cases (delete_secret name ss)) [
      | inl missing ↦ absurd (ground arith)
      | inr (rest, found) ↦ let (f, g) = found_secret name ss rest found in (f, ground arith)
    ]
  ]

  pub opened_secret :
      (ss : List SealedSecret) (name : Text) {e : SealedSecret}
      → All (Opens P.crypto h data_key) ss
      → find_secret_in ss name ≡ some e
      → Opens P.crypto h data_key e
  unfolding find_secret_in
  opened_secret [] name o f = absurd (ground arith)
  opened_secret (s ∷ ss) name {e} o f = elim (Bool-cases (list_eq s.name name)) [
    | inl here ↦ subst (Opens P.crypto h data_key) (ground arith) o.0
    | inr later ↦ opened_secret ss name o.1 (ground arith)
  ]

  -- A name that can be deleted has a value.
  deleted_value :
      (name : Text) (m : Machine P) (a : Store) (kept : List SealedSecret)
      → data_key ≢ []
      → Represents P h data_key m a
      → delete_secret name m.session.doc.secrets ≡ some kept
      → (p : Bytes) × (a.values name ≡ some p)
  unfolding contents find_secret
  deleted_value name m a kept keyed r e =
      let (entry, found) = found_secret name m.session.doc.secrets kept e in
      let (p, opens) = opened_secret m.session.doc.secrets name r.sound.secrets_open found in
      let opens' = open_secret-header P h data_key m.session data_key entry r.sound in
      elim (Option-cases (a.values name)) [
        | inl missing ↦ absurd (ground (arith, r.shown name))
        | inr there ↦ there
      ]

  remove_key-after :
      (slot : ℤ) (m n : Machine P)
      → remove_key P slot m ≡ (ok tt, n)
      → (is_empty m.session.data_key ≡ false)
        × (n.session ≡ record (m.session) {
          doc = record (m.session.doc) { keys = keys_without slot m.session.doc.keys };
        })
  unfolding remove_key remove_entry key
  remove_key-after slot m n made = ground arith

  force_remove_key-after :
      (slot : ℤ) (m n : Machine P)
      → force_remove_key P slot m ≡ (ok tt, n)
      → (is_empty m.session.data_key ≡ false)
        × (n.session ≡ record (m.session) {
          doc = record (m.session.doc) { keys = keys_without slot m.session.doc.keys };
        })
  unfolding force_remove_key remove_entry key
  force_remove_key-after slot m n made = ground arith

  module _ (law : IsGcm P.crypto) (full : IsFullRead P) (keyed : data_key ≢ []) where
    put_allowed :
        (name : Text) (secret : Option (Result Bytes)) (m n : Machine P) (a : Store)
        → Represents P h data_key m a
        → put P name secret m ≡ (ok tt, n)
        → IsSound P h data_key n.session
        → (b : Store) × Allowed {P = P} a (to_put name secret) (ok []) b
          × Represents P h data_key n b
    put_allowed name secret m n a r made sound =
        let (p, entry, w, given, named, unlocked, sealed, after) =
          put-eq-ok P name secret m n made in
        let same = held_unlocked P h data_key m.session r.sound unlocked in
        let kept = ap (λ (o : Machine P). o.session.data_key) after in
        let b : Store = record a { values = update a.values name (some p) } in
        (
          b,
          rw given (puts name p (ground arith) (ground (arith, r.lock_state))),
          record {
            sound = sound;
            lock_state = ground (arith, r.lock_state, kept);
            shown = λ other. ground (
              arith,
              same,
              kept,
              r.shown other,
              read_string-put P law full name p other m n (rw given at made),
              read_string_lem P other m,
              read_string_lem P other n,
            );
          },
        )

    delete_allowed :
        (name : Text) (m n : Machine P) (a : Store)
        → Represents P h data_key m a
        → delete P name m ≡ (ok tt, n)
        → IsSound P h data_key n.session
        → (b : Store) × Allowed {P = P} a (to_delete name) (ok []) b × Represents P h data_key n b
    delete_allowed name m n a r made sound =
        let (rest, unlocked, deleted, after) = delete-eq-ok P name m n made in
        let same = held_unlocked P h data_key m.session r.sound unlocked in
        let kept = ap (λ (o : Machine P). o.session.data_key) after in
        let (p, there) = deleted_value name m a rest keyed r deleted in
        let b : Store = record a { values = update a.values name none } in
        (
          b,
          deletes name p there (ground (arith, r.lock_state)),
          record {
            sound = sound;
            lock_state = ground (arith, r.lock_state, kept);
            shown = λ other. ground (
              arith,
              same,
              kept,
              r.shown other,
              read_string-delete P name m n r.sound.well_formed.names_differ made other,
              read_string_lem P other m,
              read_string_lem P other n,
            );
          },
        )

    -- A call that changes the keys of the document stands for nothing in the store.
    keys_changed :
        (m n : Machine P) (a : Store) (ks : List SealedKey)
        → Represents P h data_key m a
        → n.session ≡ record (m.session) { doc = record (m.session.doc) { keys = ks } }
        → IsSound P h data_key n.session
        → Represents P h data_key n a
    keys_changed m n a ks r after sound = record {
      sound = sound;
      lock_state = ground (arith, r.lock_state, after);
      shown = λ name.
          ap (λ (s : Session P). contents P.crypto s.doc data_key name) after
          ∙ contents-keys P h data_key m.session.doc ks name
          ∙ r.shown name;
    }

    pub write_allowed :
        (c : Call P) (m n : Machine P) (a : Store)
        → IsWrite c
        → Represents P h data_key m a
        → perform P c m ≡ (ok tt, n)
        → IsSound P h data_key n.session
        → (b : Store) × Allowed a c (ok []) b × Represents P h data_key n b
    unfolding perform
    write_allowed (to_read name) m n a w r made sound = absurd w
    write_allowed to_lock m n a w r made sound = absurd w
    write_allowed to_seal m n a w r made sound = absurd w
    write_allowed (to_put name secret) m n a w r made sound =
        put_allowed name secret m n a r made sound
    write_allowed (to_delete name) m n a w r made sound = delete_allowed name m n a r made sound
    write_allowed (to_enroll auth slot label) m n a w r made sound =
        let e = enroll_key-eq-ok P auth slot label m n made in
        (
          a,
          enrolls auth slot label (ground (arith, r.lock_state, e.unlocked)),
          keys_changed m n a (m.session.doc.keys ++ (e.entry ∷ [])) r
              (ap (λ (o : Machine P). o.session) e.after) sound,
        )
    write_allowed (to_remove slot) m n a w r made sound =
        let (unlocked, after) = remove_key-after slot m n made in
        (
          a,
          removes slot (ground (arith, r.lock_state, unlocked)),
          keys_changed m n a (keys_without slot m.session.doc.keys) r after sound,
        )
    write_allowed (to_force_remove slot) m n a w r made sound =
        let (unlocked, after) = force_remove_key-after slot m n made in
        (
          a,
          force_removes slot (ground (arith, r.lock_state, unlocked)),
          keys_changed m n a (keys_without slot m.session.doc.keys) r after sound,
        )
