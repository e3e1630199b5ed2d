-- ===== src/Vault/Session/Writing.antt =====
-- What `Put` and `Delete` change, seen through reading.
use touchvault.Base.{Bytes, Text, false, Option, none, some, List, [], ◌∷◌}
use touchvault.Base.{◌≡◌, ◌≢◌, is_empty, list_eq, list_eq_iff, nat_Eq, list_Eq, arith, inl, inr}
use touchvault.Base.{Option-cases, Bool-cases, All, Distinct, if◌then◌else◌, refl}
use touchvault.Errors.{Result, ok, err, no_such_secret}
use touchvault.Effects.Runs.{Run-cases}
use touchvault.Platform.{Platform, IsFullRead}
use touchvault.Platform.Ciphers.{Crypto, IsGcm}
use touchvault.World.{World}
use touchvault.Sealed.Document.{SealedVault, SealedSecret}
use touchvault.Sealed.Find.{find_secret, find_secret_in}
use touchvault.Sealed.Parse.Valid.{names_of}
use touchvault.Crypto.Pure.{open_secret}
use touchvault.Crypto.Seal.{seal_secret}
use touchvault.Crypto.Fields.{seal_secret-fields}
use touchvault.Crypto.RoundTrip.{open-seal_secret}
use touchvault.Vault.Session.{
  Machine, key, put, put_secret, delete, delete_secret, read_string, set_secrets,
}
use touchvault.Vault.Session.Reading.{contents, read_string_lem, open_secret-secrets}

-- The entries under a name after `Put`'s loop.
pub find_secret_in-put_secret :
    (e : SealedSecret) (ss : List SealedSecret) (name : Text)
    → find_secret_in (put_secret e ss) name
      ≡ (if list_eq e.name name then some e else find_secret_in ss name)
unfolding find_secret_in put_secret
find_secret_in-put_secret e [] name = refl
find_secret_in-put_secret e (s ∷ ss) name = ground (
  arith,
  list_eq_iff s.name e.name,
  list_eq_iff e.name name,
  list_eq_iff s.name name,
  find_secret_in-put_secret e ss name,
)

find_secret_in_absent :
    (name : Text) (ss : List SealedSecret)
    → All (λ n. name ≢ n) (names_of ss)
    → find_secret_in ss name ≡ none
unfolding find_secret_in
find_secret_in_absent name [] h = refl
find_secret_in_absent name (s ∷ ss) h =
    ground (arith, list_eq_iff s.name name, find_secret_in_absent name ss h.1)

-- The entries under a name after `Delete`'s loop.
pub find_secret_in-delete_secret :
    (name : Text) (ss kept : List SealedSecret) (other : Text)
    → Distinct (names_of ss)
    → delete_secret name ss ≡ some kept
    → find_secret_in kept other ≡ (if list_eq name other then none else find_secret_in ss other)
unfolding find_secret_in delete_secret
find_secret_in-delete_secret name [] kept other d h = absurd (ground arith)
find_secret_in-delete_secret name (s ∷ ss) kept other d h =
    elim (Option-cases (delete_secret name ss)) [
      | inl absent ↦ ground (
        arith,
        list_eq_iff s.name name,
        list_eq_iff name other,
        list_eq_iff s.name other,
        find_secret_in_absent s.name ss d.0,
      )
      | inr (kept', e) ↦ ground (
        arith,
        list_eq_iff s.name name,
        list_eq_iff name other,
        list_eq_iff s.name other,
        find_secret_in_absent s.name ss d.0,
        find_secret_in-delete_secret name ss kept' other d.1,
      )
    ]

contents-put :
    (C : Crypto) (doc : SealedVault) (k : Bytes) (e : SealedSecret) (p : Bytes) (name other : Text)
    → is_empty k ≡ false
    → e.name ≡ name
    → open_secret C doc k e ≡ ok p
    → contents C (record doc { secrets = put_secret e doc.secrets }) k other
      ≡ (if list_eq name other then ok p else contents C doc k other)
unfolding contents find_secret
contents-put C doc k e p name other unlocked named opens =
    rw (find_secret_in-put_secret, ← named, unlocked)
      (elim (Bool-cases (list_eq e.name other)) [
        | inl same ↦ ground (arith, open_secret-secrets C doc (put_secret e doc.secrets) k e)
        | inr differ ↦ elim (Option-cases (find_secret_in doc.secrets other)) [
          | inl missing ↦ ground arith
          | inr (s, found) ↦
              ground (arith, open_secret-secrets C doc (put_secret e doc.secrets) k s)
        ]
      ])

module _ (P : Platform) where
  -- The parts of a `Put` that succeeded.
  pub put-eq-ok :
      (name : Text) (secret : Option (Result Bytes)) (m m' : Machine P)
      → put P name secret m ≡ (ok tt, m')
      → (p : Bytes) × (entry : SealedSecret) × (w : World P) × (secret ≡ some (ok p))
        × (is_empty name ≡ false)
        × (is_empty m.session.data_key ≡ false)
        × (seal_secret P m.session.doc m.session.data_key name p m.world ≡ (ok entry, w))
        × (m' ≡ set_secrets P (put_secret entry m.session.doc.secrets) (record m { world = w }))
  unfolding put key
  put-eq-ok name none m m' h = absurd (ground arith)
  put-eq-ok name (some (err e)) m m' h = absurd (ground arith)
  put-eq-ok name (some (ok p)) m m' h =
      elim (Run-cases (seal_secret P m.session.doc m.session.data_key name p m.world)) [
        | inr (e, w, failed) ↦ absurd (ground arith)
        | inl (entry, w, done) ↦ (p, entry, w, refl, ground arith, ground arith, done, ground arith)
      ]

module _ (P : Platform) (law : IsGcm P.crypto) (full : IsFullRead P) where
  -- Where the ciphers and the entropy source work as documented, after a `Put` that succeeded the
  -- name reads as the value that was put, and every other name reads as before.
  pub read_string-put :
      (name : Text) (p : Bytes) (other : Text) (m m' : Machine P)
      → put P name (some (ok p)) m ≡ (ok tt, m')
      → (read_string P other m').0
        ≡ (if list_eq name other then ok p else (read_string P other m).0)
  read_string-put name p other m m' h =
      let (q, entry, w, value, named, unlocked, sealed, after) =
        put-eq-ok P name (some (ok p)) m m' h in
      ground (
        arith,
        read_string_lem P other m,
        read_string_lem P other m',
        contents-put P.crypto m.session.doc m.session.data_key entry q name other unlocked
            (seal_secret-fields P m.session.doc m.session.data_key name q m.world w sealed).0
            (open-seal_secret P law full m.session.doc m.session.data_key q name m.world w sealed),
      )

contents-delete :
    (C : Crypto) (doc : SealedVault) (k : Bytes) (name other : Text) (kept : List SealedSecret)
    → is_empty k ≡ false
    → Distinct (names_of doc.secrets)
    → delete_secret name doc.secrets ≡ some kept
    → contents C (record doc { secrets = kept }) k other
      ≡ (if list_eq name other then err no_such_secret else contents C doc k other)
unfolding contents find_secret
contents-delete C doc k name other kept unlocked distinct deleted =
    rw (find_secret_in-delete_secret name doc.secrets kept other distinct deleted, unlocked)
      (elim (Bool-cases (list_eq name other)) [
        | inl same ↦ ground arith
        | inr differ ↦ elim (Option-cases (find_secret_in doc.secrets other)) [
          | inl missing ↦ ground arith
          | inr (s, found) ↦ ground (arith, open_secret-secrets C doc kept k s)
        ]
      ])

module _ (P : Platform) where
  -- The parts of a `Delete` that succeeded.
  pub delete-eq-ok :
      (name : Text) (m m' : Machine P)
      → delete P name m ≡ (ok tt, m')
      → (kept : List SealedSecret) × (is_empty m.session.data_key ≡ false)
        × (delete_secret name m.session.doc.secrets ≡ some kept)
        × (m' ≡ set_secrets P kept m)
  unfolding delete key
  delete-eq-ok name m m' h = elim (Option-cases (delete_secret name m.session.doc.secrets)) [
    | inl missing ↦ absurd (ground arith)
    | inr (kept, e) ↦ (kept, ground arith, e, ground arith)
  ]

  -- After a `Delete` that succeeded, in a document whose names differ, the name reads as missing,
  -- and every other name reads as before.
  pub read_string-delete :
      (name : Text) (m m' : Machine P)
      → Distinct (names_of m.session.doc.secrets)
      → delete P name m ≡ (ok tt, m')
      → (other : Text)
      → (read_string P other m').0
        ≡ (if list_eq name other then err no_such_secret else (read_string P other m).0)
  read_string-delete name m m' distinct h other =
      let (kept, unlocked, deleted, after) = delete-eq-ok name m m' h in
      ground (
        arith,
        read_string_lem P other m,
        read_string_lem P other m',
        contents-delete P.crypto m.session.doc m.session.data_key name other kept unlocked distinct
            deleted,
      )
