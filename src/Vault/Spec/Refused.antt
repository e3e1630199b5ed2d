-- ===== src/Vault/Spec/Refused.antt =====
-- A call that is refused, as a call of the store.
use touchvault.Base.{
  Bytes, Text, true, false, Option, none, some, List, [], ◌∷◌, ◌≡◌, ◌≢◌, inl, inr, Option-cases,
  is_empty, nat_Eq, arith, refl,
}
use touchvault.Errors.{Error, Result, ok, err, locked}
use touchvault.Platform.{Platform}
use touchvault.Platform.Ciphers.{IsGcm}
use touchvault.Sealed.Document.{SealedVault, SealedSecret}
use touchvault.Sealed.Find.{find_secret, find_secret_in}
use touchvault.Vault.Session.{
  Machine, put, delete, delete_secret, enroll_key, remove_key, force_remove_key, key,
}
use touchvault.Vault.Session.Reading.{contents}
use touchvault.Vault.Calls.{
  Call, perform, to_read, to_lock, to_put, to_delete, to_enroll, to_remove, to_force_remove,
  to_seal,
}
use touchvault.Vault.Calls.Failed.{perform_failed}
use touchvault.Vault.Calls.Sound.{held_unlocked}
use touchvault.Base.{length}
use touchvault.Errors.{entropy_failed}
use touchvault.Effects.Runs.{Run-cases}
use touchvault.World.{World, random_bytes}
use touchvault.Crypto.Pure.{data_key_len}
use touchvault.Crypto.Seal.{seal_secret, seal}
use touchvault.Crypto.RoundTrip.{new_gcm_total}
use touchvault.Vault.Spec.{MayRefuse, Store, IsWrite, Allowed, refuses}
use touchvault.Vault.Spec.Represents.{Represents, same-Represents}

module _ (P : Platform) (h : SealedVault) (data_key : Bytes) where
  -- A locked session refuses every call that writes.
  locked_refuses :
      (c : Call P) (m n : Machine P) (e : Error)
      → IsWrite c
      → is_empty m.session.data_key ≡ true
      → perform P c m ≡ (err e, n)
      → e ≡ locked
  unfolding perform put delete enroll_key remove_key force_remove_key key
  locked_refuses (to_read name) m n e w l f = absurd w
  locked_refuses to_lock m n e w l f = absurd w
  locked_refuses to_seal m n e w l f = absurd w
  locked_refuses (to_put name secret) m n e w l f = ground arith
  locked_refuses (to_delete name) m n e w l f = ground arith
  locked_refuses (to_enroll auth slot label) m n e w l f = ground arith
  locked_refuses (to_remove slot) m n e w l f = ground arith
  locked_refuses (to_force_remove slot) m n e w l f = ground arith

  missing_secret :
      (name : Text) (ss : List SealedSecret)
      → delete_secret name ss ≡ none
      → find_secret_in ss name ≡ none
  unfolding delete_secret find_secret_in
  missing_secret name [] h = refl
  missing_secret name (s ∷ ss) h = elim (Option-cases (delete_secret name ss)) [
    | inl missing ↦ ground (arith, missing_secret name ss missing)
    | inr (rest, found) ↦ absurd (ground arith)
  ]

  -- An unlocked session refuses to delete only a name that has no value.
  delete_refused :
      (name : Text) (m n : Machine P) (a : Store) (e : Error)
      → data_key ≢ []
      → is_empty m.session.data_key ≡ false
      → Represents P h data_key m a
      → delete P name m ≡ (err e, n)
      → MayRefuse {P = P} a (to_delete name) e
  unfolding delete key contents find_secret
  delete_refused name m n a e keyed unlocked r f =
      elim (Option-cases (delete_secret name m.session.doc.secrets)) [
        | inr (rest, found) ↦ absurd (ground arith)
        | inl missing ↦
            let absent = missing_secret name m.session.doc.secrets missing in
            elim (Option-cases (a.values name)) [
              | inl none_there ↦ (none_there, ground arith)
              | inr (p, there) ↦ absurd (ground (arith, r.shown name))
            ]
      ]

  module _ (law : IsGcm P.crypto) (size : length data_key ≡ data_key_len) where
    -- Sealing under a key of 32 bytes fails only where no random bytes can be had.
    seal_secret_failed :
        (v : SealedVault) (name : Text) (p : Bytes) (w w' : World P) (e : Error)
        → seal_secret P v data_key name p w ≡ (err e, w')
        → e ≡ entropy_failed
    unfolding seal_secret seal random_bytes
    seal_secret_failed v name p w w' e f =
        let (b, g, _, made) = new_gcm_total P.crypto law data_key size in
        elim (Option-cases (P.rand_read g.nonce_size w.outside).0) [
          | inl nothing ↦ ground arith
          | inr (n, drawn) ↦ absurd (ground arith)
        ]

    put_refused :
        (name : Text) (secret : Option (Result Bytes)) (m n : Machine P) (a : Store) (e : Error)
        → is_empty m.session.data_key ≡ false
        → Represents P h data_key m a
        → put P name secret m ≡ (err e, n)
        → MayRefuse {P = P} a (to_put name secret) e
    unfolding put key
    put_refused [] secret m n a e unlocked r f = inl (refl, ground arith)
    put_refused (x ∷ name) none m n a e unlocked r f = inr (inl (refl, ground arith))
    put_refused (x ∷ name) (some (err y)) m n a e unlocked r f = inr (inr (inl (ground arith)))
    put_refused (x ∷ name) (some (ok p)) m n a e unlocked r f =
        let same = held_unlocked P h data_key m.session r.sound unlocked in
        elim (Run-cases (seal_secret P m.session.doc m.session.data_key (x ∷ name) p m.world)) [
          | inl (entry, w, made) ↦ absurd (ground arith)
          | inr (y, w, failed) ↦
              let drawn =
                seal_secret_failed m.session.doc (x ∷ name) p m.world w y (rw same at failed) in
              inr (inr (inr (ground arith)))
        ]

    unlocked_refuses :
        (c : Call P) (m n : Machine P) (a : Store) (e : Error)
        → IsWrite c
        → is_empty m.session.data_key ≡ false
        → Represents P h data_key m a
        → perform P c m ≡ (err e, n)
        → MayRefuse a c e
    unfolding perform
    unlocked_refuses (to_read name) m n a e w l r f = absurd w
    unlocked_refuses to_lock m n a e w l r f = absurd w
    unlocked_refuses to_seal m n a e w l r f = absurd w
    unlocked_refuses (to_put name secret) m n a e w l r f = put_refused name secret m n a e l r f
    unlocked_refuses (to_delete name) m n a e w l r f =
        delete_refused name m n a e (λ k. absurd (ground (arith, size, k))) l r f
    unlocked_refuses (to_enroll auth slot label) m n a e w l r f = tt
    unlocked_refuses (to_remove slot) m n a e w l r f = tt
    unlocked_refuses (to_force_remove slot) m n a e w l r f = tt

    pub refused :
        (c : Call P) (m n : Machine P) (a : Store) (e : Error)
        → IsWrite c
        → Represents P h data_key m a
        → perform P c m ≡ (err e, n)
        → Allowed a c (err e) a × Represents P h data_key n a
    refused c m n a e w r f = (
      refuses c e w (λ l. locked_refuses c m n e w (ground (arith, r.lock_state)) f)
          (λ l. unlocked_refuses c m n a e w (ground (arith, r.lock_state)) r f),
      same-Represents P h data_key m n a r (perform_failed P m n e c f),
    )
