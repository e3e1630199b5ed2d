-- ===== src/Vault/Spec/Represents.antt =====
-- The store that a session stands for.
use touchvault.Base.{Bytes, Text, not, List, ◌≡◌, is_empty, nat_Eq, refl}
use touchvault.Errors.{or_error, no_such_secret}
use touchvault.Platform.{Platform}
use touchvault.Sealed.Document.{SealedVault, SealedKey}
use touchvault.Sealed.Aad.{aad, secret_aad}
use touchvault.Sealed.Find.{find_secret}
use touchvault.Crypto.Pure.{open_secret}
use touchvault.Vault.Session.{Machine}
use touchvault.Vault.Session.Reading.{contents}
use touchvault.Vault.Calls.Sound.{IsSound}
use touchvault.Vault.Spec.{Store}

module _ (P : Platform) (h : SealedVault) (data_key : Bytes) where
  -- The store that a session stands for: it is unlocked while the session has a data key, and has
  -- the values that the data key opens.
  pub record Represents (m : Machine P) (a : Store) : Type 0 where
    pub sound : IsSound P h data_key m.session
    pub lock_state : not (is_empty m.session.data_key) ≡ a.unlocked
    pub shown :
        (name : Text)
        → contents P.crypto m.session.doc data_key name ≡ or_error (a.values name) no_such_secret

  pub contents-keys :
      (doc : SealedVault) (ks : List SealedKey) (name : Text)
      → contents P.crypto (record doc { keys = ks }) data_key name
        ≡ contents P.crypto doc data_key name
  unfolding contents find_secret open_secret secret_aad aad
  contents-keys doc ks name = refl

  -- A session that is the same stands for the same store.
  pub same-Represents :
      (m n : Machine P) (a : Store) → Represents m a → n.session ≡ m.session → Represents n a
  same-Represents m n a r e = record {
    sound = rw e r.sound;
    lock_state = rw e r.lock_state;
    shown = λ name. rw e (r.shown name);
  }
