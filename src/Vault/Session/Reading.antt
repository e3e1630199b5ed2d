-- ===== src/Vault/Session/Reading.antt =====
-- What reading a secret returns.
use touchvault.Base.{Bytes, Text, ◌≡◌, none, some, is_empty, arith, inl, inr, Option-cases}
use touchvault.Base.{if◌then◌else◌, List, refl, List}
use touchvault.Errors.{Result, err, locked, no_such_secret, Result-cases}
use touchvault.Platform.{Platform}
use touchvault.Platform.Ciphers.{Crypto}
use touchvault.Sealed.Document.{SealedVault, SealedSecret}
use touchvault.Sealed.Aad.{aad, secret_aad}
use touchvault.Sealed.Find.{find_secret}
use touchvault.Crypto.Pure.{open_secret}
use touchvault.Vault.Session.{Machine, read_all, key, open_name, read_string}

-- What a document and a data key hold under a name.
unfoldable pub contents : Crypto → SealedVault → Bytes → Text → Result Text
contents C doc data_key name =
    if is_empty data_key then err locked else elim (find_secret doc name) [
      | none ↦ err no_such_secret
      | some entry ↦ open_secret C doc data_key entry
    ]

module _ (P : Platform) where
  -- Reading returns the contents under the name, and changes neither session nor world.
  pub read_string_lem :
      (name : Text) (m : Machine P)
      → read_string P name m ≡ (contents P.crypto m.session.doc m.session.data_key name, m)
  unfolding read_string open_name key contents read_all
  read_string_lem name m = elim (Option-cases (find_secret m.session.doc name)) [
    | inl missing ↦ ground arith
    | inr (entry, found) ↦
        elim (Result-cases (open_secret P.crypto m.session.doc m.session.data_key entry)) [
          | inl (p, opened) ↦ ground arith
          | inr (e, failed) ↦ ground arith
        ]
  ]

-- The entries of a document are no part of its authenticated data.
pub open_secret-secrets :
    (C : Crypto) (doc : SealedVault) (ss : List SealedSecret) (data_key : Bytes) (s : SealedSecret)
    → open_secret C (record doc { secrets = ss }) data_key s ≡ open_secret C doc data_key s
unfolding open_secret secret_aad aad
open_secret-secrets C doc ss data_key s = refl
