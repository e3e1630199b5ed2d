-- ===== src/Vault/Calls/Sound.antt =====
-- What holds of a session in every state that its methods lead to.
use touchvault.Base.{Bytes, List, [], false, ◌≡◌, ◌≢◌}
use touchvault.Base.{All, Distinct, ◌⊎◌, inl, inr, arith}
use touchvault.Base.{ap, is_negative, is_empty, refl, ◌∙◌}
use touchvault.Errors.{ok}
use touchvault.Platform.{Platform}
use touchvault.Platform.Ciphers.{Crypto}
use touchvault.Sealed.Document.{SealedVault, SealedKey, SealedSecret}
use touchvault.Sealed.Aad.{aad, key_aad, secret_aad}
use touchvault.Sealed.Parse.Valid.{IsWellFormed, slots_of, credentials_of, names_of}
use touchvault.Crypto.Pure.{open_secret, unwrap_data_key}
use touchvault.Vault.Options.{Session}

-- A secret that opens, and a key that unwraps the data key for the holder of some output.
abbrev pub Opens : Crypto → SealedVault → Bytes → SealedSecret → Type 0
Opens C h data_key e = (p : Bytes) × (open_secret C h data_key e ≡ ok p)

abbrev pub Unwraps : Crypto → SealedVault → Bytes → SealedKey → Type 0
Unwraps C h data_key k = (prf : Bytes) × (unwrap_data_key C h k prf ≡ ok data_key)

-- A session of a vault with the header of `h` and a data key: the header is kept, the session is
-- locked or holds the data key, the document is well formed, every secret in it opens under the
-- data key, and every key in it unwraps the data key.
pub record IsSound (P : Platform) (h : SealedVault) (data_key : Bytes) (s : Session P)
    : Type 0 where
  pub header : s.doc ≡ record h { keys = s.doc.keys; secrets = s.doc.secrets }
  pub held : (s.data_key ≡ []) ⊎ (s.data_key ≡ data_key)
  pub well_formed : IsWellFormed s.doc
  pub secrets_open : All (Opens P.crypto h data_key) s.doc.secrets
  pub keys_unwrap : All (Unwraps P.crypto h data_key) s.doc.keys

-- The entries are no part of the authenticated header.
open_secret-entries :
    (C : Crypto) (h : SealedVault) (ks : List SealedKey) (ss : List SealedSecret) (k : Bytes)
    (e : SealedSecret)
    → open_secret C (record h { keys = ks; secrets = ss }) k e ≡ open_secret C h k e
unfolding open_secret secret_aad aad
open_secret-entries C h ks ss k e = refl

unwrap_data_key-entries :
    (C : Crypto) (h : SealedVault) (ks : List SealedKey) (ss : List SealedSecret) (e : SealedKey)
    (prf : Bytes)
    → unwrap_data_key C (record h { keys = ks; secrets = ss }) e prf ≡ unwrap_data_key C h e prf
unfolding unwrap_data_key key_aad aad
unwrap_data_key-entries C h ks ss e prf = refl

module _ (P : Platform) (h : SealedVault) (data_key : Bytes) where
  pub set_secrets-IsSound :
      (s : Session P) (ss : List SealedSecret)
      → IsSound P h data_key s
      → All (λ name. name ≢ []) (names_of ss)
      → Distinct (names_of ss)
      → All (Opens P.crypto h data_key) ss
      → IsSound P h data_key (record s { doc = record (s.doc) { secrets = ss } })
  set_secrets-IsSound s ss i nonempty differ opens = record {
    header = ground (arith, i.header);
    held = i.held;
    well_formed = record {
      format = i.well_formed.format;
      salt = i.well_formed.salt;
      rpid = i.well_formed.rpid;
      slots_nonneg = i.well_formed.slots_nonneg;
      slots_differ = i.well_formed.slots_differ;
      credentials_nonempty = i.well_formed.credentials_nonempty;
      credentials_differ = i.well_formed.credentials_differ;
      names_nonempty = nonempty;
      names_differ = differ;
    };
    secrets_open = opens;
    keys_unwrap = i.keys_unwrap;
  }

  pub set_keys-IsSound :
      (s : Session P) (ks : List SealedKey)
      → IsSound P h data_key s
      → All (λ slot. is_negative slot ≡ false) (slots_of ks)
      → Distinct (slots_of ks)
      → All (λ id. id ≢ []) (credentials_of ks)
      → Distinct (credentials_of ks)
      → All (Unwraps P.crypto h data_key) ks
      → IsSound P h data_key (record s { doc = record (s.doc) { keys = ks } })
  set_keys-IsSound s ks i nonneg slots nonempty ids unwraps = record {
    header = ground (arith, i.header);
    held = i.held;
    well_formed = record {
      format = i.well_formed.format;
      salt = i.well_formed.salt;
      rpid = i.well_formed.rpid;
      slots_nonneg = nonneg;
      slots_differ = slots;
      credentials_nonempty = nonempty;
      credentials_differ = ids;
      names_nonempty = i.well_formed.names_nonempty;
      names_differ = i.well_formed.names_differ;
    };
    secrets_open = i.secrets_open;
    keys_unwrap = unwraps;
  }

  -- An unlocked session holds the data key.
  pub held_unlocked :
      (s : Session P) → IsSound P h data_key s → is_empty s.data_key ≡ false → s.data_key ≡ data_key
  held_unlocked s i unlocked = elim i.held [ inl empty ↦ absurd (ground arith) | inr same ↦ same ]

  pub open_secret-header :
      (s : Session P) (k : Bytes) (e : SealedSecret)
      → IsSound P h data_key s
      → open_secret P.crypto s.doc k e ≡ open_secret P.crypto h k e
  open_secret-header s k e i =
      ap (λ d. open_secret P.crypto d k e) i.header
      ∙ open_secret-entries P.crypto h s.doc.keys s.doc.secrets k e

  pub unwrap_data_key-header :
      (s : Session P) (e : SealedKey) (prf : Bytes)
      → IsSound P h data_key s
      → unwrap_data_key P.crypto s.doc e prf ≡ unwrap_data_key P.crypto h e prf
  unwrap_data_key-header s e prf i =
      ap (λ d. unwrap_data_key P.crypto d e prf) i.header
      ∙ unwrap_data_key-entries P.crypto h s.doc.keys s.doc.secrets e prf
