-- ===== src/Vault/Relabelled.antt =====
-- A document whose labels were changed.
use touchvault.Base.{Bytes, Text, List, [], ◌∷◌, some, map, ◌≡◌, refl, ap, arith, ◌∙◌}
use touchvault.Base.{nat_Eq}
use touchvault.Errors.{ok}
use touchvault.Authenticator.{Authenticator}
use touchvault.Platform.{Platform}
use touchvault.Platform.Ciphers.{Crypto}
use touchvault.World.{World}
use touchvault.Sealed.Document.{SealedKey, SealedVault}
use touchvault.Sealed.Aad.{key_aad, aad}
use touchvault.Sealed.Find.{find_key, find_key_in, credential_ids, uv_requirement}
use touchvault.Crypto.Pure.{unwrap_data_key}
use touchvault.Vault.Options.{Vault, Session}
use touchvault.Vault.Open.{unlock, unlock_request}
use touchvault.Vault.Unlocking.{unlock-eq-ok, unlock_total, find_key-keyed}

module _ (f : Text → Text) where
  abbrev relabel_key : SealedKey → SealedKey
  relabel_key k = record k { label = f k.label }

  -- The document with every label changed.
  abbrev pub relabelled : SealedVault → SealedVault
  relabelled v = record v { keys = map relabel_key v.keys }

  credential_ids-relabelled :
      (ks : List SealedKey)
      → map (λ k. k.credential_id) (map relabel_key ks) ≡ map (λ k. k.credential_id) ks
  credential_ids-relabelled [] = refl
  credential_ids-relabelled (k ∷ ks) = ap (λ r. k.credential_id ∷ r) (credential_ids-relabelled ks)

  find_key_in-relabelled :
      (ks : List SealedKey) (id : Bytes) (k : SealedKey)
      → find_key_in ks id ≡ some k
      → find_key_in (map relabel_key ks) id ≡ some (relabel_key k)
  unfolding find_key_in
  find_key_in-relabelled [] id k h = absurd (ground arith)
  find_key_in-relabelled (j ∷ ks) id k h = ground (arith, find_key_in-relabelled ks id k)

  unwrap-relabelled :
      (C : Crypto) (v : SealedVault) (k : SealedKey) (prf : Bytes)
      → unwrap_data_key C (relabelled v) (relabel_key k) prf ≡ unwrap_data_key C v k prf
  unfolding unwrap_data_key key_aad aad
  unwrap-relabelled C v k prf = refl

  request-relabelled : (v : SealedVault) → unlock_request (relabelled v) ≡ unlock_request v
  unfolding credential_ids uv_requirement
  request-relabelled v = rw (credential_ids-relabelled v.keys) refl

  -- A document whose labels were changed, in whatever way, unlocks for every key that unlocked the
  -- one before, and into a session with the same data key: no check notices the change.
  pub unlock-relabelled :
      (P : Platform) (v : Vault P) (auth : Authenticator P.Outside) (w w' : World P) (s : Session P)
      → unlock P v auth w ≡ (ok s, w')
      → (unlock P (record v { doc = relabelled v.doc }) auth w).0
        ≡ ok (record s { doc = relabelled s.doc })
  unfolding find_key
  unlock-relabelled P v auth w w' s h =
      let (answer, entry, proven, answered, present, same, found, unwrapped, doc, opts) =
        unlock-eq-ok P v auth w w' s h in
      let doc' = relabelled v.doc in
      let found' : find_key doc' answer.credential_id ≡ some (relabel_key entry) =
        find_key_in-relabelled v.doc.keys answer.credential_id entry found in
      unlock_total P (record v { doc = doc' }) auth w answer (relabel_key entry) s.data_key
        (find_key-keyed doc' answer.credential_id found') proven
        (ap (λ r. (auth.derive r w.outside).0) (request-relabelled v.doc) ∙ answered) present same
        found' (unwrap-relabelled P.crypto v.doc entry answer.secret ∙ unwrapped)
      ∙ ground (arith, doc, opts)
