-- ===== src/Sealed/Parse/Exact.antt =====
-- Which documents `parseSealed` lets through.
use touchvault.Base.{ℤ, Text, Bytes, ◌≡◌, ◌≢◌, ◌↔◌, List, [], ◌∷◌, some, All, is_negative}
use touchvault.Base.{false, FreshFor, FreshFor-cons, FreshFor-nil, arith, int_Eq, list_Eq, nat_Eq}
use touchvault.Base.{contains, is_empty, inl, inr, Option-cases}
use touchvault.Errors.{
  FailsOnlyWith, guarded-FailsOnlyWith, fails_rules, Error, ok, err, wrong_format,
}
use touchvault.Platform.Serializer.{Json}
use touchvault.Sealed.Document.{SealedKey, SealedSecret, SealedVault}
use touchvault.Sealed.Parse.{check_keys, check_secrets, parse_sealed}
use touchvault.Sealed.Parse.Valid.{IsWellFormed, slots_of, credentials_of, names_of}

abbrev KeysPass : List ℤ → List Bytes → List SealedKey → Type 0
KeysPass seen_slot seen_cred ks =
    All (λ slot. is_negative slot ≡ false) (slots_of ks)
    × FreshFor seen_slot (slots_of ks)
    × All (λ id. id ≢ []) (credentials_of ks)
    × FreshFor seen_cred (credentials_of ks)

check_keys_iff :
    (seen_slot : List ℤ) (seen_cred : List Bytes) (ks : List SealedKey)
    → (check_keys seen_slot seen_cred ks ≡ ok tt) ↔ KeysPass seen_slot seen_cred ks
unfolding check_keys
check_keys_iff seen_slot seen_cred [] = ground arith
check_keys_iff seen_slot seen_cred (k ∷ ks) = ground (
  arith,
  FreshFor-cons seen_slot k.slot (slots_of ks),
  FreshFor-cons seen_cred k.credential_id (credentials_of ks),
  check_keys_iff (k.slot ∷ seen_slot) (k.credential_id ∷ seen_cred) ks,
)

check_secrets_iff :
    (seen_name : List Text) (ss : List SealedSecret)
    → (check_secrets seen_name ss ≡ ok tt)
      ↔ (All (λ name. name ≢ []) (names_of ss) × FreshFor seen_name (names_of ss))
unfolding check_secrets
check_secrets_iff seen_name [] = ground arith
check_secrets_iff seen_name (s ∷ ss) =
    ground (
      arith,
      FreshFor-cons seen_name s.name (names_of ss),
      check_secrets_iff (s.name ∷ seen_name) ss,
    )

check_keys-FailsOnlyWith :
    (a : List ℤ) (b : List Bytes) (ks : List SealedKey)
    → FailsOnlyWith wrong_format (check_keys a b ks)
unfolding check_keys
check_keys-FailsOnlyWith a b [] = search fails_rules
check_keys-FailsOnlyWith a b (k ∷ ks) = guarded-FailsOnlyWith (is_negative k.slot) (
    guarded-FailsOnlyWith (contains a k.slot) (
      guarded-FailsOnlyWith (is_empty k.credential_id) (
        guarded-FailsOnlyWith (contains b k.credential_id)
          (check_keys-FailsOnlyWith (k.slot ∷ a) (k.credential_id ∷ b) ks))))

check_secrets-FailsOnlyWith :
    (a : List Text) (ss : List SealedSecret) → FailsOnlyWith wrong_format (check_secrets a ss)
unfolding check_secrets
check_secrets-FailsOnlyWith a [] = search fails_rules
check_secrets-FailsOnlyWith a (s ∷ ss) =
    guarded-FailsOnlyWith (is_empty s.name)
      (guarded-FailsOnlyWith (contains a s.name) (check_secrets-FailsOnlyWith (s.name ∷ a) ss))

module _ (J : Json) where
  -- Whatever document is read, parsing returns it exactly when it is well formed.
  pub parse_sealed_iff :
      (input : Bytes) (v : SealedVault)
      → (parse_sealed J input ≡ ok v) ↔ ((J.unmarshal input ≡ some v) × IsWellFormed v)
  unfolding parse_sealed
  parse_sealed_iff input v = (
    λ h. elim (Option-cases (J.unmarshal input)) [
      | inl unreadable ↦ absurd (ground arith)
      | inr (w, e) ↦ ground (arith, check_keys_iff [] [] w.keys, check_secrets_iff [] w.secrets)
    ],
    λ h. ground (
      arith,
      check_keys_iff [] [] v.keys,
      check_secrets_iff [] v.secrets,
      FreshFor-nil (slots_of v.keys),
      FreshFor-nil (credentials_of v.keys),
      FreshFor-nil (names_of v.secrets),
    ),
  )

  -- Whatever is wrong with the bytes, the error is that of a wrong format.
  pub parse_sealed_error :
      (input : Bytes) (e : Error) → parse_sealed J input ≡ err e → e ≡ wrong_format
  unfolding parse_sealed
  parse_sealed_error input =
      let fails : FailsOnlyWith wrong_format (parse_sealed J input) =
        search (fails_rules, check_keys-FailsOnlyWith, check_secrets-FailsOnlyWith) depth 16 in
      fails.only
