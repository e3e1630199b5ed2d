-- ===== src/Toy/Working.antt =====
-- What the toy keys output, and the attestation of their credentials.
use touchvault.Base.{
  Text, Bool, Bool-cases, contains, list_Eq, nat_Eq, inl, inr, ℕ, zero, suc, Bytes, true, none, [],
  ◌∷◌, ◌++◌, ◌≡◌, ◌≢◌, length, take, arith, refl, ap, sym, ◌∙◌,
}
use touchvault.Attestation.{
  verify_genuine_hardware, check_aaguid_matches, chosen_roots, fido_intermediates,
  parse_pem_certificates, parse_pem, parse_chain, find_extension,
}
use touchvault.Attestation.Genuine.{IsGenuine, verify_genuine_hardware_iff}
use touchvault.Authenticator.{IsHmacSecret}
use touchvault.Toy.Keys.{toy, key_of, credential}

take-of_take : (n : ℕ) (a rest : Bytes) → length a ≡ n → take n (take n a ++ rest) ≡ a
take-of_take zero [] rest h = refl
take-of_take zero (x ∷ a) rest h = absurd (ground arith)
take-of_take (suc n) [] rest h = absurd (ground arith)
take-of_take (suc n) (x ∷ a) rest h = ap (λ r. x ∷ r) (take-of_take n a rest (ground arith))

pub outputs_differ :
    (a b id : Bytes) → length a ≡ 32 → length b ≡ 32 → a ≢ b → take 32 a ++ id ≢ take 32 b ++ id
outputs_differ a b id h k differ same =
    differ (sym (take-of_take 32 a id h) ∙ ap (take 32) same ∙ take-of_take 32 b id k)

pub genuine : (id : Bytes) → IsGenuine toy (credential id) none
unfolding verify_genuine_hardware check_aaguid_matches chosen_roots fido_intermediates
    parse_pem_certificates parse_pem parse_chain find_extension
genuine id = (verify_genuine_hardware_iff toy (credential id) none).0 refl

-- What hmac-secret gives of the toy keys: the salt and the credential ID.
abbrev pub toy_output : Text → Bytes → Bytes → Bool → Bytes
toy_output rpid id salt uv = take 32 salt ++ id

pub key_of-IsHmacSecret : (x : ℕ) → IsHmacSecret toy_output (key_of 32 (x ∷ []) true)
key_of-IsHmacSecret x = record {
  outputs = λ req s r h. elim (Bool-cases (contains req.credential_ids (x ∷ []))) [
    | inl there ↦ ground arith
    | inr missing ↦ absurd (ground arith)
  ];
  listed = λ req s r h. elim (Bool-cases (contains req.credential_ids (x ∷ []))) [
    | inl there ↦ ground arith
    | inr missing ↦ absurd (ground arith)
  ];
}
