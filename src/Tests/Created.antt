-- ===== src/Tests/Created.antt =====
-- `Create` on the toy platform.
use touchvault.Base.{pos, codes, ◌≡◌, refl, [], ◌∷◌, true, Bytes}
use touchvault.Errors.{ok}
use touchvault.World.{World, random_bytes, enrolled, derived}
use touchvault.Sealed.Document.{SealedVault, SealedKey}
use touchvault.Authenticator.{DeriveRequest, derive_request, uv_discouraged}
use touchvault.Toy.Cipher.{fit, framed}
use touchvault.Vault.Options.{Session, validate, rp_name, label}
use touchvault.Vault.Open.{unlock_request}
use touchvault.Vault.Create.{create, enroll_request, enroll_and_derive}
use touchvault.Attestation.{
  verify_genuine_hardware, check_aaguid_matches, chosen_roots, fido_intermediates,
  parse_pem_certificates, parse_pem, parse_chain, find_extension,
}
use touchvault.Entropy.{verify_derivation_depends_on_salt, flip_last}
use touchvault.Crypto.Seal.{new_salt, new_data_key, wrap_data_key, seal}
use touchvault.Crypto.Pure.{derive_kek, new_gcm}
use touchvault.Sealed.Aad.{key_aad}
use touchvault.Toy.Keys.{toy, first_key, toy_options, start}

-- The salt is the first that is drawn; the user ID, two derivations and an enrollment follow.
abbrev pub salt : Bytes
salt = fit 32 (40 ∷ [])

abbrev pub key_material : Bytes
key_material = fit 32 (45 ∷ [])

abbrev pub id : Bytes
id = 7 ∷ []

abbrev pub proven : SealedVault
proven = record {
  format = pos 1;
  rpid = codes "acme";
  salt = salt;
  user_verified = true;
  entropy_verified = true;
  keys = [];
  secrets = [];
}

abbrev pub first_entry : SealedKey
first_entry = record {
  slot = pos 0;
  label = codes "primary";
  credential_id = id;
  nonce = 46 ∷ 0 ∷ [];
  wrapped = framed salt (framed (key_aad proven (pos 0) id) key_material);
}

abbrev pub made_session : Session toy
made_session = record {
  doc = record proven { keys = first_entry ∷ [] };
  opts = toy_options;
  data_key = key_material;
}

abbrev ask : Bytes → DeriveRequest
ask probe = derive_request (codes "acme") (id ∷ []) probe uv_discouraged

abbrev pub made_world : World toy
made_world = record {
  outside = 47;
  gestures =
      enrolled (enroll_request (codes "acme") (codes "acme") (fit 16 (41 ∷ [])) uv_discouraged)
      ∷ derived (ask salt)
      ∷ derived (ask (flip_last salt))
      ∷ [];
}

-- The world after one derivation over the salt.
abbrev pub unlocked_world : World toy
unlocked_world = record { outside = 41; gestures = derived (unlock_request made_session.doc) ∷ [] }

pub created : create toy first_key toy_options start ≡ (ok made_session, made_world)
unfolding create validate new_salt new_data_key random_bytes enroll_and_derive
    verify_genuine_hardware rp_name label check_aaguid_matches chosen_roots fido_intermediates
    parse_pem_certificates parse_pem parse_chain find_extension verify_derivation_depends_on_salt
    flip_last wrap_data_key seal derive_kek new_gcm key_aad
created = refl
