-- ===== src/Tests/Documents.antt =====
-- Documents and seals, applied at concrete ones.
use touchvault.Base.{
  ℕ, pos, ◌≡◌, ◌↔◌, ◌+◌, ◌*◌, ◌^◌, refl, arith, List, [], ◌∷◌, some, none, Bytes, Option, codes,
  to_u32, int_Eq, list_Eq, nat_Eq,
}
use touchvault.Errors.{ok, err, wrong_format}
use touchvault.World.{World, random_bytes}
use touchvault.Sealed.Document.{SealedKey, SealedSecret, SealedVault}
use touchvault.Sealed.Listing.{SlotInfo}
use touchvault.Sealed.Aad.{key_aad, secret_aad}
use touchvault.Sealed.Aad.Injective.{Fits, SameHeader, key_aad_slots_collide}
use touchvault.Sealed.Parse.{parse_sealed, check_keys, check_secrets}
use touchvault.Crypto.Pure.{unwrap_data_key, open_secret, open_bytes, new_gcm, derive_kek}
use touchvault.Crypto.Seal.{seal_secret, wrap_data_key, seal}
use touchvault.Crypto.Binding.{unwrap_data_key-binds, open_secret-binds}
use touchvault.Slots.{free_slot}
use touchvault.Vault.Open.{open_with}
use touchvault.Vault.Open.Exact.{IsOpened, open_with_iff}
use touchvault.Toy.Cipher.{toy-IsGcm, toy-BindsData, framed}
use touchvault.Toy.Keys.{toy_options, toy, toy-IsFullRead, start}
use touchvault.Tests.Created.{made_session, proven, salt, key_material}

abbrev doc : SealedVault
doc = made_session.doc

doc-Fits : Fits doc
doc-Fits = record { rpid = omega arith; salt = omega arith }

abbrev bytes_of : Option Bytes → Bytes
bytes_of none = []
bytes_of (some b) = b

abbrev written : Bytes
written = bytes_of (toy.json.marshal doc)

parsed : parse_sealed toy.json written ≡ ok doc
unfolding parse_sealed check_keys check_secrets key_aad
parsed = refl

-- The relying party of the options is the one of the document.
open_with_iff_example :
    (open_with toy written toy_options ≡ ok (record { doc = doc; opts = toy_options }))
    ↔ IsOpened toy written toy_options (record { doc = doc; opts = toy_options })
open_with_iff_example =
    open_with_iff toy written toy_options (record { doc = doc; opts = toy_options })

opened : open_with toy written toy_options ≡ ok (record { doc = doc; opts = toy_options })
unfolding open_with parse_sealed check_keys check_secrets key_aad
opened = refl

unparsed : parse_sealed toy.json (1 ∷ []) ≡ err wrong_format
unfolding parse_sealed
unparsed = refl

key_aad_slots_collide_example :
    key_aad doc (pos 3) (codes "id") ≡ key_aad doc (pos (3 + 2 ^ 32 * 1)) (codes "id")
key_aad_slots_collide_example = key_aad_slots_collide doc 3 1 (codes "id")

abbrev entry : SealedKey
entry = record {
  slot = pos 3;
  label = codes "spare";
  credential_id = codes "id";
  nonce = 40 ∷ 0 ∷ [];
  wrapped = framed salt (framed (key_aad doc (pos 3) (codes "id")) key_material);
}

abbrev later : World toy
later = record { outside = 41; gestures = [] }

wraps :
    wrap_data_key toy doc key_material (codes "id") salt (pos 3) (codes "spare") start
    ≡ (ok entry, later)
unfolding wrap_data_key seal derive_kek new_gcm random_bytes
wraps = refl

unwraps : unwrap_data_key toy.crypto doc entry salt ≡ ok key_material
unfolding unwrap_data_key derive_kek open_bytes new_gcm key_aad
unwraps = refl

-- The entry, with another label and another nonce.
unwrap_data_key-binds_example :
    SameHeader doc proven × (to_u32 (pos 3) ≡ to_u32 (pos 3)) × (codes "id" ≡ codes "id")
unfolding unwrap_data_key derive_kek open_bytes new_gcm key_aad
unwrap_data_key-binds_example =
    unwrap_data_key-binds toy toy-IsGcm toy-IsFullRead toy-BindsData doc proven key_material
      (codes "id") salt key_material (pos 3) (codes "spare") start later entry
      (record entry { label = []; nonce = 1 ∷ 1 ∷ [] }) doc-Fits
      (record { rpid = omega arith; salt = omega arith }) (omega arith) (omega arith) wraps refl
      refl refl

abbrev secret : SealedSecret
secret = record {
  name = codes "api";
  nonce = 40 ∷ 0 ∷ [];
  ciphertext = framed key_material (framed (secret_aad doc (codes "api")) (codes "hi"));
}

sealed_secret :
    seal_secret toy doc key_material (codes "api") (codes "hi") start ≡ (ok secret, later)
unfolding seal_secret seal new_gcm random_bytes
sealed_secret = refl

open_secret-binds_example : SameHeader doc proven × (codes "api" ≡ codes "api")
unfolding open_secret open_bytes new_gcm secret_aad
open_secret-binds_example =
    open_secret-binds toy toy-IsGcm toy-IsFullRead toy-BindsData doc proven key_material
      (codes "hi") (codes "hi") (codes "api") start later secret secret doc-Fits
      (record { rpid = omega arith; salt = omega arith }) (omega arith) (omega arith) sealed_secret
      refl refl

abbrev slot_numbered : ℕ → SlotInfo
slot_numbered n = record { slot = pos n; label = []; credential_id_hex = [] }

abbrev listing : List SlotInfo
listing = slot_numbered 0 ∷ slot_numbered 1 ∷ slot_numbered 3 ∷ []

free_slot_gap : free_slot listing ≡ 2
unfolding free_slot
free_slot_gap = refl
