-- ===== src/Tests/Listings.antt =====
-- The listings of a document, and the texts that are written for the operator.
use touchvault.Base.{
  pos, negsuc, codes, ◌≡◌, ◌≢◌, ◌↔◌, ◌++◌, refl, [], ◌∷◌, none, true, ℤ, Text, map, contains,
  int_Eq, list_Eq, nat_Eq, decimal,
}
use touchvault.Sealed.Document.{SealedVault}
use touchvault.Sealed.Find.{find_secret, slot_occupied}
use touchvault.Sealed.Listing.{SlotInfo, names, slots, text_lt, slot_lt}
use touchvault.Sealed.Listing.Sorted.{IsSorted, listings-IsSorted}
use touchvault.Errors.{ok}
use touchvault.Authenticator.{uv_string, uv_required}
use touchvault.Vault.Session.{list_slots}
use touchvault.Slots.Line.{slot_string}
use touchvault.Attestation.{parse_pem_certificates, parse_pem, fido_intermediates}
use touchvault.Attestation.Describe.{
  describe_attestation, certificate_lines, certificate_line, common_names, join,
}
use touchvault.Toy.Keys.{toy, toy_certs}
use touchvault.Tests.Reopened.{filled}

abbrev doc : SealedVault
doc = filled.session.doc

listings-IsSorted_example :
    IsSorted text_lt (names doc)
    × ((name : Text) → (contains (names doc) name ≡ true) ↔ (find_secret doc name ≢ none))
    × IsSorted slot_lt (slots doc)
    × ((slot : ℤ)
        → contains (map (λ (i : SlotInfo). i.slot) (slots doc)) slot ≡ slot_occupied doc slot)
listings-IsSorted_example = listings-IsSorted doc

backup_line :
    slot_string (record { slot = pos 12; label = codes "backup"; credential_id_hex = codes "07" })
    ≡ codes "slot 12 (backup) 07"
unfolding slot_string decimal
backup_line = refl

negative_number : decimal (negsuc 104) ≡ codes "-105"
unfolding decimal
negative_number = refl

two_certificates :
    describe_attestation toy_certs (codes "a" ∷ codes "b" ∷ [])
    ≡ codes "  attestation chain presented by the key:"
      ++ (10 ∷ codes "    [0] subject=\"a\" issuer=\"a\" notAfter=2030-01-01")
      ++ (10 ∷ codes "    [1] subject=\"b\" issuer=\"b\" notAfter=2030-01-01")
      ++ (10 ∷ codes "  trusted roots: \"")
      ++ (5 ∷ codes "\"")
      ++ (10 ∷ codes "  bundled intermediates: \"")
      ++ (6 ∷ codes "\"")
unfolding describe_attestation certificate_lines certificate_line common_names join decimal
    parse_pem_certificates parse_pem fido_intermediates
two_certificates = refl

slots_listed : list_slots toy filled ≡ (ok (slots doc), filled)
unfolding list_slots
slots_listed = refl

verification_named : uv_string uv_required ≡ codes "required"
unfolding uv_string
verification_named = refl
