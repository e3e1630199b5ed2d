-- ===== src/Vault/Open/Exact.antt =====
-- What `OpenWith` accepts.
use touchvault.Base.{
  Bytes, [], ◌≡◌, ◌↔◌, ◌⊎◌, inl, inr, arith, list_eq_iff, nat_Eq, some, is_empty, Bool-cases,
}
use touchvault.Errors.{ok, Result-cases}
use touchvault.Platform.{Platform}
use touchvault.Sealed.Parse.{parse_sealed}
use touchvault.Sealed.Parse.Valid.{IsWellFormed}
use touchvault.Sealed.Parse.Exact.{parse_sealed_iff}
use touchvault.Vault.Options.{Options, Vault}
use touchvault.Vault.Open.{open_with}

module _ (P : Platform) (input : Bytes) (opts : Options P) where
  -- The bytes hold a well-formed document of the relying party that is expected, if one is.
  pub record IsOpened (v : Vault P) : Type 0 where
    pub read : P.json.unmarshal input ≡ some v.doc
    pub well_formed : IsWellFormed v.doc
    pub expected : (opts.rpid ≡ []) ⊎ (opts.rpid ≡ v.doc.rpid)
    pub options : v.opts ≡ record opts { rpid = v.doc.rpid }

  -- `OpenWith` returns a vault exactly when its bytes are JSON of the vault's document, that document
  -- is well formed, and its relying party is the one in the options, or the options name none. The
  -- vault has the options with the document's relying party.
  pub open_with_iff : (v : Vault P) → (open_with P input opts ≡ ok v) ↔ IsOpened v
  unfolding open_with
  open_with_iff v = (forth, back)
    where
      forth : open_with P input opts ≡ ok v → IsOpened v
      forth h = elim (Result-cases (parse_sealed P.json input)) [
        | inr (e, failed) ↦ absurd (ground arith)
        | inl (doc, parsed) ↦
            let same : v.doc ≡ doc = ground arith in
            let (read, valid) = (parse_sealed_iff P.json input v.doc).0 (rw same parsed) in
            record {
              read = read;
              well_formed = valid;
              expected = elim (Bool-cases (is_empty opts.rpid)) [
                | inl any ↦ inl (ground arith)
                | inr named ↦ inr (ground (arith, list_eq_iff opts.rpid doc.rpid))
              ];
              options = ground arith;
            }
      ]

      back : IsOpened v → open_with P input opts ≡ ok v
      back o =
          let parsed = (parse_sealed_iff P.json input v.doc).1 (o.read, o.well_formed) in
          ground (arith, parsed, o.expected, o.options, list_eq_iff opts.rpid v.doc.rpid)
