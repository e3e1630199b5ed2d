-- ===== src/Vault/Unreadable.antt =====
-- Names that JSON makes one.
use touchvault.Base.{
  Bytes, Text, List, [], ◌∷◌, some, ◌≡◌, ◌≢◌, refl, ◌∙◌, ap, sym, arith, inl, inr, map, All,
  Distinct,
}
use touchvault.Base.{list_eq, list_eq_iff, nat_Eq, Bool-cases, Option-cases}
use touchvault.Errors.{ok, err, wrong_format, Result-cases}
use touchvault.Platform.{Platform, IsFullRead}
use touchvault.Platform.Ciphers.{IsGcm}
use touchvault.Platform.Serializer.{Json, IsJson, coerced_secret, coerced_vault}
use touchvault.Sealed.Document.{SealedSecret}
use touchvault.Sealed.Find.{find_secret, find_secret_in}
use touchvault.Sealed.Parse.{marshal, parse_sealed}
use touchvault.Sealed.Parse.Valid.{names_of}
use touchvault.Sealed.Parse.Exact.{parse_sealed_iff, parse_sealed_error}
use touchvault.Vault.Open.{open_vault, open_with}
use touchvault.Vault.Session.{Machine, put, read_string, sealed}
use touchvault.Vault.Session.Reading.{contents, read_string_lem}
use touchvault.Vault.Session.Writing.{read_string-put}

module _ (J : Json) where
  -- A name that is found is one of the coerced names.
  coerced_present :
      (ss : List SealedSecret) (t c : Text) {e : SealedSecret}
      → find_secret_in ss t ≡ some e
      → J.coerced c ≡ J.coerced t
      → ¬ All (λ n. J.coerced c ≢ n) (names_of (map (coerced_secret J) ss))
  unfolding find_secret_in
  coerced_present [] t c {e} found same absent = absurd (ground arith)
  coerced_present (s ∷ ss) t c {e} found same absent = elim (Bool-cases (list_eq s.name t)) [
    | inl here ↦
        let is_t : s.name ≡ t = ground (arith, list_eq_iff s.name t) in
        absent.0 (same ∙ ap J.coerced (sym is_t))
    | inr later ↦ coerced_present ss t c {e = e} (ground arith) same absent.1
  ]

  -- Two names that are found and are coerced to one are one, or the coerced names are not distinct.
  coerced_clash :
      (ss : List SealedSecret) (a b : Text) {d e : SealedSecret}
      → J.coerced a ≡ J.coerced b
      → a ≢ b
      → find_secret_in ss a ≡ some d
      → find_secret_in ss b ≡ some e
      → ¬ Distinct (names_of (map (coerced_secret J) ss))
  unfolding find_secret_in
  coerced_clash [] a b same differ found_a found_b distinct = absurd (ground arith)
  coerced_clash (s ∷ ss) a b {d} {e} same differ found_a found_b distinct =
      let eq_a = list_eq_iff s.name a in
      let eq_b = list_eq_iff s.name b in
      elim (Bool-cases (list_eq s.name a)) [
        | inl is_a ↦
            coerced_present ss b s.name {e = e} (ground (arith, eq_a, eq_b))
              (ap J.coerced (eq_a.0 is_a) ∙ same) distinct.0
        | inr not_a ↦ elim (Bool-cases (list_eq s.name b)) [
          | inl is_b ↦
              coerced_present ss a s.name {e = d} (ground (arith, eq_a, eq_b))
                (ap J.coerced (eq_b.0 is_b) ∙ sym same) distinct.0
          | inr not_b ↦
              coerced_clash ss a b {d = d} {e = e} same differ (ground arith) (ground arith)
                distinct.1
        ]
      ]

-- A name that reads as a value is one of a secret.
read_name-found :
    (P : Platform) (name : Text) (m : Machine P) {p : Text}
    → (read_string P name m).0 ≡ ok p
    → (e : SealedSecret) × (find_secret m.session.doc name ≡ some e)
unfolding contents
read_name-found P name m h =
    let reads = ap (λ r. r.0) (read_string_lem P name m) in
    elim (Option-cases (find_secret m.session.doc name)) [
      | inl missing ↦ absurd (ground arith)
      | inr found ↦ found
    ]

module _ (P : Platform) (law : IsGcm P.crypto) (full : IsFullRead P) (json : IsJson P.json) where
  -- Two different names that JSON coerces to one text, as two names do that differ in bytes that
  -- are no UTF-8, can both be put, where the ciphers, the entropy source and JSON work as
  -- documented. The vault is then sealed without an error into bytes that no longer open: their
  -- format is refused.
  pub sealed_unreadable :
      (a b : Text) (p q : Bytes) (m m₁ m₂ : Machine P)
      → a ≢ b
      → P.json.coerced a ≡ P.json.coerced b
      → put P a (some (ok p)) m ≡ (ok tt, m₁)
      → put P b (some (ok q)) m₁ ≡ (ok tt, m₂)
      → (bytes : Bytes) × ((sealed P m₂).0 ≡ ok bytes) × (open_vault P bytes ≡ err wrong_format)
  unfolding sealed marshal open_vault open_with find_secret
  sealed_unreadable a b p q m m₁ m₂ differ same put_a put_b =
      let doc = m₂.session.doc in
      let reads_a₁ = read_string-put P law full a p a m m₁ put_a in
      let reads_a₂ = read_string-put P law full b q a m₁ m₂ put_b in
      let reads_b = read_string-put P law full b q b m₁ m₂ put_b in
      let (d, found_a) =
        read_name-found P a m₂ {p = p}
          (ground (arith, reads_a₁, reads_a₂, list_eq_iff b a, list_eq_iff a a)) in
      let (e, found_b) =
        read_name-found P b m₂ {p = q} (ground (arith, reads_b, list_eq_iff b b)) in
      let (bytes, written, read) = json.unmarshal-marshal doc in
      let refused : parse_sealed P.json bytes ≡ err wrong_format =
        elim (Result-cases (parse_sealed P.json bytes)) [
          | inl (v, parsed) ↦
              let good = (parse_sealed_iff P.json bytes v).0 parsed in
              let same_doc : v ≡ coerced_vault P.json doc = ground (arith, good.0, read) in
              absurd (
                coerced_clash P.json doc.secrets a b same differ found_a found_b
                  (rw same_doc at good.1.names_differ))
          | inr (x, failed) ↦ rw (parse_sealed_error P.json bytes x failed) at failed
        ] in
      (bytes, ground arith, rw refused refl)
