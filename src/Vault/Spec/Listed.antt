-- ===== src/Vault/Spec/Listed.antt =====
-- The names that a session lists, and those of the store.
use touchvault.Base.{
  Bytes, Text, List, true, none, ◌≡◌, ◌≢◌, ◌↔◌, [], arith, inl, inr, Option-cases, contains, refl,
  list_Eq, nat_Eq,
}
use touchvault.Errors.{ok}
use touchvault.Platform.{Platform}
use touchvault.Sealed.Document.{SealedVault}
use touchvault.Sealed.Find.{find_secret, find_secret_in}
use touchvault.Sealed.Listing.{names}
use touchvault.Sealed.Listing.Complete.{names_iff}
use touchvault.Vault.Session.{Machine, list_names}
use touchvault.Vault.Session.Reading.{contents}
use touchvault.Vault.Calls.Sound.{open_secret-header}
use touchvault.Vault.Spec.{Store}
use touchvault.Vault.Spec.Represents.{Represents}
use touchvault.Vault.Spec.Writes.{opened_secret}

-- The names that a session lists.
abbrev pub Lists : (P : Platform) → Machine P → Store → Type 0
Lists P m a =
    (ns : List Text) × ((list_names P m).0 ≡ ok ns)
    × ((name : Text) → (contains ns name ≡ true) ↔ (a.values name ≢ none))

module _ (P : Platform) (h : SealedVault) (data_key : Bytes) (keyed : data_key ≢ []) where
  find_secret-shown :
      (m : Machine P) (a : Store) (name : Text)
      → Represents P h data_key m a
      → (find_secret m.session.doc name ≢ none) ↔ (a.values name ≢ none)
  unfolding contents find_secret
  find_secret-shown m a name r = elim (Option-cases (find_secret_in m.session.doc.secrets name)) [
    | inl missing ↦ ground (arith, r.shown name, keyed)
    | inr (entry, found) ↦
        let (p, opens) =
          opened_secret P h data_key m.session.doc.secrets name r.sound.secrets_open found in
        let same = open_secret-header P h data_key m.session data_key entry r.sound in
        ground (arith, r.shown name, keyed)
  ]

  pub list_names-Lists : (m : Machine P) (a : Store) → Represents P h data_key m a → Lists P m a
  unfolding list_names
  list_names-Lists m a r = (
    names m.session.doc,
    refl,
    λ name. ground (arith, names_iff m.session.doc name, find_secret-shown m a name r),
  )
