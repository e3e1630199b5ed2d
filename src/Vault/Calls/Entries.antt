-- ===== src/Vault/Calls/Entries.antt =====
-- The lists of entries under the loops of the methods.
use touchvault.Base.{ℤ, Bytes, Text, List, [], ◌∷◌, ◌++◌, some, none, false, ◌≡◌, ◌≢◌}
use touchvault.Base.{
  All, All-of_map, All-to_map, Distinct, All-append, arith, list_eq, list_eq_iff, int_eq,
  int_eq_iff, nat_Eq,
}
use touchvault.Base.{Bool-cases, Option-cases, inl, inr, map}
use touchvault.Sealed.Document.{SealedKey, SealedSecret}
use touchvault.Sealed.Find.{find_key_in, slot_in}
use touchvault.Sealed.Parse.Valid.{names_of}
use touchvault.Vault.Session.{put_secret, delete_secret, keys_without}

module _ {κ} (Q : SealedSecret → Type κ) where
  pub put_secret-All :
      (e : SealedSecret) (ss : List SealedSecret) → Q e → All Q ss → All Q (put_secret e ss)
  unfolding put_secret
  put_secret-All e [] q h = (q, tt)
  put_secret-All e (s ∷ ss) q h = elim (Bool-cases (list_eq s.name e.name)) [
    | inl same ↦ rw same (q, h.1)
    | inr differ ↦ rw differ (h.0, put_secret-All e ss q h.1)
  ]

  pub delete_secret-All :
      (name : Text) (ss kept : List SealedSecret)
      → delete_secret name ss ≡ some kept
      → All Q ss
      → All Q kept
  unfolding delete_secret
  delete_secret-All name [] kept h a = absurd (ground arith)
  delete_secret-All name (s ∷ ss) kept h a = elim (Option-cases (delete_secret name ss)) [
    | inl missing ↦ let e : ss ≡ kept = ground arith in rw (← e) a.1
    | inr (kept', found) ↦ elim (Bool-cases (list_eq s.name name)) [
      | inl same ↦ let e : ss ≡ kept = ground arith in rw (← e) a.1
      | inr differ ↦
          let e : s ∷ kept' ≡ kept = ground arith in
          rw (← e) (a.0, delete_secret-All name ss kept' found a.1)
    ]
  ]

-- An entry's name is new to a list, as a predicate on entries.
abbrev NotNamed : Text → SealedSecret → Type 0
NotNamed name s = name ≢ s.name

pub put_secret-names_differ :
    (e : SealedSecret) (ss : List SealedSecret)
    → Distinct (names_of ss)
    → Distinct (names_of (put_secret e ss))
unfolding put_secret
put_secret-names_differ e [] h = (tt, tt)
put_secret-names_differ e (s ∷ ss) h = elim (Bool-cases (list_eq s.name e.name)) [
  | inl same ↦ rw (same, ← (list_eq_iff s.name e.name).0 same) h
  | inr differ ↦ rw differ (
    All-to_map (λ n. s.name ≢ n) (λ t. t.name) (put_secret e ss)
        (put_secret-All (NotNamed s.name) e ss (λ q. ground (arith, list_eq_iff s.name e.name))
          (All-of_map (λ n. s.name ≢ n) (λ t. t.name) ss h.0)),
    put_secret-names_differ e ss h.1,
  )
]

pub delete_secret-names_differ :
    (name : Text) (ss kept : List SealedSecret)
    → delete_secret name ss ≡ some kept
    → Distinct (names_of ss)
    → Distinct (names_of kept)
unfolding delete_secret
delete_secret-names_differ name [] kept h d = absurd (ground arith)
delete_secret-names_differ name (s ∷ ss) kept h d = elim (Option-cases (delete_secret name ss)) [
  | inl missing ↦ let e : ss ≡ kept = ground arith in rw (← e) d.1
  | inr (kept', found) ↦ elim (Bool-cases (list_eq s.name name)) [
    | inl same ↦ let e : ss ≡ kept = ground arith in rw (← e) d.1
    | inr differ ↦
        let e : s ∷ kept' ≡ kept = ground arith in
        rw (← e) (
          All-to_map (λ n. s.name ≢ n) (λ t. t.name) kept'
              (delete_secret-All (NotNamed s.name) name ss kept' found
                (All-of_map (λ n. s.name ≢ n) (λ t. t.name) ss d.0)),
          delete_secret-names_differ name ss kept' found d.1,
        )
  ]
]

module _ {κ} (Q : SealedKey → Type κ) where
  pub keys_without-All : (slot : ℤ) (ks : List SealedKey) → All Q ks → All Q (keys_without slot ks)
  unfolding keys_without
  keys_without-All slot [] h = tt
  keys_without-All slot (k ∷ ks) h = elim (Bool-cases (int_eq k.slot slot)) [
    | inl same ↦ rw same (keys_without-All slot ks h.1)
    | inr differ ↦ rw differ (h.0, keys_without-All slot ks h.1)
  ]

module _ {B : Type 0} (f : SealedKey → B) where
  -- A field that differs in all keys differs in those that are kept.
  pub keys_without-Distinct :
      (slot : ℤ) (ks : List SealedKey)
      → Distinct (map f ks)
      → Distinct (map f (keys_without slot ks))
  unfolding keys_without
  keys_without-Distinct slot [] h = tt
  keys_without-Distinct slot (k ∷ ks) h = elim (Bool-cases (int_eq k.slot slot)) [
    | inl same ↦ rw same (keys_without-Distinct slot ks h.1)
    | inr differ ↦ rw differ (
      All-to_map (λ b. f k ≢ b) f (keys_without slot ks)
          (keys_without-All (λ j. f k ≢ f j) slot ks (All-of_map (λ b. f k ≢ b) f ks h.0)),
      keys_without-Distinct slot ks h.1,
    )
  ]

  -- A key whose field is new goes behind the others.
  pub append-Distinct :
      (ks : List SealedKey) (e : SealedKey)
      → All (λ k. f k ≢ f e) ks
      → Distinct (map f ks)
      → Distinct (map f (ks ++ (e ∷ [])))
  append-Distinct [] e new h = (tt, tt)
  append-Distinct (k ∷ ks) e new h = (
    All-to_map (λ b. f k ≢ b) f (ks ++ (e ∷ []))
        (All-append (λ j. f k ≢ f j) ks (e ∷ []) (All-of_map (λ b. f k ≢ b) f ks h.0) (new.0, tt)),
    append-Distinct ks e new.1 h.1,
  )

pub slot_in-new :
    (ks : List SealedKey) (slot : ℤ) → slot_in ks slot ≡ false → All (λ k. k.slot ≢ slot) ks
unfolding slot_in
slot_in-new [] slot h = tt
slot_in-new (k ∷ ks) slot h = (
  ground (arith, int_eq_iff k.slot slot),
  slot_in-new ks slot (ground (arith, int_eq_iff k.slot slot)),
)

pub find_key_in-new :
    (ks : List SealedKey) (id : Bytes)
    → find_key_in ks id ≡ none
    → All (λ k. k.credential_id ≢ id) ks
unfolding find_key_in
find_key_in-new [] id h = tt
find_key_in-new (k ∷ ks) id h = (
  ground (arith, list_eq_iff k.credential_id id),
  find_key_in-new ks id (ground (arith, list_eq_iff k.credential_id id)),
)
