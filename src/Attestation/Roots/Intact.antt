-- ===== src/Attestation/Roots/Intact.antt =====
-- The anchors that ship with the program, whatever callers do to the pools that they have.
use touchvault.Base.{
  ℕ, true, false, Option, none, some, List, [], ◌∷◌, ◌+◌, ◌<◌, ◌≡◌, ◌≢◌, refl, arith, All, All-map,
  Bool-cases, Option-cases, subst, sym, ap, ◌∙◌, inl, inr, nth, nth-All,
}
use touchvault.Authenticator.{EnrollResult}
use touchvault.Platform.{Platform}
use touchvault.Platform.Certificates.{Certs}
use touchvault.Attestation.{verify_genuine_hardware, trusted_fido_roots, chosen_roots}
use touchvault.Attestation.Describe.{bundled_roots}
use touchvault.Attestation.Roots.{
  Anchors, Use, asks, changes, verifies, untouched, pool_at, give_copy, new_pool, trusted_roots,
  ask_roots, change_at, verify_with, use_anchors, use_all,
}

-- Every address that was given is in use, and is not the one of the bundled roots, which hold what
-- ships with the program once they are made.
pub record IsIntact {X : Certs} (s : Anchors X) : Type 0 where
  pub below : All (λ a. a < s.next) s.given
  pub apart : All (λ a. s.roots ≢ some a) s.given
  pub made :
      s.once ≡ true
      → (a : ℕ) × (s.roots ≡ some a) × (a < s.next) × (s.pools a ≡ some (trusted_fido_roots X))
  pub unmade : s.once ≡ false → s.roots ≡ none

module _ {X : Certs} where
  -- The pointer to the bundled roots, and what holds of them after it was had.
  abbrev HasRoots : Anchors X → Option ℕ × Anchors X → Type 0
  HasRoots s (a, t) =
      IsIntact t × (pool_at t a ≡ some (trusted_fido_roots X)) × (t.given ≡ s.given) × (t.roots ≡ a)

  pub trusted_roots-IsIntact : (s : Anchors X) → IsIntact s → HasRoots s (trusted_roots s)
  unfolding trusted_roots trusted_fido_roots
  trusted_roots-IsIntact s i = elim (Bool-cases s.once) [
    | inl done ↦
        let (a, at, small, holds) = i.made done in
        let after : trusted_roots s ≡ (s.roots, s) = ground (arith) in
        subst (λ (r : Option ℕ × Anchors X). HasRoots s r) (sym after)
          (i, ap (pool_at s) at ∙ holds, refl, refl)
    | inr undone ↦
        let fresh : Anchors X = record (new_pool (X.pool_from_pem X.roots_pem) s) {
          once = true;
          roots = some s.next;
        } in
        let after : trusted_roots s ≡ (some s.next, fresh) = ground (arith) in
        subst (λ (r : Option ℕ × Anchors X). HasRoots s r) (sym after)
          (
            record {
              below =
                  All-map (λ a. a < s.next) (λ a. a < s.next + 1) s.given (λ a h. omega (arith, h))
                    i.below;
              apart =
                  All-map (λ a. a < s.next) (λ a. some s.next ≢ some a) s.given
                    (λ a h e. ground (arith, h, e)) i.below;
              made = λ e. (s.next, refl, omega arith, ground (arith));
              unmade = λ e. ground (arith);
            },
            ground (arith),
            refl,
            refl,
          )
  ]

  -- A pointer to a copy is new: it was given to no one, and is not the one of the bundled roots.
  abbrev HasCopy : Anchors X → Option ℕ × Anchors X → Type 0
  HasCopy s (b, u) =
      IsIntact u
      × (pool_at u b ≡ some (bundled_roots X))
      × All (λ a. b ≢ some a) s.given
      × (b ≢ u.roots)

  give_copy-IsIntact :
      (s t : Anchors X) (a : ℕ)
      → IsIntact t
      → t.pools a ≡ some (trusted_fido_roots X)
      → t.given ≡ s.given
      → t.roots ≡ some a
      → HasCopy s (give_copy (t.pools a) t)
  unfolding bundled_roots
  give_copy-IsIntact s t a i holds same at = elim (Bool-cases t.once) [
    | inr undone ↦ absurd (ground (arith, i.unmade undone))
    | inl done ↦
        let (b, at', small, kept) = i.made done in
        rw (holds, give_copy)
          (
            record {
              below = (
                omega arith,
                All-map (λ a. a < t.next) (λ a. a < t.next + 1) t.given (λ a h. omega (arith, h))
                    i.below,
              );
              apart = (λ e. ground (arith, e), i.apart);
              made = λ e. (b, at', omega (arith, small), ground (arith, kept, small));
              unmade = i.unmade;
            },
            ground (arith),
            rw (← same) (
                All-map (λ a. a < t.next) (λ a. some t.next ≢ some a) t.given
                  (λ a h e. ground (arith, h, e)) i.below),
            λ e. ground (arith, e),
          )
  ]

  pub ask_roots-IsIntact : (s : Anchors X) → IsIntact s → HasCopy s (ask_roots s)
  unfolding ask_roots
  ask_roots-IsIntact s i =
      let t = (trusted_roots s).1 in
      let (intact, holds, same, at) = trusted_roots-IsIntact s i in
      elim (Option-cases (trusted_roots s).0) [
        | inl missing ↦ absurd (ground (arith, holds, missing))
        | inr (a, found) ↦
            let holds' : t.pools a ≡ some (trusted_fido_roots X) = rw found at holds in
            rw found (give_copy-IsIntact s t a intact holds' same (at ∙ found))
      ]

  changed-IsIntact :
      (a : ℕ) (f : X.Pool → X.Pool) (s : Anchors X)
      → s.roots ≢ some a
      → IsIntact s
      → IsIntact (change_at (some a) f s)
  changed-IsIntact a f s apart i = elim (Option-cases (s.pools a)) [
    | inl missing ↦ rw (missing, change_at) i
    | inr (p, found) ↦
        rw (found, change_at)
          (record {
            below = i.below;
            apart = i.apart;
            made = λ e.
                let (b, at, small, kept) = i.made e in (b, at, small, ground (arith, kept, at));
            unmade = i.unmade;
          })
  ]

  -- A change of a pool that was given.
  change_at-IsIntact :
      (n : ℕ) (f : X.Pool → X.Pool) (s : Anchors X)
      → IsIntact s
      → IsIntact (change_at (nth n s.given) f s)
  change_at-IsIntact n f s i = elim (Option-cases (nth n s.given)) [
    | inl missing ↦ rw (missing, change_at) i
    | inr (a, found) ↦
        rw (found, change_at)
          (changed-IsIntact a f s (nth-All (λ a. s.roots ≢ some a) n s.given i.apart found) i)
  ]

module _ (P : Platform) where
  verify_with-IsIntact :
      (r : EnrollResult) (pool : Option ℕ) (s : Anchors P.certs)
      → IsIntact s
      → IsIntact (verify_with P r pool s).1
  unfolding verify_with
  verify_with-IsIntact r none s i = (trusted_roots-IsIntact s i).0
  verify_with-IsIntact r (some a) s i = i

  use_anchors-IsIntact :
      (u : Use P.certs) (s : Anchors P.certs) → IsIntact s → IsIntact (use_anchors P u s)
  unfolding use_anchors
  use_anchors-IsIntact asks s i = (ask_roots-IsIntact s i).0
  use_anchors-IsIntact (changes n f) s i = change_at-IsIntact n f s i
  use_anchors-IsIntact (verifies r none) s i = verify_with-IsIntact r none s i
  use_anchors-IsIntact (verifies r (some n)) s i = verify_with-IsIntact r (nth n s.given) s i

  use_all-IsIntact :
      (us : List (Use P.certs)) (s : Anchors P.certs) → IsIntact s → IsIntact (use_all P us s)
  unfolding use_all
  use_all-IsIntact [] s i = i
  use_all-IsIntact (u ∷ us) s i =
      use_all-IsIntact us (use_anchors P u s) (use_anchors-IsIntact u s i)

  untouched-IsIntact : IsIntact (untouched {X = P.certs})
  untouched-IsIntact = record {
    below = tt;
    apart = tt;
    made = λ e. absurd (ground (arith, e));
    unmade = λ e. refl;
  }

  -- No pool is the bundled roots.
  verified :
      (r : EnrollResult)
      → verify_genuine_hardware P r (some (trusted_fido_roots P.certs))
        ≡ verify_genuine_hardware P r none
  unfolding verify_genuine_hardware chosen_roots
  verified r = refl

  -- Whatever callers do, in whatever order: they ask for the bundled roots, change the pools that
  -- they were given in whatever way, and have credentials verified. A credential that is verified
  -- with no pool is then checked against the roots that ship with the program, and the next call of
  -- `BundledRoots` returns a pointer to a clone of those roots, that no one was given before and
  -- that is not the pointer to the roots themselves.
  pub bundled_roots_lem :
      (us : List (Use P.certs)) (r : EnrollResult)
      → let s = use_all P us untouched in
        ((verify_with P r none s).0 ≡ verify_genuine_hardware P r none)
        × (let (b, t) = ask_roots s in
            (pool_at t b ≡ some (bundled_roots P.certs))
            × All (λ a. b ≢ some a) s.given
            × (b ≢ t.roots))
  unfolding verify_with
  bundled_roots_lem us r =
      let s = use_all P us untouched in
      let i = use_all-IsIntact us untouched untouched-IsIntact in
      let (intact, holds, same, at) = trusted_roots-IsIntact s i in
      let (copied, clone, new, apart) = ask_roots-IsIntact s i in
      (rw (holds, verify_with) (verified r), (clone, new, apart))
