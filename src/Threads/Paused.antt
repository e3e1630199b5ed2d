-- ===== src/Threads/Paused.antt =====
-- A goroutine that takes some steps of its call and is then left where it is.
use touchvault.Base.{
  ℕ, ap, List, [], ◌∷◌, ◌++◌, zero, suc, Option, some, none, ◌≡◌, ◌≢◌, refl, arith, ◌∙◌, sym,
}
use touchvault.Effects.Programs.{Prog, done, tick, run}
use touchvault.Threads.{waits, runs, System, Event, calls, begin, go, start_call, turn, turns}
use touchvault.Threads.Progress.{only, only-suc, go-waits, go-tick, runs_out, turns-append}

-- What is left after a number of steps, and the state, unless that is more steps than there are.
unfoldable pub peel : {S A : Type 0} → ℕ → Prog S A → S → Option (Prog S A × S)
peel zero p s = some (p, s)
peel (suc n) (done r) s = none
peel (suc n) (tick f k) s = peel n (k s) (f s)

module _ {S O A : Type 0} (mutex_of : O → ℕ) (body : O → Prog S A) where
  -- A goroutine is past the `Lock`, with the rest of its call before it.
  pub record Paused (i : ℕ) (o : O) (y z : System S O A) (p : Prog S A) (s : S) : Type 0 where
    pub inside : z.thread i ≡ runs o p
    pub others : (j : ℕ) → j ≢ i → z.thread j ≡ y.thread j
    pub holders : (m : ℕ) → m ≢ mutex_of o → z.holder m ≡ y.holder m
    pub logged : z.log ≡ y.log
    pub changed : z.shared ≡ s

  go-tick-others :
      (i : ℕ) (o : O) (f : S → S) (k : S → Prog S A) (y : System S O A) (j : ℕ)
      → j ≢ i
      → (go mutex_of body i (runs o (tick f k)) y).thread j ≡ y.thread j
  unfolding go
  go-tick-others i o f k y j ne = ground (arith)

  ticks :
      (n : ℕ) (r : Prog S A) (i : ℕ) (o : O) (y : System S O A) {p : Prog S A} {s : S}
      → y.thread i ≡ runs o r
      → peel n r y.shared ≡ some (p, s)
      → Paused i o y (turns mutex_of body (only n i) y) p s
  unfolding peel only turns go
  ticks zero r i o y e h = record {
    inside = ground (arith);
    others = λ j ne. refl;
    holders = λ m ne. refl;
    logged = refl;
    changed = ground (arith);
  }
  ticks (suc n) (done r) i o y e h = absurd (ground (arith))
  ticks (suc n) (tick f k) i o y {p} {s} e h =
      let z = go mutex_of body i (runs o (tick f k)) y in
      let rest = ticks n (k y.shared) i o z (go-tick mutex_of body i o f k y) h in
      rw (only-suc mutex_of body n i (runs o (tick f k)) y e) (record {
        inside = rest.inside;
        others = λ j ne. rest.others j ne ∙ go-tick-others i o f k y j ne;
        holders = rest.holders;
        logged = rest.logged;
        changed = rest.changed;
      })

  go-waits-holders :
      (i : ℕ) (o : O) (y : System S O A) (m : ℕ)
      → y.holder (mutex_of o) ≡ none
      → m ≢ mutex_of o
      → (go mutex_of body i (waits o) y).holder m ≡ y.holder m
  unfolding go
  go-waits-holders i o y m free ne = rw (free, go) (ground (arith))

  -- A goroutine locks a mutex that is free, takes a number of steps, and pauses.
  pub pauses :
      (n i : ℕ) (o : O) (y : System S O A) {p : Prog S A} {s : S}
      → y.thread i ≡ waits o
      → y.holder (mutex_of o) ≡ none
      → peel n (body o) y.shared ≡ some (p, s)
      → Paused i o y (turns mutex_of body (only (suc n) i) y) p s
  pauses n i o y {p} {s} e free h =
      let z = go mutex_of body i (waits o) y in
      let (inside, same, threads, logged) = go-waits mutex_of body i o y free in
      let rest = ticks n (body o) i o z inside (rw same h) in
      rw (only-suc mutex_of body n i (waits o) y e) (record {
        inside = rest.inside;
        others = λ j ne. rest.others j ne ∙ threads j ne;
        holders = λ m ne. rest.holders m ne ∙ go-waits-holders i o y m free ne;
        logged = rest.logged ∙ logged;
        changed = rest.changed;
      })

  -- Two calls of two goroutines whose mutexes differ. The first takes some steps and pauses, the
  -- second takes some and pauses; then the first runs out, and then the second. What they leave.
  pub overlap :
      (o q : O) (n k : ℕ) (s : S) {p₁ p₂ : Prog S A} {s₁ s₂ : S}
      → mutex_of o ≢ mutex_of q
      → peel n (body o) s ≡ some (p₁, s₁)
      → peel k (body q) s₁ ≡ some (p₂, s₂)
      → (es : List (Event O)) × (let t = run p₁ s₂ in
          let u = run p₂ t.1 in
          let y = turns mutex_of body es (begin s) in
          (y.shared ≡ u.1) × (y.log ≡ (1, q, u.0) ∷ (0, o, t.0) ∷ []))
  unfolding turn turns start_call
  overlap o q n k s {p₁} {p₂} {s₁} {s₂} differ h₁ h₂ =
      let y₀ = turn mutex_of body (calls 1 q) (turn mutex_of body (calls 0 o) (begin s)) in
      let y₁ = turns mutex_of body (only (suc n) 0) y₀ in
      let y₂ = turns mutex_of body (only (suc k) 1) y₁ in
      let a₁ = pauses n 0 o y₀ refl refl h₁ in
      let a₂ : Paused 1 q y₁ y₂ p₂ s₂ =
        pauses k 1 q y₁ (a₁.others 1 (λ h. omega (arith, h)))
          (a₁.holders (mutex_of q) (λ h. differ (sym h))) (rw a₁.changed h₂) in
      let (c, b₁) =
        runs_out mutex_of body p₁ 0 o y₂ (a₂.others 0 (λ h. omega (arith, h)) ∙ a₁.inside) in
      let y₃ = turns mutex_of body (only c 0) y₂ in
      let (d, b₂) =
        runs_out mutex_of body p₂ 1 q y₃ (b₁.others 1 (λ h. omega (arith, h)) ∙ a₂.inside) in
      let y₄ = turns mutex_of body (only d 1) y₃ in
      let last : List (Event O) = only c 0 ++ only d 1 in
      let whole : turns mutex_of body (only (suc n) 0 ++ (only (suc k) 1 ++ last)) y₀ ≡ y₄ =
        turns-append mutex_of body (only (suc n) 0) (only (suc k) 1 ++ last) y₀
        ∙ turns-append mutex_of body (only (suc k) 1) last y₁
        ∙ turns-append mutex_of body (only c 0) (only d 1) y₂ in
      (
        calls 0 o ∷ calls 1 q ∷ (only (suc n) 0 ++ (only (suc k) 1 ++ last)),
        (
          ap (λ (y : System S O A). y.shared) whole ∙ rw (b₁.changed, a₂.changed) at b₂.changed,
          ap (λ (y : System S O A). y.log) whole
              ∙ rw (b₁.logged, b₁.changed, a₂.changed, a₂.logged, a₁.logged) at b₂.logged,
        ),
      )
