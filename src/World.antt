-- ===== src/World.antt =====
-- The calls that leave the process, in the order in which they are made. Each call of a security
-- key costs the operator one gesture, so the log of a run says what was asked of them, and for
-- what.
use touchvault.Base.{ℕ, Bytes, List, [], ◌∷◌, ◌++◌}
use touchvault.Errors.{or_error, entropy_failed}
use touchvault.Effects.{M}
use touchvault.Authenticator.{
  Authenticator, EnrollRequest, EnrollResult, DeriveRequest, DeriveResult,
}
use touchvault.Platform.{Platform}

pub data Gesture : Type 0 where
  enrolled : EnrollRequest → Gesture
  derived : DeriveRequest → Gesture

pub record World (P : Platform) : Type 0 where
  pub outside : P.Outside
  -- The requests so far.
  pub gestures : List Gesture

module _ (P : Platform) where
  -- `auth.Enroll(req)`
  abbrev pub ask_enroll : Authenticator P.Outside → EnrollRequest → M (World P) EnrollResult
  ask_enroll auth req w =
      let (r, s) = auth.enroll req w.outside in
      (r, record { outside = s; gestures = w.gestures ++ (enrolled req ∷ []) })

  -- `auth.Derive(req)`
  abbrev pub ask_derive : Authenticator P.Outside → DeriveRequest → M (World P) DeriveResult
  ask_derive auth req w =
      let (r, s) = auth.derive req w.outside in
      (r, record { outside = s; gestures = w.gestures ++ (derived req ∷ []) })

  -- crypto.go, `randomBytes`
  unfoldable pub random_bytes : ℕ → M (World P) Bytes
  random_bytes n w =
      let (b, s) = P.rand_read n w.outside in (or_error b entropy_failed, record w { outside = s })
