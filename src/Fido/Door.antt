-- ===== src/Fido/Door.antt =====
-- When the door opens.
use touchvault.Base.{false, Text, List, [], ◌∷◌, ◌≡◌, ◌↔◌, All, arith}
use touchvault.Errors.{Result, ok}
use touchvault.Fido.{Surroundings, agent_env_markers, refuse_markers, new}

refuse_markers_iff :
    (here : Surroundings) (names : List Text)
    → (refuse_markers here names ≡ ok tt) ↔ All (λ name. here.is_set name ≡ false) names
unfolding refuse_markers
refuse_markers_iff here [] = ground arith
refuse_markers_iff here (name ∷ names) = ground (arith, refuse_markers_iff here names)

-- `New` returns an authenticator exactly when the process is no test binary, none of the
-- variables that coding agents set is in its environment, and the platform has that authenticator.
pub new_iff :
    {A : Type 0} (here : Surroundings) (platform : Result A) (auth : A)
    → (new here platform ≡ ok auth) ↔ (
        (here.testing ≡ false)
        × All (λ name. here.is_set name ≡ false) agent_env_markers
        × (platform ≡ ok auth))
unfolding new
new_iff here platform auth = ground (arith, refuse_markers_iff here agent_env_markers)
