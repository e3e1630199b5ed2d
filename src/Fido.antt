-- ===== src/Fido.antt =====
-- fido/fido.go and fido/refuse.go: the door to a real security key, which stays shut under a test
-- binary and under a coding agent.
pub mod Door
pub mod Dll
pub mod Constants
pub mod Bindings
pub mod Windows
pub mod Flags
pub mod Timeouts
pub mod Unlocking
pub mod Creating
use touchvault.Base.{Bool, true, Text, Done, List, [], ◌∷◌, codes}
use touchvault.Errors.{Result, ok, err, refuse_if, under_test, under_agent, unsupported_platform}
use touchvault.Errors.Chain.{◌>>=◌, ◌>>◌}

abbrev pub agent_env_markers : List Text
agent_env_markers =
    codes "CLAUDECODE"
    ∷ codes "CLAUDE_CODE_ENTRYPOINT"
    ∷ codes "CLAUDE_CODE_SESSION_ID"
    ∷ codes "CLAUDE_CODE_EXECPATH"
    ∷ codes "QWEN_CODE"
    ∷ codes "GEMINI_CLI"
    ∷ []

-- What the process can ask of where it runs: `testing.Testing()`, and whether `os.LookupEnv` finds
-- a variable.
pub record Surroundings : Type 0 where
  pub testing : Bool
  pub is_set : Text → Bool

module _ (here : Surroundings) where
  -- `RefuseUnderTest`
  unfoldable pub refuse_under_test : Result Done
  refuse_under_test = refuse_if here.testing under_test

  -- The loop of `RefuseUnderAgent`.
  unfoldable pub refuse_markers : List Text → Result Done
  refuse_markers [] = ok tt
  refuse_markers (name ∷ names) = do refuse_if (here.is_set name) under_agent; refuse_markers names

  -- `RefuseUnderAgent`
  unfoldable pub refuse_under_agent : Result Done
  unfolding refuse_markers
  refuse_under_agent = refuse_markers agent_env_markers

  -- `RefuseAutomatedContext`
  unfoldable pub refuse_automated_context : Result Done
  unfolding refuse_under_test refuse_under_agent
  refuse_automated_context = do refuse_under_test; refuse_under_agent

  -- `New`, with the `newAuthenticator` of the platform.
  unfoldable pub new {ℓ} : {A : Type ℓ} → Result A → Result A
  unfolding refuse_automated_context
  new new_authenticator = do refuse_automated_context; new_authenticator

-- unsupported_other.go, `newAuthenticator`
abbrev pub unsupported {ℓ} : {A : Type ℓ} → Result A
unsupported = err unsupported_platform
