-- ===== src/Fido/Dll.antt =====
-- fido/internal/winwebauthn/types_windows.go: the structures that are passed to webauthn.dll, and
-- the DLL itself, with the text conversions of golang.org/x/sys/windows, as parameters. A pointer
-- is `none` where it is null; a pointer to bytes or to an array is the memory from there on, of
-- which a length says how much is meant.
pub mod Inputs
pub mod Outputs
use touchvault.Base.{ℕ, Bytes, Text, Option}
use Inputs.{
  RpEntityInformation, UserEntityInformation, CoseCredentialParameters, ClientData,
  MakeCredentialOptions, GetAssertionOptions,
}
use Outputs.{CredentialAttestation, Assertion}

-- The arguments of `WebAuthNAuthenticatorMakeCredential`, in its order.
pub record MakeCall (Wide : Type 0) : Type 0 where
  pub window : ℕ
  pub rp : RpEntityInformation Wide
  pub user : UserEntityInformation Wide
  pub params : CoseCredentialParameters Wide
  pub client : ClientData Wide
  pub options : MakeCredentialOptions Wide

-- The arguments of `WebAuthNAuthenticatorGetAssertion`, in its order.
pub record AssertionCall (Wide : Type 0) : Type 0 where
  pub window : ℕ
  pub rp_id : Wide
  pub client : ClientData Wide
  pub options : GetAssertionOptions Wide

pub record Dll (S : Type 0) : Type 1 where
  -- UTF-16 text, where a pointer to it leads.
  pub Wide : Type 0
  -- `windows.UTF16PtrFromString` and `windows.UTF16PtrToString`
  pub utf16_ptr : Text → Option Wide
  pub utf16_text : Wide → Text
  -- `WebAuthNGetApiVersionNumber`, and `GetConsoleWindow` of kernel32.dll.
  pub api_version : ℕ
  pub console_window : S → ℕ
  -- The result code, and where the output pointer leads after the call.
  pub make_credential : MakeCall Wide → S → (ℕ × Option (CredentialAttestation Wide)) × S
  pub get_assertion : AssertionCall Wide → S → (ℕ × Option (Assertion Wide)) × S
  -- crypto/sha256
  pub sha256 : Bytes → Bytes
