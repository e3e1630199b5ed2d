-- ===== src/Lib.antt =====
-- touchvault: a vault of secrets that a FIDO2 security key unlocks by touch, in Go.
--
-- The program and its model:
--   authenticator.go is the port behind which a security key stands: requests, results, and the
--     checks that every provider shares. Authenticator has them, with the interface as a record of
--     two calls on the state of the world outside.
--   sealed.go is the document that a caller persists. Sealed has it: its types (Document), its
--     authenticated data byte by byte (Aad), the lookups (Find), the listings (Listing), and
--     `parseSealed` with `marshal` (Parse).
--   crypto.go derives keys, seals and opens. Crypto has it: Pure what draws no random bytes, Seal
--     what does (`randomBytes` is in World).
--   entropy.go is the gate that proves, before anything is sealed, that a key's derivation depends
--     on the salt: Entropy.
--   attestation.go checks that a new credential lives on genuine hardware: Attestation, with the
--     text that describes a chain in Attestation.Describe, and in Attestation.Roots the pool of
--     bundled roots, which is made once, behind the pointers that callers have.
--   slots.go picks a free slot, and describes one: Slots.
--   vault.go is the lifecycle: Vault has `Options` (Options), `Create` and `enrollAndDerive`
--     (Create), `Open` and `unlock` (Open), and the methods of a session (Session). `Unlock` and
--     `Administer` both are `unlock`. Vault.Calls has a session as a sequence of method calls.
--     Vault.Shared has a vault with all the sessions that it handed out: they share its document,
--     each has a data key of its own, and their calls come in any order. Vault.Spec has what a
--     session is to its user, a store of values under names, Vault.Goroutines goroutines that share
--     a session and its mutex, Vault.Race those that use several sessions of one vault,
--     Vault.Touches what is asked of the operator, Vault.Prf what holds of the keys of a vault since
--     hmac-secret is a function, and Vault.Working what the core does where everything around it
--     works.
--   errors.go has the sentinels: Errors.
--   fido/ is the provider of real security keys: Fido has `New` and its refusals, Fido.Windows the
--     authenticator of webauthn_windows.go, and Fido.Bindings the calls of webauthn.dll in
--     fido/internal/winwebauthn, `MakeCredential` (Making) and `GetAssertion` (Asserting), with
--     the structures of types_windows.go (Fido.Dll), the constants of consts_windows.go
--     (Fido.Constants) and the DLL as a parameter. Fido.Creating and Fido.Unlocking put the core
--     and the provider together.
--
-- How it is modelled. `[]byte` and `string` are lists of byte values, `int` is ℤ. An error is
-- what `errors.Is` sees of it: its sentinel; the text of a message is left out. Code that changes
-- state is a function from the state to a result and the state after it (Effects), so an error
-- keeps what was changed before it. A World is the state outside the process, with a log of the
-- requests that were made to security keys: one entry is one touch. A Machine is a session in a
-- world. Each method is one step there. Vault.Steps has the methods once more, as the single reads,
-- calls and writes that they make between the `Lock` of the mutex and the return, each of which may
-- find what another goroutine wrote; Threads has goroutines that take such steps in any order.
--
-- What is not under the repository's control is a parameter, Platform: the entropy source, AES-GCM,
-- HKDF and SHA-256 (Platform.Ciphers), certificates, signatures and PEM (Platform.Certificates),
-- encoding/json on the document (Platform.Serializer), webauthn.dll (Fido.Dll), and any
-- Authenticator. What their documentation says is a record of laws for each (IsGcm, BindsData,
-- IsJson, Decodes, IsFullRead, NeverFails), which a theorem takes where it needs it; so is what
-- hmac-secret is (IsHmacSecret), and a security key that works (IsWorkingKey). Toy has a small platform and keys that fulfil
-- them, and Tests runs the model on it.
--
-- Bounds and fuel. Lengths and slots in the authenticated data keep their low 32 bits, as in the
-- source. `FreeSlot` has one round of fuel for each occupied slot, since each round but the last
-- meets one of them, and `parsePEMCertificates` one for each byte and one more, since a block takes
-- a byte at least. A number is written with one round for each unit and one more, more than it has
-- digits. The other loops recurse on a list.
--
-- Not modelled: where a structure of webauthn.dll lies in memory, and freeing; the texts of errors,
-- but for the description of a chain; the overwriting of buffers that no call can see again; and
-- what the Go memory model allows where two goroutines reach one variable with no mutex between
-- them: a step of Vault.Steps is never torn, and all that a session asks of what is outside, as a
-- whole enrollment of a key, is one step. `Lock` and the deferred `Unlock` of the mutex are part of
-- what a goroutine does with each call (Threads), and are not written out for each method. An
-- authenticator always returns; a wait without end is not expressed. An `io.Reader` is what reading
-- it to the end gives: it neither blocks nor calls the session. A chain of certificates leads to
-- the roots or does not, whatever the time, while `leaf.Verify` looks at the clock too. A sort is
-- an insertion sort. `Available` of fido/fido.go
-- only says which build this is, and doc.go has no code.
pub mod Base
pub mod Errors
pub mod Effects
pub mod Threads
pub mod Authenticator
pub mod Platform
pub mod Sealed
pub mod World
pub mod Crypto
pub mod Entropy
pub mod Attestation
pub mod Slots
pub mod Vault
pub mod Fido
pub mod Toy
pub mod Tests
