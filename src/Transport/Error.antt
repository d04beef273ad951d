-- ===== src/Transport/Error.antt =====
-- crates/pax-transport/src/error.rs: operational errors, the crate's `Result`, and operations on
-- a backend's state.
use pax.Prelude.{ℕ, Bool, true, false, ◌++◌}
use pax.Str.{Str, codes, decimal}
use pax.Core.Error.{Error, display_error}
use pax.Core.Device.{DeviceId, display_id}

pub data TransportError : Type 0 where
  core : Error → TransportError
  unavailable : Str → TransportError
  device_not_found : DeviceId → TransportError
  not_connected : DeviceId → TransportError
  pairing_rejected : Str → TransportError
  pairing_failed : Str → TransportError
  -- the bytes pushed before the failure, and why it failed
  transfer_failed : ℕ → Str → TransportError
  -- the backend and the operation
  unsupported : Str → Str → TransportError
  local_address : Str → TransportError
  backend : Str → TransportError
  timeout : Str → TransportError

-- The `#[error(..)]` texts.
unfoldable pub display : TransportError → Str
unfolding display_error display_id decimal
display (core e) = display_error e
display (unavailable s) = codes "backend unavailable: " ++ s
display (device_not_found d) = codes "device not found: " ++ display_id d
display (not_connected d) = codes "not connected: " ++ display_id d
display (pairing_rejected s) = codes "pairing rejected: " ++ s
display (pairing_failed s) = codes "pairing failed: " ++ s
display (transfer_failed n s) = codes "transfer failed after " ++ decimal n ++ codes " bytes: " ++ s
display (unsupported b o) =
    codes "operation `" ++ o ++ codes "` not supported by the " ++ b ++ codes " backend"
display (local_address s) = codes "could not set local address: " ++ s
display (backend s) = codes "backend error: " ++ s
display (timeout s) = codes "timed out: " ++ s

pub data Result {ℓ} (A : Type ℓ) : Type ℓ where
  ok : A → Result A
  err : TransportError → Result A

abbrev pub is_ok {ℓ} : {A : Type ℓ} → Result A → Bool
is_ok (ok a) = true
is_ok (err e) = false

-- An operation on a backend in state `S`: the result, and the state that it leaves.
abbrev pub Op {ℓ} : Type 0 → Type ℓ → Type ℓ
Op S A = S → Result A × S

-- `?` between two awaited operations.
infixl 5 ◌>>=◌ ◌>>◌
abbrev pub ◌>>=◌ {ℓ κ} : {S : Type 0} {A : Type ℓ} {B : Type κ} → Op S A → (A → Op S B) → Op S B
◌>>=◌ m f s = let (r, s') = m s in elim r [ ok a ↦ f a s' | err e ↦ (err e, s') ]

abbrev pub ◌>>◌ {κ} : {S : Type 0} {B : Type κ} → Op S (Unit {0}) → Op S B → Op S B
m >> k = m >>= λ _. k
