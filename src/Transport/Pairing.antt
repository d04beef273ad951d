-- ===== src/Transport/Pairing.antt =====
-- crates/pax-transport/src/pairing.rs: the prompts of pairing, their answers and the outcome.
use pax.Prelude.{ℕ, Bool, true}
use pax.Str.{Str}
use pax.Core.Event.{
  PairingMethodHint, just_works, pin_code, passkey_entry, passkey_display, numeric_comparison,
}

pub data PairingRequest : Type 0 where
  confirm_just_works : PairingRequest
  confirm_passkey : ℕ → PairingRequest
  request_pin_code : PairingRequest
  request_passkey : PairingRequest
  display_passkey : ℕ → PairingRequest

unfoldable pub method_of : PairingRequest → PairingMethodHint
method_of confirm_just_works = just_works
method_of (confirm_passkey k) = numeric_comparison
method_of request_pin_code = pin_code
method_of request_passkey = passkey_entry
method_of (display_passkey k) = passkey_display

pub data PairingResponse : Type 0 where
  confirm : Bool → PairingResponse
  pin : Str → PairingResponse
  passkey : ℕ → PairingResponse
  acknowledged : PairingResponse
  cancel : PairingResponse

-- `PairingAgent::respond`: an answer, which may depend on and change what stands behind the
-- agent (a human, a script), here the type `W`.
abbrev pub PairingAgent : Type 0 → Type 0
PairingAgent W = PairingRequest → W → PairingResponse × W

pub record PairingOutcome : Type 0 where
  pub paired : Bool
  pub bonded : Bool
  pub method : PairingMethodHint

abbrev pub bonded_by : PairingMethodHint → PairingOutcome
bonded_by m = record { paired = true; bonded = true; method = m }
