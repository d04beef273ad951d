-- ===== src/Core/Event.antt =====
-- crates/pax-core/src/event.rs: what a backend reports of data in transit.
use pax.Prelude.{ℕ, Bool, true, false, Option, ℤ}
use pax.Str.{Str, codes}
use pax.Core.Time.{Duration, Timestamp}
use pax.Core.Spec.{SpecContext}
use pax.Core.Standards.{StandardsProfile}
use pax.Core.Hardware.{ControllerModel}
use pax.Core.Device.{DeviceId}

pub record EventOrigin : Type 0 where
  pub local : ControllerModel
  pub peer : DeviceId
  pub spec : SpecContext
  pub standards : StandardsProfile

pub data Direction : Type 0 where
  outbound inbound : Direction

unfoldable pub display_direction : Direction → Str
display_direction outbound = codes "out"
display_direction inbound = codes "in"

pub data PairingMethodHint : Type 0 where
  just_works pin_code passkey_entry passkey_display numeric_comparison : PairingMethodHint
  out_of_band : PairingMethodHint

unfoldable pub display_method : PairingMethodHint → Str
display_method just_works = codes "just-works"
display_method pin_code = codes "pin-code"
display_method passkey_entry = codes "passkey-entry"
display_method passkey_display = codes "passkey-display"
display_method numeric_comparison = codes "numeric-comparison"
display_method out_of_band = codes "oob"

pub data TransitEventKind : Type 0 where
  discovery_started : TransitEventKind
  device_discovered : Option ℤ → TransitEventKind
  pairing_started : PairingMethodHint → TransitEventKind
  pairing_completed : TransitEventKind
  pairing_failed : Str → TransitEventKind
  connected : TransitEventKind
  disconnected : Option Str → TransitEventKind
  -- the name and the total size
  transfer_started : Str → ℕ → TransitEventKind
  -- the bytes so far and the total
  transfer_progress : ℕ → ℕ → TransitEventKind
  transfer_completed : ℕ → Duration → TransitEventKind
  data_chunk : Direction → ℕ → TransitEventKind
  -- the code and the detail
  warning : Str → Str → TransitEventKind
  error : Str → TransitEventKind

unfoldable pub payload_bytes : TransitEventKind → ℕ
payload_bytes (data_chunk direction bytes) = bytes
payload_bytes _ = 0

unfoldable pub is_failure : TransitEventKind → Bool
is_failure (error detail) = true
is_failure (pairing_failed reason) = true
is_failure _ = false

unfoldable pub label : TransitEventKind → Str
label discovery_started = codes "discovery-started"
label (device_discovered rssi) = codes "device-discovered"
label (pairing_started method) = codes "pairing-started"
label pairing_completed = codes "pairing-completed"
label (pairing_failed reason) = codes "pairing-failed"
label connected = codes "connected"
label (disconnected reason) = codes "disconnected"
label (transfer_started name total) = codes "transfer-started"
label (transfer_progress transferred total) = codes "transfer-progress"
label (transfer_completed bytes duration) = codes "transfer-completed"
label (data_chunk direction bytes) = codes "data-chunk"
label (warning code detail) = codes "warning"
label (error detail) = codes "error"

pub record TransitEvent : Type 0 where
  pub seq : ℕ
  pub at : Timestamp
  pub origin : EventOrigin
  pub kind : TransitEventKind
