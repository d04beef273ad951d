-- ===== src/Transport/Radio.antt =====
-- What crates/pax-transport/src/bluez.rs and btleplug.rs have in common: the backend's own fields
-- around a host's Bluetooth stack, the events that it emits, and what a scan does with a device.
pub mod Scans
pub mod Taken
use pax.Prelude.{ℕ, ◌+◌, ◌%◌, ◌^◌, Bool, false, List, [], ◌∷◌, ◌++◌, length, if◌then◌else◌}
use pax.Str.{Str}
use pax.Core.Time.{Duration, Timestamp}
use pax.Core.Spec.{SpecContext}
use pax.Core.Standards.{StandardsProfile, bredr_default}
use pax.Core.Hardware.{ControllerModel}
use pax.Core.Device.{DeviceId, DeviceInfo}
use pax.Core.Event.{TransitEvent, TransitEventKind, EventOrigin, device_discovered}
use pax.Transport.Error.{backend, Result, ok, err, Op}
use pax.Transport.Backend.{Connection, DiscoveryFilter, accepts}
use pax.Transport.Mock.Discover.{limit_reached}

-- What a call of the stack answers; an error is known by its text.
pub data Answer {ℓ} (A : Type ℓ) : Type ℓ where
  done : A → Answer A
  failed : Str → Answer A

abbrev pub Call {ℓ} : Type 0 → Type ℓ → Type ℓ
Call W A = W → Answer A × W

-- The backend: `world` is the stack and all that is outside, `emitted` are the events that the
-- observer was handed.
pub record Radio (W : Type 0) : Type 0 where
  pub world : W
  pub controller : ControllerModel
  pub spec : SpecContext
  pub standards : DeviceId → StandardsProfile
  pub seq : ℕ
  pub discovery_window : Duration
  pub emitted : List TransitEvent

abbrev pub with_controller : {W : Type 0} → Radio W → ControllerModel → Radio W
with_controller r controller = record r { controller = controller }

abbrev pub with_spec : {W : Type 0} → Radio W → SpecContext → Radio W
with_spec r spec = record r { spec = spec }

abbrev pub with_discovery_window : {W : Type 0} → Radio W → Duration → Radio W
with_discovery_window r window = record r { discovery_window = window }

abbrev pub with_standards_resolver :
    {W : Type 0} → Radio W → (DeviceId → StandardsProfile) → Radio W
with_standards_resolver r resolver = record r { standards = resolver }

abbrev pub with_standards_override : {W : Type 0} → Radio W → StandardsProfile → Radio W
with_standards_override r profile = record r { standards = λ peer. profile }

-- `DefaultStandards`.
abbrev pub default_standards : DeviceId → StandardsProfile
default_standards peer = bredr_default

module _ {W : Type 0} where
  abbrev pub moved : Radio W → W → Radio W
  moved r w = record r { world = w }

  -- A call of the stack, its error mapped by `map_err`.
  abbrev pub lift {ℓ} : {A : Type ℓ} → Call W A → Op (Radio W) A
  lift call r =
      let (a, w) = call r.world in
      elim a [ done x ↦ (ok x, moved r w) | failed e ↦ (err (backend e), moved r w) ]

  -- A call whose answer is dropped.
  abbrev pub ignore {ℓ} : {A : Type ℓ} → Call W A → Radio W → Radio W
  ignore call r = moved r (call r.world).1

  abbrev pub refuse {ℓ} : {A : Type ℓ} → pax.Transport.Error.TransportError → Op (Radio W) A
  refuse e r = (err e, r)

  abbrev pub return {ℓ} : {A : Type ℓ} → A → Op (Radio W) A
  return a r = (ok a, r)

  -- The token is unused.
  abbrev pub link : DeviceId → Radio W → Connection
  link target r = record {
    peer = target;
    local = r.controller;
    spec = r.spec;
    standards = r.standards target;
    token = 0;
  }

  module _ (now : W → Timestamp) where
    -- The next event; the number is that of an `AtomicU64`.
    unfoldable pub emit : DeviceId → TransitEventKind → Radio W → Radio W
    emit peer kind r = record r {
      seq = (r.seq + 1) % 2 ^ 64;
      emitted =
          r.emitted
          ++ record {
            seq = r.seq;
            at = now r.world;
            origin = record {
              local = r.controller;
              peer = peer;
              spec = r.spec;
              standards = r.standards peer;
            };
            kind = kind;
          }
            ∷ [];
    }

    -- An emission between two operations.
    abbrev pub emits : DeviceId → TransitEventKind → Op (Radio W) (Unit {0})
    emits peer kind r = (ok tt, emit peer kind r)

    -- A device that a scan came upon: whether the scan stops, and the results with the event.
    unfoldable pub offer :
        (Str → Str)
        → DiscoveryFilter
        → DeviceInfo
        → List DeviceInfo
        → Radio W
        → Bool × List DeviceInfo × Radio W
    unfolding accepts limit_reached
    offer lower f info out r =
        if accepts lower f info
        then (
          limit_reached f.limit (length out + 1),
          out ++ info ∷ [],
          emit info.id (device_discovered info.rssi) r,
        )
        else (false, out, r)
