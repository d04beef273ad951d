-- ===== src/Transport/Mock.antt =====
-- crates/pax-transport/src/mock.rs: the deterministic in-memory backend. Its state, with what the
-- mutexes guard, is a record; `emitted` lists the calls of the observer's `on_event` so far. The
-- counters and the virtual clock are not wrapped: they stay far below 2^64 and 2^128.
pub mod Discover
pub mod Pair
pub mod Link
pub mod Push
pub mod Gatt
pub mod Instance
pub mod Stream
pub mod Tests
use pax.Prelude.{
  ℕ, ◌+◌, Bool, true, Option, none, some, List, [], ◌∷◌, ◌++◌, if◌then◌else◌, is_yes, max,
}
use pax.Str.{Str, codes}
use pax.Core.Address.{BdAddr}
use pax.Core.Time.{Duration, from_millis, timestamp_from_nanos, Timestamp}
use pax.Core.Spec.{SpecContext, v5_2, br_edr}
use pax.Core.Standards.{StandardsProfile, bredr_default}
use pax.Core.Hardware.{ControllerModel, virtual_model}
use pax.Core.Device.{DeviceId, DeviceId-discrete, DeviceInfo, default_id, new_info, with_name}
use pax.Core.Event.{EventOrigin, TransitEvent, TransitEventKind, PairingMethodHint, just_works}
use pax.Core.Uuid.{Uuid}

pub record MockDevice : Type 0 where
  pub info : DeviceInfo
  pub spec : SpecContext
  pub standards : StandardsProfile
  pub pairing_method : PairingMethodHint
  pub pairing_failure : Option Str
  pub chunk_size : ℕ
  pub per_chunk_latency : Duration
  pub transfer_failure_after : Option ℕ
  pub gatt : List ((Uuid × Uuid) × List ℕ)
  pub gatt_notifications : List ((Uuid × Uuid) × List (List ℕ))

abbrev pub new_device : DeviceId → Str → MockDevice
new_device id name = record {
  info = with_name (new_info id) name;
  spec = record { version = v5_2; transport = br_edr };
  standards = bredr_default;
  pairing_method = just_works;
  pairing_failure = none;
  chunk_size = 1024;
  per_chunk_latency = from_millis 1;
  transfer_failure_after = none;
  gatt = [];
  gatt_notifications = [];
}

abbrev pub failing_pairing : MockDevice → Str → MockDevice
failing_pairing d reason = record d { pairing_failure = some reason }

abbrev pub with_transfer_profile : MockDevice → ℕ → Duration → MockDevice
with_transfer_profile d chunk_size per_chunk = record d {
  chunk_size = max chunk_size 1;
  per_chunk_latency = per_chunk;
}

abbrev pub failing_transfer_after : MockDevice → ℕ → MockDevice
failing_transfer_after d bytes = record d { transfer_failure_after = some bytes }

abbrev pub device_origin : MockDevice → ControllerModel → EventOrigin
device_origin d local = record {
  local = local;
  peer = d.info.id;
  spec = d.spec;
  standards = d.standards;
}

pub record MockState : Type 0 where
  pub devices : List MockDevice
  pub seq : ℕ
  pub clock_ns : ℕ
  pub connections : List (ℕ × DeviceId)
  pub next_token : ℕ
  pub paired : List DeviceId

pub record MockBackend : Type 0 where
  pub name : Str
  pub adapter_address : BdAddr
  pub adapter_name : Str
  pub controller : ControllerModel
  pub spec : SpecContext
  pub powered : Bool
  pub incoming : List MockDevice
  pub state : MockState
  pub emitted : List TransitEvent

pub record MockBackendBuilder : Type 0 where
  pub name : Str
  pub adapter_address : BdAddr
  pub adapter_name : Str
  pub controller : ControllerModel
  pub spec : SpecContext
  pub devices : List MockDevice
  pub incoming : List MockDevice

abbrev pub new_builder : MockBackendBuilder
new_builder = record {
  name = codes "pax-mock";
  adapter_address = record { octets = 0 ∷ 0 ∷ 0 ∷ 0 ∷ 0 ∷ 1 ∷ [] };
  adapter_name = codes "pax-mock-adapter";
  controller = virtual_model (codes "pax-mock-0");
  spec = record { version = v5_2; transport = br_edr };
  devices = [];
  incoming = [];
}

abbrev pub add_device : MockBackendBuilder → MockDevice → MockBackendBuilder
add_device b d = record b { devices = b.devices ++ d ∷ [] }

abbrev pub add_incoming : MockBackendBuilder → MockDevice → MockBackendBuilder
add_incoming b d = record b { incoming = b.incoming ++ d ∷ [] }

unfoldable pub build : MockBackendBuilder → MockBackend
build b = record {
  name = b.name;
  adapter_address = b.adapter_address;
  adapter_name = b.adapter_name;
  controller = b.controller;
  spec = b.spec;
  powered = true;
  incoming = b.incoming;
  state = record {
    devices = b.devices;
    seq = 0;
    clock_ns = 0;
    connections = [];
    next_token = 1;
    paired = [];
  };
  emitted = [];
}

abbrev pub now : MockBackend → Timestamp
now b = timestamp_from_nanos b.state.clock_ns

-- One event: stamped with the next number and the current time; the clock advances by `dt`.
unfoldable pub emit : EventOrigin → TransitEventKind → Duration → MockBackend → MockBackend
emit origin kind dt b = record b {
  state = record (b.state) { seq = b.state.seq + 1; clock_ns = b.state.clock_ns + dt.nanos };
  emitted =
      b.emitted
      ++ record {
        seq = b.state.seq;
        at = timestamp_from_nanos b.state.clock_ns;
        origin = origin;
        kind = kind;
      }
        ∷ [];
}

-- `devices.iter().find(|d| d.info.id == id)`.
unfoldable pub find_device : DeviceId → List MockDevice → Option MockDevice
find_device id [] = none
find_device id (d ∷ ds) =
    if is_yes (DeviceId-discrete d.info.id id) then some d else find_device id ds

abbrev pub lookup : MockBackend → DeviceId → Option MockDevice
lookup b id = find_device id b.state.devices

abbrev pub adapter_origin : MockBackend → EventOrigin
adapter_origin b = record {
  local = b.controller;
  peer = default_id;
  spec = b.spec;
  standards = bredr_default;
}

abbrev pub step : Duration
step = from_millis 1
