-- ===== src/Transport/Btleplug.antt =====
-- crates/pax-transport/src/btleplug.rs: the cross-platform backend for Bluetooth LE, over the
-- calls of the `btleplug` crate on peripherals `P` and characteristics `C`.
pub mod Scan
pub mod Link
pub mod Gatt
pub mod Selected
mod Tests
use pax.Prelude.{
  ℕ, Bool, true, false, ◌&&◌, Option, none, some, ℤ, List, [], ◌∷◌, ◌++◌, map, is_yes, ℕ_discrete,
  if◌then◌else◌,
}
use pax.Str.{Str, codes}
use pax.Core.Address.{BdAddr, AddressType, is_public, is_random, nil}
use pax.Core.Address
use pax.Core.Time.{Duration, Timestamp, from_secs}
use pax.Core.Spec.{Transport, le, v5_0}
use pax.Core.Hardware.{CompanyId, unknown}
use pax.Core.Device.{DeviceId, DeviceInfo, default_id, public_id, new_info}
use pax.Core.Event.{discovery_started, connected, disconnected}
use pax.Core.Uuid.{Uuid, display}
use pax.Transport.Error.{
  TransportError, backend, unavailable, unsupported, not_connected, device_not_found, Result, ok,
  err, Op, ◌>>=◌, ◌>>◌,
}
use pax.Transport.Backend.{Capabilities, AdapterInfo, btleplug, Connection, DiscoveryFilter}
use pax.Transport.Pairing.{PairingOutcome}
use pax.Transport.Transfer.{OutboundFile, TransferReceipt}
use pax.Transport.Radio.{
  Answer, done, failed, Call, Radio, moved, lift, ignore, refuse, return, link, default_standards,
  emit, emits, offer,
}

-- `PeripheralProperties`; an address and a UUID are their bytes.
pub record Properties : Type 0 where
  pub address : List ℕ
  pub address_type : Option AddressType
  pub local_name : Option Str
  pub rssi : Option ℤ
  pub tx_power_level : Option ℤ
  pub manufacturer_data : List (ℕ × List ℕ)
  pub services : List (List ℕ)

pub data WriteType : Type 0 where
  with_response without_response : WriteType

-- The calls of the crate in a state `W` of the host. A stream of notifications is the list of what
-- it yields.
pub record Central (W P C : Type 0) : Type 0 where
  pub now : W → Timestamp
  pub sleep : Duration → W → W
  pub start_scan : Call W (Unit {0})
  pub stop_scan : Call W (Unit {0})
  pub peripherals : Call W (List P)
  pub adapter_info : Call W Str
  pub properties : P → Call W (Option Properties)
  pub is_connected : P → Call W Bool
  pub connect : P → Call W (Unit {0})
  pub disconnect : P → Call W (Unit {0})
  pub discover_services : P → Call W (Unit {0})
  pub characteristics : P → W → List C
  pub service_uuid : C → List ℕ
  pub uuid : C → List ℕ
  pub uuid_to_string : List ℕ → Str
  pub read : P → C → Call W (List ℕ)
  pub write : P → C → List ℕ → WriteType → Call W (Unit {0})
  pub subscribe : P → C → Call W (Unit {0})
  pub notifications : P → Call W (List (List ℕ × List ℕ))

unfoldable pub to_btle_uuid : Uuid → List ℕ
to_btle_uuid u = u.bytes

unfoldable pub from_btle_uuid : List ℕ → Uuid
from_btle_uuid bytes = record { bytes = bytes }

unfoldable pub from_btle_addr : List ℕ → BdAddr
from_btle_addr octets = record { octets = octets }

abbrev pub same_bytes : List ℕ → List ℕ → Bool
same_bytes a b = is_yes (pax.Str.Str-discrete a b)

abbrev pub or_false : Answer Bool → Bool
or_false (done b) = b
or_false (failed e) = false

-- The first of a list that passes a test.
abbrev pub find : {A : Type 0} → (A → Bool) → List A → Option A
find p [] = none
find p (x ∷ xs) = if p x then some x else find p xs

-- Whether the properties are known and have the address.
abbrev pub is_at : BdAddr → Option Properties → Bool
unfolding from_btle_addr
is_at addr none = false
is_at addr (some props) = same_bytes (from_btle_addr props.address).octets addr.octets

-- The pairs of the notifications of one characteristic.
abbrev pub only : List ℕ → List (List ℕ × List ℕ) → List (Uuid × List ℕ)
unfolding from_btle_uuid
only want [] = []
only want (n ∷ ns) =
    if same_bytes n.0 want then (from_btle_uuid n.0, n.1) ∷ only want ns else only want ns

abbrev pub capabilities : Capabilities
capabilities = record {
  kind = btleplug;
  transports = le ∷ [];
  can_pair = false;
  can_push_files = false;
  max_concurrent_pairings = 1;
  can_accept_pairings = false;
  can_gatt = true;
  can_spoof_address = false;
}

-- The fields of a backend on the host `w`.
abbrev pub new_backend : {W : Type 0} → W → Radio W
new_backend w = record {
  world = w;
  controller = record {
    manufacturer = record { id = 0xFFFF };
    family = unknown;
    model = codes "btleplug-adapter";
  };
  spec = record { version = v5_0; transport = le };
  standards = default_standards;
  seq = 0;
  discovery_window = from_secs 5;
  emitted = [];
}

-- `connect_first`, over the calls `Manager::new` and `adapters` of the crate: the first adapter,
-- and the backend on it.
unfoldable pub connect_first :
    {W M A : Type 0} → Call W M → (M → Call W (List A)) → W → Result (A × Radio W) × W
connect_first new_manager adapters w =
    let (manager, w1) = new_manager w in
    elim manager [
      | failed e ↦ (err (backend e), w1)
      | done m ↦
          let (all, w2) = adapters m w1 in
          elim all [
            | failed e ↦ (err (backend e), w2)
            | done list ↦ elim list [
              | [] ↦ (err (unavailable (codes "no BLE adapter found")), w2)
              | a ∷ more ↦ (ok (a, new_backend w2), w2)
            ]
          ]
    ]

module _ {W P C : Type 0} (central : Central W P C) where
  unfoldable pub adapter : Op (Radio W) AdapterInfo
  adapter r =
      let (name, w) = central.adapter_info r.world in
      (
        ok (record {
          address = nil;
          name = elim name [ done n ↦ n | failed e ↦ codes "btleplug" ];
          controller = r.controller;
          spec = r.spec;
          powered = true;
        }),
        moved r w,
      )

  abbrev pub set_powered : Bool → Op (Radio W) (Unit {0})
  set_powered on r = (ok tt, r)
