-- ===== src/Transport/Bluez.antt =====
-- crates/pax-transport/src/bluez.rs: the Linux backend over BlueZ. This file has the calls of the
-- `bluer` crate that it makes, its start, and what it does with the adapter.
pub mod Adapter
pub mod Agent
pub mod Scan
pub mod Link
pub mod Push
pub mod Obex
pub mod Wpa
pub mod PortAuth
mod Tests
use pax.Prelude.{ℕ, ◌/◌, ◌%◌, ◌^◌, Bool, true, false, Option, none, some, List, [], ◌∷◌, ◌++◌}
use pax.Str.{Str, codes, parse_decimal, strip_prefix}
use pax.Core.Address.{BdAddr}
use pax.Core.Time.{Duration, Timestamp, as_millis, from_secs}
use pax.Core.Spec.{CoreVersion, br_edr, le, dual, v5_0, from_hci}
use pax.Core.Hardware.{CompanyId, from_company}
use pax.Core.Device.{DeviceInfo}
use pax.Core.Standards.{StandardsProfile}
use pax.Hci.{ControllerInfo, SetAddressError, IoError}
use pax.Hci
use pax.Hci.Mgmt.{Libc, read_controller_info, spoof_public_address}
use pax.Transport.Error.{TransportError, backend, local_address, Result, ok, err, Op, ◌>>=◌, ◌>>◌}
use pax.Transport.Backend.{Capabilities, AdapterInfo, bluez}
use pax.Transport.Radio.{Answer, done, failed, Call, Radio, moved, lift, return, default_standards}

-- The calls of `bluer` in a state `W` of the host, on devices `D`; an error is known by its text.
-- `spawn_blocking` is that of tokio, for the one closure that runs there.
pub record Bluer (W D E : Type 0) : Type 0 where
  pub now : W → Timestamp
  pub new_session : Call W (Unit {0})
  pub default_adapter : Call W (Unit {0})
  pub adapter_name : W → Str
  pub alias : Call W Str
  pub address : Call W (List ℕ)
  pub modalias_vendor : Call W (Option ℕ)
  pub is_powered : Call W Bool
  pub set_powered : Bool → Call W (Unit {0})
  pub set_discoverable : Bool → Call W (Unit {0})
  pub set_pairable : Bool → Call W (Unit {0})
  pub set_discoverable_timeout : ℕ → Call W (Unit {0})
  pub set_pairable_timeout : ℕ → Call W (Unit {0})
  pub device : List ℕ → Call W D
  pub device_name : D → Call W (Option Str)
  pub rssi : D → Call W (Option pax.Prelude.ℤ)
  pub is_paired : D → Call W Bool
  pub is_connected : D → Call W Bool
  pub class : D → Call W (Option ℕ)
  pub uuids : D → Call W (Option (List Str))
  pub connect : D → Call W (Unit {0})
  pub disconnect : D → Call W (Unit {0})
  pub spawn_blocking :
      (W → Hci.Result (SetAddressError E) (Unit {0}) × W)
      → Call W (Hci.Result (SetAddressError E) (Unit {0}))

unfoldable pub from_bluer_addr : List ℕ → BdAddr
from_bluer_addr octets = record { octets = octets }

unfoldable pub to_bluer_addr : BdAddr → List ℕ
to_bluer_addr addr = addr.octets

abbrev pub capabilities : Capabilities
capabilities = record {
  kind = bluez;
  transports = br_edr ∷ le ∷ dual ∷ [];
  can_pair = true;
  can_push_files = true;
  max_concurrent_pairings = 1;
  can_accept_pairings = true;
  can_gatt = false;
  can_spoof_address = true;
}

-- `name.strip_prefix("hci").and_then(|n| n.parse::<u16>().ok())`.
unfoldable pub hci_index : Str → Option ℕ
unfolding parse_decimal strip_prefix
hci_index name = elim (strip_prefix (codes "hci") name) [
  | none ↦ none
  | some rest ↦ parse_decimal (2 ^ 16) rest
]

-- A call with its error mapped by `map_err`, before there is a backend.
abbrev pub plain : {W A : Type 0} → Call W A → Op W A
plain call w =
    let (a, w1) = call w in elim a [ done x ↦ (ok x, w1) | failed e ↦ (err (backend e), w1) ]

abbrev pub default_company : Option CompanyId → CompanyId
default_company none = record { id = 0xFFFF }
default_company (some c) = c

module _ {W D E : Type 0} (bluer : Bluer W D E) (libc : Libc W E) where
  -- The vendor of the modalias, as `u16`; an error and an absent one are the same.
  unfoldable pub modalias_company : W → Option CompanyId × W
  modalias_company w =
      let (vendor, w1) = bluer.modalias_vendor w in
      (
        elim vendor [
          | failed e ↦ none
          | done found ↦ elim found [ none ↦ none | some v ↦ some (record { id = v % 2 ^ 16 }) ]
        ],
        w1,
      )

  -- What `pax_hci` tells of the controller with an index, if there is one.
  unfoldable pub kernel_info : Option ℕ → W → Option ControllerInfo × W
  kernel_info none w = (none, w)
  kernel_info (some index) w = read_controller_info libc index w

  unfoldable pub detect_controller : W → (CompanyId × Option CoreVersion) × W
  unfolding kernel_info modalias_company from_hci
  detect_controller w =
      let (info, w1) = kernel_info (hci_index (bluer.adapter_name w)) w in
      elim info [
        | some i ↦ ((record { id = i.manufacturer }, from_hci i.hci_version), w1)
        | none ↦ let (company, w2) = modalias_company w1 in ((default_company company, none), w2)
      ]

  -- The fields of a backend whose adapter has this alias, when the controller is known.
  unfoldable pub new_backend : Str → Op W (Radio W)
  unfolding detect_controller from_company
  new_backend alias w =
      let ((company, version), w1) = detect_controller w in
      (
        ok (record {
          world = w1;
          controller = record {
            manufacturer = company;
            family = from_company company;
            model = alias;
          };
          spec = record { version = elim version [ none ↦ v5_0 | some v ↦ v ]; transport = dual };
          standards = default_standards;
          seq = 0;
          discovery_window = from_secs 8;
          emitted = [];
        }),
        w1,
      )

  unfoldable pub connect_default : Op W (Radio W)
  unfolding new_backend
  connect_default = do
    plain bluer.new_session
    plain bluer.default_adapter
    plain (bluer.set_powered true)
    alias ← plain bluer.alias
    new_backend alias
