-- ===== src/Transport/Backend.antt =====
-- crates/pax-transport/src/backend.rs: the interface that every backend implements, the values
-- that it exchanges, and the helpers that spoof the local address first.
use pax.Prelude.{
  ℕ, Bool, true, false, ◌&&◌, Option, none, some, List, [], ℤ, leb_ℤ, if◌then◌else◌, any, is_yes,
}
use pax.Str.{Str, codes, contains}
use pax.Core.Address.{BdAddr}
use pax.Core.Time.{Duration}
use pax.Core.Spec.{SpecContext, Transport, Transport-discrete}
use pax.Core.Standards.{StandardsProfile}
use pax.Core.Hardware.{ControllerModel}
use pax.Core.Device.{DeviceId, DeviceInfo}
use pax.Core.Event.{EventOrigin}
use pax.Core.Uuid.{Uuid}
use pax.Transport.Error.{unsupported, ok, err, Op, ◌>>◌}
use pax.Transport.Pairing.{PairingOutcome}
use pax.Transport.Transfer.{OutboundFile, TransferReceipt}

pub data BackendKind : Type 0 where
  mock bluez btleplug android ios : BackendKind

unfoldable pub kind_name : BackendKind → Str
kind_name mock = codes "mock"
kind_name bluez = codes "bluez"
kind_name btleplug = codes "btleplug"
kind_name android = codes "android"
kind_name ios = codes "ios"

pub record Capabilities : Type 0 where
  pub kind : BackendKind
  pub transports : List Transport
  pub can_pair : Bool
  pub can_push_files : Bool
  pub max_concurrent_pairings : ℕ
  pub can_accept_pairings : Bool
  pub can_gatt : Bool
  pub can_spoof_address : Bool

unfoldable pub supports : Capabilities → Transport → Bool
supports c t = any (λ u. is_yes (Transport-discrete u t)) c.transports

pub record AdapterInfo : Type 0 where
  pub address : BdAddr
  pub name : Str
  pub controller : ControllerModel
  pub spec : SpecContext
  pub powered : Bool

pub record Connection : Type 0 where
  pub peer : DeviceId
  pub local : ControllerModel
  pub spec : SpecContext
  pub standards : StandardsProfile
  pub token : ℕ

abbrev pub origin_of : Connection → EventOrigin
origin_of c = record { local = c.local; peer = c.peer; spec = c.spec; standards = c.standards }

pub record DiscoveryFilter : Type 0 where
  pub transport : Option Transport
  pub name_contains : Option Str
  pub min_rssi : Option ℤ
  pub limit : Option ℕ

abbrev pub new_filter : DiscoveryFilter
new_filter = record { transport = none; name_contains = none; min_rssi = none; limit = none }

-- The first `if let` of `accepts`.
abbrev rssi_accepts : Option ℤ → Option ℤ → Bool
rssi_accepts none r = true
rssi_accepts (some low) none = false
rssi_accepts (some low) (some r) = leb_ℤ low r

-- `to_lowercase` of the standard library follows the Unicode tables, and is a parameter.
module _ (to_lowercase : Str → Str) where
  -- The second `if let` of `accepts`.
  unfoldable pub name_accepts : Option Str → Option Str → Bool
  name_accepts none n = true
  name_accepts (some sub) none = false
  name_accepts (some sub) (some n) = contains (to_lowercase sub) (to_lowercase n)

  unfoldable pub accepts : DiscoveryFilter → DeviceInfo → Bool
  unfolding name_accepts
  accepts f info = rssi_accepts f.min_rssi info.rssi && name_accepts f.name_contains info.name

pub record InboundPairing : Type 0 where
  pub window : Duration
  pub max_devices : Option ℕ

abbrev pub for_window : Duration → InboundPairing
for_window w = record { window = w; max_devices = none }

-- The trait, for a backend in state `S` that is handed agents of type `A`.
pub record Backend (S A : Type 0) : Type 0 where
  pub name : S → Str
  pub capabilities : S → Capabilities
  pub adapter : Op S AdapterInfo
  pub set_powered : Bool → Op S (Unit {0})
  pub set_local_address : BdAddr → Op S (Unit {0})
  pub discover : DiscoveryFilter → Op S (List DeviceInfo)
  pub pair : DeviceId → A → Op S PairingOutcome
  pub connect : DeviceId → Op S Connection
  pub disconnect : Connection → Op S (Unit {0})
  pub push_file : Connection → OutboundFile → Op S TransferReceipt
  pub set_discoverable : Bool → Option Duration → Op S (Unit {0})
  pub set_pairable : Bool → Option Duration → Op S (Unit {0})
  pub accept_pairings : A → InboundPairing → Op S (List DeviceId)
  pub gatt_read : Connection → Uuid → Uuid → Op S (List ℕ)
  pub gatt_write : Connection → Uuid → Uuid → List ℕ → Bool → Op S (Unit {0})
  pub gatt_subscribe : Connection → Uuid → Uuid → Op S (List (Uuid × List ℕ))

-- What the trait's methods with a default body do: they refuse, and name the operation.
abbrev pub default_unsupported {ℓ} : {S : Type 0} {R : Type ℓ} → Str → Op S R
default_unsupported operation s = (err (unsupported [] operation), s)

module _ {S A : Type 0} (b : Backend S A) where
  unfoldable pub apply_spoof : Option BdAddr → Op S (Unit {0})
  apply_spoof none s = (ok tt, s)
  apply_spoof (some addr) s =
      if (b.capabilities s).can_spoof_address
      then b.set_local_address addr s
      else (err (unsupported (kind_name (b.capabilities s).kind) (codes "set_local_address")), s)

  unfoldable pub discover_as : Option BdAddr → DiscoveryFilter → Op S (List DeviceInfo)
  unfolding apply_spoof
  discover_as spoof filter = do apply_spoof spoof; b.discover filter

  unfoldable pub connect_as : Option BdAddr → DeviceId → Op S Connection
  unfolding apply_spoof
  connect_as spoof target = do apply_spoof spoof; b.connect target
