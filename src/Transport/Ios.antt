-- ===== src/Transport/Ios.antt =====
-- crates/pax-transport/src/ios.rs: the backend for iOS, which hands its calls to the one over
-- `btleplug`.
use pax.Prelude.{ℕ, Bool, true, false, List, [], ◌∷◌, ◌++◌}
use pax.Str.{Str, codes}
use pax.Core.Spec.{le}
use pax.Core.Hardware.{apple, apple_combo}
use pax.Core.Device.{DeviceId, DeviceInfo}
use pax.Core.Uuid.{Uuid}
use pax.Transport.Error.{unsupported, Result, ok, err, Op}
use pax.Transport.Backend.{Capabilities, AdapterInfo, ios, Connection, DiscoveryFilter}
use pax.Transport.Pairing.{PairingOutcome}
use pax.Transport.Transfer.{OutboundFile, TransferReceipt}
use pax.Transport.Radio.{Call, Radio, refuse, with_controller}
use pax.Transport.Btleplug.{Central, connect_first}
use pax.Transport.Btleplug
use pax.Transport.Btleplug.Scan
use pax.Transport.Btleplug.Link
use pax.Transport.Btleplug.Gatt

-- The state is that of the inner backend.
unfoldable pub open_backend :
    {W M A : Type 0} → Call W M → (M → Call W (List A)) → W → Result (A × Radio W) × W
unfolding connect_first
open_backend new_manager adapters w =
    let (made, w1) = connect_first new_manager adapters w in
    (
      elim made [
        | err e ↦ err e
        | ok inner ↦ ok (
          inner.0,
          with_controller inner.1 (record {
            manufacturer = apple;
            family = apple_combo;
            model = codes "CoreBluetooth";
          }),
        )
      ],
      w1,
    )

abbrev pub capabilities : Capabilities
capabilities = record {
  kind = ios;
  transports = le ∷ [];
  can_pair = false;
  can_push_files = false;
  max_concurrent_pairings = 1;
  can_accept_pairings = false;
  can_gatt = true;
  can_spoof_address = false;
}

module _ {W P C : Type 0} (central : Central W P C) where
  unfoldable pub adapter : Op (Radio W) AdapterInfo
  unfolding Btleplug.adapter
  adapter = Btleplug.adapter central

  abbrev pub set_powered : Bool → Op (Radio W) (Unit {0})
  set_powered on = Btleplug.set_powered central on

  unfoldable pub discover : (Str → Str) → DiscoveryFilter → Op (Radio W) (List DeviceInfo)
  unfolding Scan.discover
  discover lower filter = Scan.discover central lower filter

  abbrev pub pair : {A : Type 0} → DeviceId → A → Op (Radio W) PairingOutcome
  pair target agent = refuse (
      unsupported (codes "ios") (codes "pair (CoreBluetooth does not expose programmatic pairing)"))

  unfoldable pub connect : DeviceId → Op (Radio W) Connection
  unfolding Link.connect
  connect target = Link.connect central target

  unfoldable pub disconnect : Connection → Op (Radio W) (Unit {0})
  unfolding Link.disconnect
  disconnect conn = Link.disconnect central conn

  -- The dash of the text is U+2014.
  abbrev pub push_file : Connection → OutboundFile → Op (Radio W) TransferReceipt
  push_file conn file = refuse (
      unsupported (codes "ios") (
        codes "push_file (iOS exposes BLE only " ++ 0xE2 ∷ 0x80 ∷ 0x94 ∷ codes " no Classic OBEX)"))

  unfoldable pub gatt_read : Connection → Uuid → Uuid → Op (Radio W) (List ℕ)
  unfolding Gatt.gatt_read
  gatt_read conn service characteristic = Gatt.gatt_read central conn service characteristic

  unfoldable pub gatt_write : Connection → Uuid → Uuid → List ℕ → Bool → Op (Radio W) (Unit {0})
  unfolding Gatt.gatt_write
  gatt_write conn service characteristic bytes with_response =
      Gatt.gatt_write central conn service characteristic bytes with_response

  unfoldable pub gatt_subscribe : Connection → Uuid → Uuid → Op (Radio W) (List (Uuid × List ℕ))
  unfolding Gatt.gatt_subscribe
  gatt_subscribe conn service characteristic =
      Gatt.gatt_subscribe central conn service characteristic
