-- ===== src/Transport/Btleplug/Gatt.antt =====
-- GATT data over `btleplug`.
use pax.Prelude.{ℕ, Bool, List, if◌then◌else◌}
use pax.Core.Uuid.{Uuid}
use pax.Transport.Error.{Op, ◌>>=◌, ◌>>◌}
use pax.Transport.Backend.{Connection}
use pax.Transport.Radio.{Radio, lift, return}
use pax.Transport.Btleplug.{with_response, without_response, Central, to_btle_uuid, only}
use pax.Transport.Btleplug.Link.{find_peripheral, find_characteristic}

module _ {W P C : Type 0} (central : Central W P C) where
  unfoldable pub gatt_read : Connection → Uuid → Uuid → Op (Radio W) (List ℕ)
  unfolding find_peripheral find_characteristic
  gatt_read conn service characteristic = do
    p ← find_peripheral central conn.peer.addr
    chr ← find_characteristic central p service characteristic
    lift (central.read p chr)

  unfoldable pub gatt_write : Connection → Uuid → Uuid → List ℕ → Bool → Op (Radio W) (Unit {0})
  unfolding find_peripheral find_characteristic
  gatt_write conn service characteristic bytes response = do
    p ← find_peripheral central conn.peer.addr
    chr ← find_characteristic central p service characteristic
    lift (central.write p chr bytes (if response then with_response else without_response))

  unfoldable pub gatt_subscribe : Connection → Uuid → Uuid → Op (Radio W) (List (Uuid × List ℕ))
  unfolding find_peripheral find_characteristic to_btle_uuid
  gatt_subscribe conn service characteristic = do
    p ← find_peripheral central conn.peer.addr
    chr ← find_characteristic central p service characteristic
    lift (central.subscribe p chr)
    items ← lift (central.notifications p)
    return (only (to_btle_uuid characteristic) items)
