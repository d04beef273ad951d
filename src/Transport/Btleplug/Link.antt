-- ===== src/Transport/Btleplug/Link.antt =====
-- Finding, connecting and disconnecting peripherals, and the operations that LE does not have.
use pax.Prelude.{Bool, true, false, ◌&&◌, none, some, List, [], ◌∷◌, ◌++◌}
use pax.Str.{codes}
use pax.Core.Address.{BdAddr}
use pax.Core.Device.{DeviceId, public_id}
use pax.Core.Event.{connected, disconnected}
use pax.Core.Uuid.{Uuid, display}
use pax.Transport.Error.{
  TransportError, backend, unsupported, not_connected, device_not_found, ok, err, Op, ◌>>=◌, ◌>>◌,
}
use pax.Transport.Backend.{Connection}
use pax.Transport.Pairing.{PairingOutcome}
use pax.Transport.Transfer.{OutboundFile, TransferReceipt}
use pax.Transport.Radio.{done, failed, Radio, moved, lift, refuse, link, emits}
use pax.Transport.Btleplug.{Central, to_btle_uuid, same_bytes, find, is_at}

module _ {W P C : Type 0} (central : Central W P C) where
  -- The peripheral of an address, among those the crate knows: an error in reading the properties
  -- of one before it is an error of the search.
  unfoldable pub find_in : TransportError → BdAddr → List P → Op (Radio W) P
  find_in missing addr [] r = (err missing, r)
  find_in missing addr (p ∷ ps) r =
      let (got, w) = central.properties p r.world in
      elim got [
        | failed e ↦ (err (backend e), moved r w)
        | done props ↦ elim (is_at addr props) [
          | true ↦ (ok p, moved r w)
          | false ↦ find_in missing addr ps (moved r w)
        ]
      ]

  unfoldable pub find_peripheral : BdAddr → Op (Radio W) P
  unfolding find_in
  find_peripheral addr = do
    all ← lift central.peripherals
    find_in (not_connected (public_id addr)) addr all

  unfoldable pub find_characteristic : P → Uuid → Uuid → Op (Radio W) C
  unfolding to_btle_uuid
  find_characteristic p service characteristic = do lift (central.discover_services p); pick
    where
      is_wanted : C → Bool
      is_wanted c =
          same_bytes (central.service_uuid c) (to_btle_uuid service)
          && same_bytes (central.uuid c) (to_btle_uuid characteristic)

      pick : Op (Radio W) C
      pick r = elim (find is_wanted (central.characteristics p r.world)) [
        | some c ↦ (ok c, r)
        | none ↦ (
          err (backend (codes "characteristic " ++ display characteristic ++ codes " not found")),
          r,
        )
      ]

  abbrev pub pair : {A : Type 0} → DeviceId → A → Op (Radio W) PairingOutcome
  pair target agent = refuse (unsupported (codes "btleplug") (codes "pair"))

  unfoldable pub connect : DeviceId → Op (Radio W) Connection
  unfolding find_in
  connect target = do
    all ← lift central.peripherals
    p ← find_in (device_not_found target) target.addr all
    lift (central.connect p)
    emits central.now target connected
    λ r. (ok (link target r), r)

  unfoldable pub disconnect : Connection → Op (Radio W) (Unit {0})
  unfolding find_in
  disconnect conn = do
    all ← lift central.peripherals
    p ← find_in (not_connected conn.peer) conn.peer.addr all
    lift (central.disconnect p)
    emits central.now conn.peer (disconnected none)

  abbrev pub push_file : Connection → OutboundFile → Op (Radio W) TransferReceipt
  push_file conn file =
      refuse (unsupported (codes "btleplug") (codes "push_file (OBEX Object Push is BR/EDR-only)"))
