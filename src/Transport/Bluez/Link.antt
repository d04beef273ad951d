-- ===== src/Transport/Bluez/Link.antt =====
-- `connect` and `disconnect` over BlueZ.
use pax.Prelude.{none}
use pax.Core.Device.{DeviceId}
use pax.Core.Event.{connected, disconnected}
use pax.Transport.Error.{ok, Op, ◌>>=◌, ◌>>◌}
use pax.Transport.Backend.{Connection}
use pax.Transport.Radio.{Radio, lift, link, emit, emits}
use pax.Transport.Bluez.{Bluer, to_bluer_addr}

module _ {W D E : Type 0} (bluer : Bluer W D E) where
  unfoldable pub connect : DeviceId → Op (Radio W) Connection
  unfolding to_bluer_addr emit
  connect target = do
    dev ← lift (bluer.device (to_bluer_addr target.addr))
    lift (bluer.connect dev)
    emits bluer.now target connected
    λ r. (ok (link target r), r)

  unfoldable pub disconnect : Connection → Op (Radio W) (Unit {0})
  unfolding to_bluer_addr emit
  disconnect conn = do
    dev ← lift (bluer.device (to_bluer_addr conn.peer.addr))
    lift (bluer.disconnect dev)
    emits bluer.now conn.peer (disconnected none)
