-- ===== src/Transport/Android/Link.antt =====
-- Pairing and links over the JNI.
use pax.Prelude.{Bool, true, false, none}
use pax.Str.{codes}
use pax.Core.Address
use pax.Core.Device.{DeviceId}
use pax.Core.Event.{
  just_works, pairing_started, pairing_completed, pairing_failed, connected, disconnected,
}
use pax.Transport.Error.{pairing_failed as failed_pairing, ok, err, Op, ◌>>=◌, ◌>>◌}
use pax.Transport.Pairing.{PairingOutcome, bonded_by}
use pax.Transport.Backend.{Connection}
use pax.Transport.Radio.{Radio, link, emit, emits}
use pax.Transport.Android.{Jni, jni}

module _ {W D : Type 0} (env : Jni W D) where
  unfoldable pub remote_device : DeviceId → Op (Radio W) D
  unfolding Address.display
  remote_device target = jni (env.remote_device (Address.display target.addr))

  -- The end of `pair`, by what `createBond` answers.
  unfoldable pub bond : DeviceId → Bool → Op (Radio W) PairingOutcome
  unfolding emit
  bond target true r = (ok (bonded_by just_works), emit env.now target pairing_completed r)
  bond target false r =
      let reason = codes "createBond() returned false" in
      (err (failed_pairing reason), emit env.now target (pairing_failed reason) r)

  -- The caller's agent is not asked.
  unfoldable pub pair : {A : Type 0} → DeviceId → A → Op (Radio W) PairingOutcome
  unfolding remote_device bond emit
  pair target agent = do
    emits env.now target (pairing_started just_works)
    jni env.attach
    dev ← remote_device target
    answer ← jni (env.create_bond dev)
    bond target answer

  unfoldable pub connect : DeviceId → Op (Radio W) Connection
  unfolding remote_device emit
  connect target = do
    jni env.attach
    dev ← remote_device target
    emits env.now target connected
    λ r. (ok (link target r), r)

  unfoldable pub disconnect : Connection → Op (Radio W) (Unit {0})
  unfolding emit
  disconnect conn = emits env.now conn.peer (disconnected none)
