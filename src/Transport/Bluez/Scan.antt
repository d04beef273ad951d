-- ===== src/Transport/Bluez/Scan.antt =====
-- `discover` over BlueZ: a timed inquiry that reads each device as it is added.
use pax.Prelude.{ℕ, zero, suc, true, false, Option, none, some, List, []}
use pax.Str.{Str}
use pax.Core.Device.{DeviceInfo, default_id, public_id, new_info, new_class}
use pax.Core.Event.{discovery_started}
use pax.Transport.Error.{Result, ok, err, Op, ◌>>=◌}
use pax.Transport.Backend.{DiscoveryFilter}
use pax.Transport.Radio.{Answer, done, failed, Call, Radio, moved, lift, emit, offer}
use pax.Transport.Bluez.{Bluer, from_bluer_addr}

-- What the discovery stream gives before the deadline: a device that was added, another event, or
-- nothing more.
pub data AdapterEvent : Type 0 where
  device_added : List ℕ → AdapterEvent
  another : AdapterEvent

-- The stream: its start, and the next event before the time at which the window closes.
pub record Inquiry (W : Type 0) : Type 0 where
  pub discover_devices : Call W (Unit {0})
  pub next_before : ℕ → W → Option AdapterEvent × W

abbrev pub services_of : Answer (Option (List Str)) → List Str
services_of (failed e) = []
services_of (done none) = []
services_of (done (some uuids)) = uuids

module _ {W D E : Type 0} (bluer : Bluer W D E) where
  -- The last field of `device_info`, whose error is dropped.
  unfoldable pub with_services : D → DeviceInfo → Op (Radio W) DeviceInfo
  with_services dev info r =
      let (uuids, w) = bluer.uuids dev r.world in
      (ok (record info { services = services_of uuids }), moved r w)

  unfoldable pub device_info : List ℕ → Op (Radio W) DeviceInfo
  unfolding with_services from_bluer_addr new_class
  device_info addr = do
    dev ← lift (bluer.device addr)
    name ← lift (bluer.device_name dev)
    rssi ← lift (bluer.rssi dev)
    paired ← lift (bluer.is_paired dev)
    connected ← lift (bluer.is_connected dev)
    class ← lift (bluer.class dev)
    with_services dev (record (new_info (public_id (from_bluer_addr addr))) {
      name = name;
      rssi = rssi;
      paired = paired;
      connected = connected;
      class = elim class [ none ↦ none | some c ↦ some (new_class c) ];
    })

  module _ (inquiry : Inquiry W) (lower : Str → Str) (f : DiscoveryFilter) (deadline : ℕ) where
    -- The loop of `discover`, on fuel, one for each event of the stream: `none` says that the fuel
    -- ran out.
    unfoldable pub discover_loop :
        ℕ → List DeviceInfo → Radio W → Option (Result (List DeviceInfo) × Radio W)
    unfolding device_info offer
    discover_loop zero out r = none
    discover_loop (suc fuel) out r =
        let (event, w) = inquiry.next_before deadline r.world in
        elim event [
          | none ↦ some (ok out, moved r w)
          | some e ↦ elim e [
            | another ↦ discover_loop fuel out (moved r w)
            | device_added addr ↦
                let (got, r1) = device_info addr (moved r w) in
                elim got [
                  | err e' ↦ some (err e', r1)
                  | ok info ↦
                      let (stop, out', r2) = offer bluer.now lower f info out r1 in
                      elim stop [ true ↦ some (ok out', r2) | false ↦ discover_loop fuel out' r2 ]
                ]
          ]
        ]

  -- `deadline` is computed from the window at the start of the stream.
  module _ (inquiry : Inquiry W) (deadline_of : Radio W → ℕ) (lower : Str → Str)
      (f : DiscoveryFilter) where
    unfoldable pub discover : ℕ → Radio W → Option (Result (List DeviceInfo) × Radio W)
    unfolding discover_loop emit
    discover fuel r =
        let (begun, r1) =
          lift inquiry.discover_devices (emit bluer.now default_id discovery_started r) in
        elim begun [
          | err e ↦ some (err e, r1)
          | ok u ↦ discover_loop inquiry lower f (deadline_of r1) fuel [] r1
        ]
