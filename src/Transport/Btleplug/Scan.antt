-- ===== src/Transport/Btleplug/Scan.antt =====
-- `discover` of the backend over `btleplug`.
use pax.Prelude.{ℕ, Bool, true, false, Option, none, some, List, [], ◌∷◌, map}
use pax.Str.{Str}
use pax.Core.Address.{is_public, is_random}
use pax.Core.Device.{DeviceInfo, default_id}
use pax.Core.Event.{discovery_started}
use pax.Transport.Error.{ok, Op, ◌>>=◌, ◌>>◌}
use pax.Transport.Backend.{DiscoveryFilter}
use pax.Transport.Radio.{done, failed, Radio, moved, lift, ignore, emit, emits, offer}
use pax.Transport.Btleplug.{Properties, Central, from_btle_addr, or_false}

module _ {W P C : Type 0} (central : Central W P C) where
  -- What a scan tells of a device.
  unfoldable pub describe : Properties → Bool → DeviceInfo
  unfolding from_btle_addr
  describe props is_up = record {
    id = record {
      addr = from_btle_addr props.address;
      addr_type = elim props.address_type [
        | some t ↦ elim t [ is_public ↦ is_public | is_random ↦ is_random ]
        | none ↦ is_random
      ];
    };
    name = props.local_name;
    class = none;
    rssi = props.rssi;
    tx_power = props.tx_power_level;
    paired = false;
    connected = is_up;
    manufacturer_data =
        map (λ (d : ℕ × List ℕ). (record { id = d.0 }, d.1)) props.manufacturer_data;
    services = map central.uuid_to_string props.services;
  }

  -- One peripheral of the scan; one whose properties cannot be read is skipped.
  unfoldable pub read_device : P → W → Option DeviceInfo × W
  unfolding describe
  read_device p w =
      let (got, w1) = central.properties p w in
      elim got [
        | failed e ↦ (none, w1)
        | done props ↦ elim props [
          | none ↦ (none, w1)
          | some known ↦
              let (is_up, w2) = central.is_connected p w1 in
              (some (describe known (or_false is_up)), w2)
        ]
      ]

  module _ (lower : Str → Str) (f : DiscoveryFilter) where
    unfoldable pub discover_loop : List P → List DeviceInfo → Radio W → List DeviceInfo × Radio W
    unfolding read_device offer
    discover_loop [] out r = (out, r)
    discover_loop (p ∷ ps) out r =
        let (got, w) = read_device p r.world in
        elim got [
          | none ↦ discover_loop ps out (moved r w)
          | some info ↦
              let (stop, out', r') = offer central.now lower f info out (moved r w) in
              elim stop [ true ↦ (out', r') | false ↦ discover_loop ps out' r' ]
        ]

    -- The end of `discover`: the scan is stopped, whatever that answers.
    unfoldable pub gather : List P → Op (Radio W) (List DeviceInfo)
    unfolding discover_loop
    gather found r =
        let (out, r') = discover_loop found [] (ignore central.stop_scan r) in (ok out, r')

    -- The part of `discover` behind the start of the scan.
    unfoldable pub listen : Op (Radio W) (List DeviceInfo)
    unfolding gather
    listen = do
      λ r. (ok tt, moved r (central.sleep r.discovery_window r.world))
      found ← lift central.peripherals
      gather found

    unfoldable pub discover : Op (Radio W) (List DeviceInfo)
    unfolding listen emit
    discover = do emits central.now default_id discovery_started; lift central.start_scan; listen
