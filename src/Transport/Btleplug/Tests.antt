-- ===== src/Transport/Btleplug/Tests.antt =====
-- A scan over two advertising peripherals.
use pax.Prelude.{ℕ, ◌≡◌, refl, false, Option, none, some, List, [], ◌∷◌, ◌++◌, map}
use pax.Str.{codes}
use pax.Core.Device.{DeviceInfo}
use pax.Core.Event.{discovery_started}
use pax.Transport.Error.{ok}
use pax.Transport.Backend.{DiscoveryFilter, new_filter}
use pax.Transport.Radio.{Answer, done, failed}
use pax.Transport.Radio.Scans.{selected, kinds, found}
use pax.Transport.Btleplug.{Properties, Central, new_backend}
use pax.Transport.Btleplug.Scan.{discover}
use pax.Transport.Btleplug.Selected.{readings, discover-selected}

abbrev props : ℕ → Properties
props n = record {
  address = n ∷ n ∷ n ∷ n ∷ n ∷ n ∷ [];
  address_type = none;
  local_name = some (codes "tag");
  rssi = none;
  tx_power_level = none;
  manufacturer_data = [];
  services = [];
}

-- A peripheral is its properties, and one of them cannot be read.
abbrev read_props : Option Properties → Answer (Option Properties)
read_props none = failed (codes "gone")
read_props (some p) = done (some p)

abbrev host : Central ℕ (Option Properties) (Unit {0})
host = record {
  now = λ w. record { nanos = w };
  sleep = λ d w. d.nanos;
  start_scan = λ w. (done tt, w);
  stop_scan = λ w. (done tt, w);
  peripherals = λ w. (done (none ∷ some (props 1) ∷ some (props 2) ∷ []), w);
  adapter_info = λ w. (done (codes "hci0"), w);
  properties = λ p w. (read_props p, w);
  is_connected = λ p w. (done false, w);
  connect = λ p w. (done tt, w);
  disconnect = λ p w. (done tt, w);
  discover_services = λ p w. (done tt, w);
  characteristics = λ p w. tt ∷ [];
  service_uuid = λ c. [];
  uuid = λ c. [];
  uuid_to_string = λ u. u;
  read = λ p c w. (done [], w);
  write = λ p c bytes kind w. (done tt, w);
  subscribe = λ p c w. (done tt, w);
  notifications = λ p w. (done [], w);
}

abbrev limited : DiscoveryFilter
limited = record new_filter { limit = some 0 }

-- A limit of zero lets one device through.
abbrev seen : List DeviceInfo
seen =
    selected (λ s. s) limited 0
      (readings host (none ∷ some (props 1) ∷ some (props 2) ∷ []) 5_000_000_000)

discover-selected_example :
    ((discover host (λ s. s) limited (new_backend 0)).0 ≡ ok seen)
    × (kinds (discover host (λ s. s) limited (new_backend 0)).1.emitted
        ≡ [] ++ discovery_started ∷ map found seen)
discover-selected_example =
    discover-selected host (λ s. s) limited (new_backend 0)
      (none ∷ some (props 1) ∷ some (props 2) ∷ []) refl refl
