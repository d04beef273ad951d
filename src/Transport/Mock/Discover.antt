-- ===== src/Transport/Mock/Discover.antt =====
-- `discover` of the mock.
pub mod Results
use pax.Prelude.{
  ℕ, Bool, true, false, ◌&&◌, ◌||◌, not, Option, none, some, List, [], ◌∷◌, ◌++◌, leb,
  if◌then◌else◌, length, is_yes,
}
use pax.Str.{Str}
use pax.Core.Spec.{Transport, Transport-discrete, dual}
use pax.Core.Device.{DeviceInfo}
use pax.Core.Event.{discovery_started, device_discovered}
use pax.Transport.Error.{Result, ok, Op}
use pax.Transport.Backend.{DiscoveryFilter, accepts}
use pax.Transport.Mock.{MockDevice, MockBackend, device_origin, emit, adapter_origin, step}

abbrev same_transport : Transport → Transport → Bool
same_transport a b = is_yes (Transport-discrete a b)

-- A `Dual` device matches any requested transport, and a request for `Dual` any device.
unfoldable pub transport_accepts : Option Transport → Transport → Bool
transport_accepts none d = true
transport_accepts (some t) d = same_transport d t || same_transport d dual || same_transport t dual

-- Whether `limit` devices have been collected.
unfoldable pub limit_reached : Option ℕ → ℕ → Bool
limit_reached none n = false
limit_reached (some limit) n = leb limit n

module _ (to_lowercase : Str → Str) where
  unfoldable pub wanted : DiscoveryFilter → MockDevice → Bool
  wanted f d = transport_accepts f.transport d.spec.transport && accepts to_lowercase f d.info

  -- The loop over the snapshot of the devices; `out` holds the results so far.
  unfoldable pub discover_loop :
      DiscoveryFilter
      → List MockDevice
      → List DeviceInfo
      → MockBackend
      → List DeviceInfo × MockBackend
  unfolding wanted
  discover_loop f [] out b = (out, b)
  discover_loop f (d ∷ ds) out b =
      let skip = discover_loop f ds out b in
      let report =
        discover_loop f ds (out ++ d.info ∷ [])
          (emit (device_origin d b.controller) (device_discovered d.info.rssi) step b) in
      if not (wanted f d)
      then skip
      else if limit_reached f.limit (length out)
      then (out, b)
      else report

  unfoldable pub discover : DiscoveryFilter → Op MockBackend (List DeviceInfo)
  unfolding discover_loop
  discover f b =
      let started = emit (adapter_origin b) discovery_started step b in
      let (out, b') = discover_loop f started.state.devices [] started in (ok out, b')
