-- ===== src/Transport/Android/Scan.antt =====
-- `discover` over the JNI: the filter on the devices that were found.
use pax.Prelude.{ℕ, Bool, true, false, Option, none, some, List, [], ◌∷◌}
use pax.Str.{Str}
use pax.Core.Device.{DeviceInfo, default_id}
use pax.Core.Event.{discovery_started}
use pax.Transport.Error.{Result, ok, err}
use pax.Transport.Backend.{DiscoveryFilter}
use pax.Transport.Radio.{Radio, emit, offer}
use pax.Transport.Android.{Jni}
use pax.Transport.Android.Devices.{read_bonded, with_live}

module _ {W D : Type 0} (env : Jni W D) (lower : Str → Str) (f : DiscoveryFilter) where
  -- The last loop of `discover`.
  unfoldable pub choose : List DeviceInfo → List DeviceInfo → Radio W → List DeviceInfo × Radio W
  unfolding offer
  choose [] out r = (out, r)
  choose (info ∷ infos) out r =
      let (stop, out', r') = offer env.now lower f info out r in
      elim stop [ true ↦ (out', r') | false ↦ choose infos out' r' ]

  -- `context` says whether there is an Android context.
  unfoldable pub discover : Bool → ℕ → Radio W → Option (Result (List DeviceInfo) × Radio W)
  unfolding read_bonded with_live choose emit
  discover context fuel r =
      elim (read_bonded env fuel (emit env.now default_id discovery_started r)) [
        | none ↦ none
        | some p ↦ some (finish p)
      ]
    where
      finish : Result (List DeviceInfo) × Radio W → Result (List DeviceInfo) × Radio W
      finish (err e, r1) = (err e, r1)
      finish (ok bonded, r1) =
          let (devices, r2) = with_live env context bonded r1 in
          let (out, r3) = choose devices [] r2 in (ok out, r3)
