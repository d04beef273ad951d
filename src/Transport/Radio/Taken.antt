-- ===== src/Transport/Radio/Taken.antt =====
-- A scan's results and events, as they grow with a device that is taken.
use pax.Prelude.{
  ◌+◌, ◌≡◌, true, false, List, [], ◌∷◌, ◌++◌, map, length, ◌∙◌, append_snoc, length-append, arith,
}
use pax.Str.{Str}
use pax.Core.Device.{DeviceInfo}
use pax.Transport.Backend.{DiscoveryFilter, accepts}
use pax.Transport.Mock.Discover.{limit_reached}
use pax.Transport.Radio.{Radio}
use pax.Transport.Radio.Scans.{selected, selected-more, kinds, found}

module _ (lower : Str → Str) (f : DiscoveryFilter) where
  -- Results and events behind those of `out` and `r`, for the devices `infos`.
  abbrev pub Adds :
      {W : Type 0}
      → List DeviceInfo
      → List DeviceInfo
      → Radio W
      → List DeviceInfo × Radio W
      → Type 0
  Adds infos out r p =
      (p.0 ≡ out ++ selected lower f (length out) infos)
      × (kinds p.1.emitted ≡ kinds r.emitted ++ map found (selected lower f (length out) infos))

  -- A device that is taken and does not end the scan.
  pub Adds-more :
      {W : Type 0} (info : DeviceInfo) (infos out : List DeviceInfo) (r r2 : Radio W)
      (p : List DeviceInfo × Radio W)
      → accepts lower f info ≡ true
      → limit_reached f.limit (length out + 1) ≡ false
      → kinds r2.emitted ≡ kinds r.emitted ++ found info ∷ []
      → Adds infos (out ++ info ∷ []) r2 p
      → Adds (info ∷ infos) out r p
  Adds-more info infos out r r2 p keep room step (h1, h2) =
      let more = selected-more lower f (length out) info infos keep room in
      let count : length (out ++ info ∷ []) ≡ length out + 1 =
        omega (arith, length-append out (info ∷ [])) in
      let rest = selected lower f (length out + 1) infos in
      (
        h1 ∙ rw (more, count) (append_snoc out info rest),
        h2 ∙ rw (more, count, step) (append_snoc (kinds r.emitted) (found info) (map found rest)),
      )
