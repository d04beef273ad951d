-- ===== src/Transport/Btleplug/Selected.antt =====
-- What a scan over `btleplug` reports.
use pax.Prelude.{
  ◌+◌, ◌≡◌, refl, Option, none, some, List, [], ◌∷◌, ◌++◌, map, length, sym, ◌∙◌, ap, append_snoc,
  append-nil, Option-cases, Bool-cases, inl, inr,
}
use pax.Str.{Str}
use pax.Core.Device.{DeviceInfo, default_id}
use pax.Core.Event.{discovery_started}
use pax.Transport.Error.{ok}
use pax.Transport.Backend.{DiscoveryFilter, accepts}
use pax.Transport.Mock.Discover.{limit_reached}
use pax.Transport.Radio.{Radio, done, moved, emit}
use pax.Transport.Radio.Scans.{
  selected, selected-nil, selected-skip, selected-last, kinds, found, lift-done, kinds-emit,
  offer-refused, offer-taken,
}
use pax.Transport.Radio.Taken.{Adds, Adds-more}
use pax.Transport.Btleplug.{Central}
use pax.Transport.Btleplug.Scan.{read_device, discover_loop, gather, listen, discover}

module _ {W P C : Type 0} (central : Central W P C) where
  -- The devices that a list of peripherals tells of, each read after the ones before it.
  abbrev pub readings : List P → W → List DeviceInfo
  readings [] w = []
  readings (p ∷ ps) w = listed (read_device central p w).0 (readings ps (read_device central p w).1)
    where
      listed : Option DeviceInfo → List DeviceInfo → List DeviceInfo
      listed none infos = infos
      listed (some info) infos = info ∷ infos

  module _ (lower : Str → Str) (f : DiscoveryFilter) where
    discover_loop-Adds :
        (ps : List P) (out : List DeviceInfo) (r : Radio W)
        → Adds lower f (readings ps r.world) out r (discover_loop central lower f ps out r)
    unfolding discover_loop emit
    discover_loop-Adds [] out r =
        let empty = selected-nil lower f (length out) in
        (rw (empty) (sym (append-nil out)), rw (empty) (sym (append-nil (kinds r.emitted))))
    discover_loop-Adds (p ∷ ps) out r =
        let got = read_device central p r.world in
        let r1 = moved r got.1 in
        let infos = readings ps got.1 in
        elim (Option-cases got.0) [
          | inl e ↦
              let (h1, h2) = discover_loop-Adds ps out r1 in
              (rw (discover_loop, readings, e) h1, rw (discover_loop, readings, e) h2)
          | inr (info, e) ↦ elim (Bool-cases (accepts lower f info)) [
            | inr skip ↦
                let same = selected-skip lower f (length out) info infos skip in
                let left = offer-refused lower f central.now info out r1 skip in
                let (h1, h2) = discover_loop-Adds ps out r1 in
                (
                  rw (discover_loop, readings, e, left, left, same) h1,
                  rw (discover_loop, readings, e, left, left, same) h2,
                )
            | inl keep ↦
                let event = found info in
                let r2 = emit central.now info.id event r1 in
                let step = kinds-emit central.now info.id event r1 in
                let took = offer-taken lower f central.now info out r1 keep in
                elim (Bool-cases (limit_reached f.limit (length out + 1))) [
                  | inl full ↦
                      let last = selected-last lower f (length out) info infos keep full in
                      (
                        rw (discover_loop, readings, e, took, full, took, last) refl,
                        rw (discover_loop, readings, e, took, full, took, last) step,
                      )
                  | inr room ↦
                      rw (discover_loop, readings, e, took, room, took)
                        (Adds-more lower f info infos out r r2
                          (discover_loop central lower f ps (out ++ info ∷ []) r2) keep room step
                          (discover_loop-Adds ps (out ++ info ∷ []) r2))
                ]
          ]
        ]

    -- A scan that starts and whose peripherals are listed succeeds: its results are the devices that
    -- can be read and that the filter's strength and name accept, whatever transport the filter
    -- asks for, in order and cut at the limit, but at least one where there is one; the events are
    -- the start of the scan and one for each result, in order.
    pub discover-selected :
        (r : Radio W) (ps : List P)
        → let w = central.sleep r.discovery_window (central.start_scan r.world).1 in
          (central.start_scan r.world).0 ≡ done tt
          → (central.peripherals w).0 ≡ done ps
          → let infos = readings ps (central.stop_scan (central.peripherals w).1).1 in
            let p = discover central lower f r in
            (p.0 ≡ ok (selected lower f 0 infos))
            × (kinds p.1.emitted
                ≡ kinds r.emitted ++ discovery_started ∷ map found (selected lower f 0 infos))
    unfolding discover listen gather emit
    discover-selected r ps starts lists =
        let started = emit central.now default_id discovery_started r in
        let r1 = moved started (central.start_scan r.world).1 in
        let w = central.sleep r.discovery_window r1.world in
        let w1 = (central.stop_scan (central.peripherals w).1).1 in
        let scanned =
          lift-done central.start_scan (λ u. listen central lower f) started tt starts in
        let listed =
          lift-done central.peripherals (gather central lower f) (moved started w) ps lists in
        let (h1, h2) = discover_loop-Adds ps [] (moved started w1) in
        let first = kinds-emit central.now default_id discovery_started r in
        let rest = map found (selected lower f 0 (readings ps w1)) in
        (
          ap (λ p. p.0) (scanned ∙ listed) ∙ ap ok h1,
          ap (λ p. kinds p.1.emitted) (scanned ∙ listed)
              ∙ h2
              ∙ rw (first) (append_snoc (kinds r.emitted) discovery_started rest),
        )
