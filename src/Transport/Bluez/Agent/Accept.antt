-- ===== src/Transport/Bluez/Agent/Accept.antt =====
-- `accept_pairings` over BlueZ: a window in which the adapter is visible and the agent answers.
use pax.Prelude.{
  ℕ, zero, suc, ◌+◌, ◌-◌, ◌*◌, ◌/◌, ◌%◌, ◌^◌, min, max, Bool, true, false, Option, none, some, List,
  [], ◌∷◌, leb, ◌==◌, length,
}
use pax.Core.Time.{as_millis}
use pax.Core.Device.{DeviceId}
use pax.Core.Event.{pairing_completed}
use pax.Transport.Error.{pairing_failed as failed_pairing, Result, ok, err, Op, ◌>>=◌, ◌>>◌}
use pax.Transport.Pairing.{PairingAgent}
use pax.Transport.Backend.{InboundPairing}
use pax.Transport.Radio.{done, failed, Radio, moved, lift, ignore, emit}
use pax.Transport.Bluez.{Bluer}
use pax.Transport.Bluez.Agent.{Agents, Cells, no_cells, on_prompt}

-- Whether `max_devices` have bonded.
unfoldable pub enough : Option ℕ → Cells → Bool
enough none cells = false
enough (some limit) cells = leb limit (length cells.bonded)

module _ {W D : Type 0} (agents : Agents W D) (agent : PairingAgent W) where
  -- The loop that holds the window open, on fuel: `none` says that the fuel ran out.
  unfoldable pub window_loop : ℕ → Option ℕ → ℕ → W × Cells → Option (W × Cells)
  unfolding enough
  window_loop zero limit deadline st = none
  window_loop (suc fuel) limit deadline st =
      let remaining = deadline - agents.instant st.0 in
      elim (enough limit st.1) [
        | true ↦ some st
        | false ↦ elim (remaining == 0) [
          | true ↦ some st
          | false ↦
              window_loop fuel limit deadline
                (agents.sleep (min remaining 250_000_000) (on_prompt agent) st)
        ]
      ]

module _ {W D E : Type 0} (bluer : Bluer W D E) (agents : Agents W D) (agent : PairingAgent W) where
  -- The calls in front of the window.
  unfoldable pub open_window : InboundPairing → Op (Radio W) (Unit {0})
  unfolding as_millis
  open_window opts = do quietly; lift (bluer.set_pairable true); lift (bluer.set_discoverable true)
    where
      secs : ℕ
      secs = max (as_millis opts.window / 1000 % 2 ^ 32) 1

      quietly : Op (Radio W) (Unit {0})
      quietly r = (
        ok tt,
        ignore (bluer.set_discoverable_timeout secs) (ignore (bluer.set_pairable_timeout secs) r),
      )

  unfoldable pub emit_all : List DeviceId → Radio W → Radio W
  unfolding emit
  emit_all [] r = r
  emit_all (id ∷ ids) r = emit_all ids (emit bluer.now id pairing_completed r)

  -- The window in nanoseconds, as `u64` milliseconds.
  abbrev pub window_nanos : InboundPairing → ℕ
  unfolding as_millis
  window_nanos opts = as_millis opts.window % 2 ^ 64 * 1_000_000

  -- `iterate` is the order in which the set is read.
  module _ (iterate : List DeviceId → List DeviceId) where
    unfoldable pub close_window : W × Cells → Radio W → Result (List DeviceId) × Radio W
    unfolding emit_all
    close_window (w, cells) r =
        let r1 = ignore (bluer.set_discoverable false) (moved r w) in
        let r2 = ignore (bluer.set_pairable false) r1 in
        let ids = iterate cells.bonded in
        let r3 = emit_all ids r2 in (ok ids, moved r3 (agents.unregister r3.world))

    -- The part behind the registration.
    unfoldable pub hold_window :
        ℕ → InboundPairing → Result (Unit {0}) × Radio W → Option (Result (List DeviceId) × Radio W)
    unfolding window_loop close_window
    hold_window fuel opts (err e, r) = some (err e, moved r (agents.unregister r.world))
    hold_window fuel opts (ok u, r) =
        let deadline = agents.instant r.world + window_nanos opts in
        elim (window_loop agents agent fuel opts.max_devices deadline (r.world, no_cells)) [
          | none ↦ none
          | some st ↦ some (close_window st r)
        ]

    unfoldable pub accept_pairings :
        ℕ → InboundPairing → Radio W → Option (Result (List DeviceId) × Radio W)
    unfolding hold_window open_window
    accept_pairings fuel opts r =
        let (a, w) = agents.register r.world in
        elim a [
          | failed e ↦ some (err (pax.Transport.Error.backend e), moved r w)
          | done u ↦ hold_window fuel opts (open_window opts (moved r w))
        ]
