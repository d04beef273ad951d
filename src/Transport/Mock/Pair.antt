-- ===== src/Transport/Mock/Pair.antt =====
-- `pair` and `accept_pairings` of the mock.
pub mod Outcomes
use pax.Prelude.{
  ℕ, ◌+◌, Bool, true, false, Option, none, some, List, [], ◌∷◌, ◌++◌, if◌then◌else◌, take, any,
  is_yes,
}
use pax.Str.{Str, codes}
use pax.Core.Device.{DeviceId, DeviceId-discrete}
use pax.Core.Event.{
  PairingMethodHint, just_works, pin_code, passkey_entry, passkey_display, numeric_comparison,
  out_of_band, pairing_started, pairing_completed, pairing_failed,
}
use pax.Transport.Error.{
  device_not_found, pairing_rejected, pairing_failed as failed, Result, ok, err, Op,
}
use pax.Transport.Pairing.{
  PairingRequest, confirm_just_works, confirm_passkey, request_pin_code, request_passkey,
  display_passkey, PairingResponse, confirm, pin, passkey, acknowledged, cancel, PairingAgent,
  PairingOutcome, bonded_by,
}
use pax.Transport.Backend.{InboundPairing}
use pax.Transport.Mock.{MockDevice, MockBackend, device_origin, emit, lookup, step}

abbrev pub mock_passkey : ℕ
mock_passkey = 123_456

unfoldable pub request_for : PairingMethodHint → PairingRequest
request_for just_works = confirm_just_works
request_for numeric_comparison = confirm_passkey mock_passkey
request_for pin_code = request_pin_code
request_for passkey_entry = request_passkey
request_for passkey_display = display_passkey mock_passkey
request_for out_of_band = confirm_just_works

-- `Confirm(false) | Cancel`.
unfoldable pub rejected : PairingResponse → Bool
rejected (confirm true) = false
rejected (confirm false) = true
rejected cancel = true
rejected _ = false

abbrev pub declined : Str
declined = codes "declined by pairing agent"

unfoldable pub contains_id : DeviceId → List DeviceId → Bool
contains_id id = any (λ d. is_yes (DeviceId-discrete d id))

-- `HashSet::insert`.
unfoldable pub insert_id : DeviceId → List DeviceId → List DeviceId
unfolding contains_id
insert_id id ids = if contains_id id ids then ids else ids ++ id ∷ []

abbrev pub add_paired : DeviceId → MockBackend → MockBackend
add_paired id b = record b { state = record (b.state) { paired = insert_id id b.state.paired } }

-- `iter().take(max_devices.unwrap_or(usize::MAX))`.
abbrev pub limited : Option ℕ → List MockDevice → List MockDevice
limited none ds = ds
limited (some n) ds = take n ds

module _ {W : Type 0} (agent : PairingAgent W) where
  -- The body of `pair` behind the lookup.
  unfoldable pub pair_found : DeviceId → MockDevice → Op (MockBackend × W) PairingOutcome
  pair_found target device (b, w) =
      let origin = device_origin device b.controller in
      let method = device.pairing_method in
      let started = emit origin (pairing_started method) step b in
      let (response, w') = agent (request_for method) w in
      if rejected response
      then (
        err (pairing_rejected declined),
        (emit origin (pairing_failed declined) step started, w'),
      )
      else elim device.pairing_failure [
        | some reason ↦
            (err (failed reason), (emit origin (pairing_failed reason) step started, w'))
        | none ↦ (
          ok (bonded_by method),
          (emit origin pairing_completed step (add_paired target started), w'),
        )
      ]

  unfoldable pub pair : DeviceId → Op (MockBackend × W) PairingOutcome
  unfolding pair_found
  pair target (b, w) = elim (lookup b target) [
    | none ↦ (err (device_not_found target), (b, w))
    | some device ↦ pair_found target device (b, w)
  ]

  -- One round of the loop of `accept_pairings`: whether the device bonded.
  unfoldable pub accept_one : MockDevice → MockBackend × W → Bool × MockBackend × W
  accept_one device (b, w) =
      let origin = device_origin device b.controller in
      let method = device.pairing_method in
      let started = emit origin (pairing_started method) step b in
      let (response, w') = agent (request_for method) w in
      if rejected response
      then (false, emit origin (pairing_failed declined) step started, w')
      else elim device.pairing_failure [
        | some reason ↦ (false, emit origin (pairing_failed reason) step started, w')
        | none ↦ (true, emit origin pairing_completed step (add_paired device.info.id started), w')
      ]

  unfoldable pub accept_loop :
      List MockDevice → List DeviceId → MockBackend × W → List DeviceId × MockBackend × W
  accept_loop [] bonded (b, w) = (bonded, b, w)
  accept_loop (d ∷ ds) bonded s =
      let (done, b', w') = accept_one d s in
      accept_loop ds (if done then bonded ++ d.info.id ∷ [] else bonded) (b', w')

  unfoldable pub accept_pairings : InboundPairing → Op (MockBackend × W) (List DeviceId)
  unfolding accept_loop accept_one
  accept_pairings opts (b, w) =
      let (bonded, b', w') = accept_loop (limited opts.max_devices b.incoming) [] (b, w) in
      (
        ok bonded,
        (
          record b' {
            state = record (b'.state) { clock_ns = b'.state.clock_ns + opts.window.nanos };
          },
          w',
        ),
      )
