-- ===== src/Transport/Bluez/Agent.antt =====
-- The agent of `build_bluer_agent`, which hands the prompts of BlueZ to the caller's agent, and the
-- two operations that register it.
pub mod Accept
pub mod Bonds
pub mod Prompts
use pax.Prelude.{
  ℕ, zero, suc, ◌+◌, ◌-◌, ◌/◌, ◌%◌, ◌^◌, min, max, Bool, true, false, Option, none, some, List, [],
  ◌∷◌, ◌++◌, leb, ◌==◌, length, any, is_yes, if◌then◌else◌,
}
use pax.Str.{Str}
use pax.Core.Time.{as_millis}
use pax.Core.Device.{DeviceId, DeviceId-discrete, public_id}
use pax.Core.Event.{
  PairingMethodHint, just_works, pin_code, passkey_entry, numeric_comparison, pairing_started,
  pairing_completed, pairing_failed,
}
use pax.Transport.Error.{pairing_failed as failed_pairing, Result, ok, err, Op, ◌>>=◌, ◌>>◌}
use pax.Transport.Pairing.{
  PairingRequest, confirm_just_works, confirm_passkey, request_pin_code, request_passkey,
  PairingResponse, confirm, pin, passkey, acknowledged, cancel, PairingAgent, PairingOutcome,
  bonded_by,
}
use pax.Transport.Backend.{InboundPairing}
use pax.Transport.Radio.{Answer, done, failed, Call, Radio, moved, lift, ignore, return, emit}
use pax.Transport.Bluez.{Bluer, from_bluer_addr, to_bluer_addr}

-- What BlueZ asks of an agent, with the address of the device.
pub data Prompt : Type 0 where
  confirmation : List ℕ → ℕ → Prompt
  pin_prompt : List ℕ → Prompt
  passkey_prompt : List ℕ → Prompt
  authorization : List ℕ → Prompt

-- What a callback answers: `Ok` with its value, or a `ReqError`.
pub data Reply : Type 0 where
  granted : Reply
  pin_reply : Str → Reply
  passkey_reply : ℕ → Reply
  canceled rejected : Reply

-- The two shared cells: the method that was seen, and the set of devices that authorized a bond.
pub record Cells : Type 0 where
  pub method_seen : Option PairingMethodHint
  pub bonded : List DeviceId

abbrev pub no_cells : Cells
no_cells = record { method_seen = none; bonded = [] }

-- `HashSet::insert`.
unfoldable pub insert : DeviceId → List DeviceId → List DeviceId
insert id ids = if any (λ d. is_yes (DeviceId-discrete d id)) ids then ids else ids ++ id ∷ []

-- A closure once its agent has responded: the reply to BlueZ, and the cells as they are then.
abbrev pub Answered : Type 0
Answered = PairingResponse → Cells → Reply × Cells

-- `bonded.insert(DeviceId::public(from_bluer_addr(req.device)))`.
unfoldable pub bond_with : List ℕ → Cells → Cells
unfolding insert from_bluer_addr
bond_with device cells = record cells {
  bonded = insert (public_id (from_bluer_addr device)) cells.bonded;
}

abbrev confirmation_reply : List ℕ → Answered
unfolding bond_with
confirmation_reply device (confirm true) cells = (granted, bond_with device cells)
confirmation_reply device cancel cells = (canceled, cells)
confirmation_reply device _ cells = (rejected, cells)

abbrev pin_code_reply : List ℕ → Answered
unfolding bond_with
pin_code_reply device (pin code) cells = (pin_reply code, bond_with device cells)
pin_code_reply device cancel cells = (canceled, cells)
pin_code_reply device _ cells = (rejected, cells)

abbrev passkey_answer : List ℕ → Answered
unfolding bond_with
passkey_answer device (passkey k) cells = (passkey_reply k, bond_with device cells)
passkey_answer device cancel cells = (canceled, cells)
passkey_answer device _ cells = (rejected, cells)

abbrev authorization_reply : List ℕ → Answered
unfolding bond_with
authorization_reply device (confirm true) cells = (granted, bond_with device cells)
authorization_reply device cancel cells = (canceled, cells)
authorization_reply device _ cells = (rejected, cells)

module _ {W : Type 0} (agent : PairingAgent W) where
  unfoldable pub on_confirmation : List ℕ → ℕ → W × Cells → Reply × W × Cells
  unfolding confirmation_reply
  on_confirmation device k (w, cells) =
      let noted = record cells { method_seen = some numeric_comparison } in
      let (response, w1) = agent (confirm_passkey k) w in
      let (reply, after) = confirmation_reply device response noted in (reply, w1, after)

  unfoldable pub on_pin_code : List ℕ → W × Cells → Reply × W × Cells
  unfolding pin_code_reply
  on_pin_code device (w, cells) =
      let noted = record cells { method_seen = some pin_code } in
      let (response, w1) = agent request_pin_code w in
      let (reply, after) = pin_code_reply device response noted in (reply, w1, after)

  unfoldable pub on_passkey : List ℕ → W × Cells → Reply × W × Cells
  unfolding passkey_answer
  on_passkey device (w, cells) =
      let noted = record cells { method_seen = some passkey_entry } in
      let (response, w1) = agent request_passkey w in
      let (reply, after) = passkey_answer device response noted in (reply, w1, after)

  unfoldable pub on_authorization : List ℕ → W × Cells → Reply × W × Cells
  unfolding authorization_reply
  on_authorization device (w, cells) =
      let noted = record cells { method_seen = some just_works } in
      let (response, w1) = agent confirm_just_works w in
      let (reply, after) = authorization_reply device response noted in (reply, w1, after)

  -- The closures that the agent is registered with, each for its prompt.
  unfoldable pub on_prompt : Prompt → W × Cells → Reply × W × Cells
  unfolding on_confirmation on_pin_code on_passkey on_authorization
  on_prompt (confirmation device k) st = on_confirmation device k st
  on_prompt (pin_prompt device) st = on_pin_code device st
  on_prompt (passkey_prompt device) st = on_passkey device st
  on_prompt (authorization device) st = on_authorization device st

-- The calls of `bluer` that run while an agent is registered, and so may call it back: they are
-- handed its callbacks and the cells. `unregister` is the drop of the handle.
pub record Agents (W D : Type 0) : Type 0 where
  pub register : Call W (Unit {0})
  pub unregister : W → W
  pub pair :
      D → (Prompt → W × Cells → Reply × W × Cells) → W × Cells → Answer (Unit {0}) × W × Cells
  -- a sleep, and the monotonic clock, both in nanoseconds
  pub sleep : ℕ → (Prompt → W × Cells → Reply × W × Cells) → W × Cells → W × Cells
  pub instant : W → ℕ

abbrev pub method_or_just_works : Option PairingMethodHint → PairingMethodHint
method_or_just_works none = just_works
method_or_just_works (some m) = m

module _ {W D E : Type 0} (bluer : Bluer W D E) (agents : Agents W D) where
  -- A body between the registration of the agent and the drop of its handle.
  abbrev pub registered : {A : Type 0} → Op (Radio W) A → Op (Radio W) A
  registered body r =
      let (a, w) = agents.register r.world in
      elim a [
        | failed e ↦ (err (pax.Transport.Error.backend e), moved r w)
        | done u ↦
            let (result, r1) = body (moved r w) in (result, moved r1 (agents.unregister r1.world))
      ]

  -- The events and the result behind the call of `pair`.
  unfoldable pub paired_up :
      DeviceId → Answer (Unit {0}) → PairingMethodHint → Op (Radio W) PairingOutcome
  unfolding emit
  paired_up target (done u) method r =
      let started = emit bluer.now target (pairing_started method) r in
      (ok (bonded_by method), emit bluer.now target pairing_completed started)
  paired_up target (failed reason) method r =
      let started = emit bluer.now target (pairing_started method) r in
      (err (failed_pairing reason), emit bluer.now target (pairing_failed reason) started)

  unfoldable pub pair_device_on : DeviceId → PairingAgent W → D → Op (Radio W) PairingOutcome
  unfolding paired_up on_prompt
  pair_device_on target agent device r =
      let (a, w, cells) = agents.pair device (on_prompt agent) (r.world, no_cells) in
      paired_up target a (method_or_just_works cells.method_seen) (moved r w)

  unfoldable pub pair : DeviceId → PairingAgent W → Op (Radio W) PairingOutcome
  unfolding pair_device_on to_bluer_addr
  pair target agent = registered (do
    device ← lift (bluer.device (to_bluer_addr target.addr))
    pair_device_on target agent device)
