-- ===== src/Transport/Bluez/Agent/Prompts.antt =====
-- What the callbacks of the agent have recorded after any prompts.
use pax.Prelude.{
  ◌≡◌, refl, ap, ◌∙◌, Bool, true, false, ◌||◌, Option, some, List, [], ◌∷◌, map, Bool-cases, inl,
  inr, if◌then◌else◌,
}
use pax.Core.Device.{DeviceId, public_id}
use pax.Core.Event.{PairingMethodHint, just_works, pin_code, passkey_entry, numeric_comparison}
use pax.Transport.Pairing.{
  PairingAgent, PairingRequest, PairingResponse, confirm_just_works, confirm_passkey,
  request_pin_code, request_passkey, confirm, pin, passkey, acknowledged, cancel,
}
use pax.Transport.Bluez.{from_bluer_addr}
use pax.Transport.Bluez.Agent.{
  Cells, Prompt, confirmation, pin_prompt, passkey_prompt, authorization, Reply, granted, pin_reply,
  passkey_reply, canceled, rejected, bond_with, insert, on_prompt,
}
use pax.Pairing.Batch.{same_id}
use pax.Pairing.Batch.Keys.{same_id→eq}
use pax.Pairing.Batch.Panics.{IsDistinct}
use pax.Pairing.Batch.Dedup.{lists, lists-append, IsDistinct-snoc, or_false_eq, or_known, or_step}

-- The device of a prompt, what its callback asks the agent, and the pairing method it stands for.
abbrev pub device_of : Prompt → DeviceId
device_of (confirmation device k) = public_id (from_bluer_addr device)
device_of (pin_prompt device) = public_id (from_bluer_addr device)
device_of (passkey_prompt device) = public_id (from_bluer_addr device)
device_of (authorization device) = public_id (from_bluer_addr device)

abbrev pub request_of : Prompt → PairingRequest
request_of (confirmation device k) = confirm_passkey k
request_of (pin_prompt device) = request_pin_code
request_of (passkey_prompt device) = request_passkey
request_of (authorization device) = confirm_just_works

abbrev pub method_of : Prompt → PairingMethodHint
method_of (confirmation device k) = numeric_comparison
method_of (pin_prompt device) = pin_code
method_of (passkey_prompt device) = passkey_entry
method_of (authorization device) = just_works

-- A reply that is no error.
abbrev pub is_granted : Reply → Bool
is_granted granted = true
is_granted (pin_reply code) = true
is_granted (passkey_reply k) = true
is_granted canceled = false
is_granted rejected = false

-- Whether a response is of the kind that a prompt asks for, and no refusal.
abbrev pub agrees : Prompt → PairingResponse → Bool
agrees (confirmation device k) (confirm b) = b
agrees (pin_prompt device) (pin code) = true
agrees (passkey_prompt device) (passkey k) = true
agrees (authorization device) (confirm b) = b
agrees p response = false

abbrev insert_if : Bool → DeviceId → List DeviceId → List DeviceId
insert_if b id ids = if b then insert id ids else ids

module _ {W : Type 0} (agent : PairingAgent W) where
  -- One prompt: the agent is asked for what fits it, the method is noted, and if the agent agrees,
  -- the device is noted and the reply to BlueZ is no error, and else neither.
  IsStep : Prompt → W → Cells → Type 0
  IsStep p w cells =
      let (reply, w1, after) = on_prompt agent p (w, cells) in
      (w1 ≡ (agent (request_of p) w).1)
      × (after.method_seen ≡ some (method_of p))
      × (is_granted reply ≡ agrees p (agent (request_of p) w).0)
      × (after.bonded ≡ insert_if (agrees p (agent (request_of p) w).0) (device_of p) cells.bonded)

  on_prompt-IsStep : (p : Prompt) (w : W) (cells : Cells) → IsStep p w cells
  unfolding IsStep on_prompt bond_with
  on_prompt-IsStep p w cells = go p (agent (request_of p) w) refl
    where
      go : (p : Prompt) (r : PairingResponse × W) → agent (request_of p) w ≡ r → IsStep p w cells
      go (confirmation device k) (confirm true, w1) e = rw e (refl, refl, refl, refl)
      go (confirmation device k) (confirm false, w1) e = rw e (refl, refl, refl, refl)
      go (confirmation device k) (pin c, w1) e = rw e (refl, refl, refl, refl)
      go (confirmation device k) (passkey c, w1) e = rw e (refl, refl, refl, refl)
      go (confirmation device k) (acknowledged, w1) e = rw e (refl, refl, refl, refl)
      go (confirmation device k) (cancel, w1) e = rw e (refl, refl, refl, refl)
      go (pin_prompt device) (confirm b, w1) e = rw e (refl, refl, refl, refl)
      go (pin_prompt device) (pin c, w1) e = rw e (refl, refl, refl, refl)
      go (pin_prompt device) (passkey c, w1) e = rw e (refl, refl, refl, refl)
      go (pin_prompt device) (acknowledged, w1) e = rw e (refl, refl, refl, refl)
      go (pin_prompt device) (cancel, w1) e = rw e (refl, refl, refl, refl)
      go (passkey_prompt device) (confirm b, w1) e = rw e (refl, refl, refl, refl)
      go (passkey_prompt device) (pin c, w1) e = rw e (refl, refl, refl, refl)
      go (passkey_prompt device) (passkey c, w1) e = rw e (refl, refl, refl, refl)
      go (passkey_prompt device) (acknowledged, w1) e = rw e (refl, refl, refl, refl)
      go (passkey_prompt device) (cancel, w1) e = rw e (refl, refl, refl, refl)
      go (authorization device) (confirm true, w1) e = rw e (refl, refl, refl, refl)
      go (authorization device) (confirm false, w1) e = rw e (refl, refl, refl, refl)
      go (authorization device) (pin c, w1) e = rw e (refl, refl, refl, refl)
      go (authorization device) (passkey c, w1) e = rw e (refl, refl, refl, refl)
      go (authorization device) (acknowledged, w1) e = rw e (refl, refl, refl, refl)
      go (authorization device) (cancel, w1) e = rw e (refl, refl, refl, refl)

  -- The prompts of BlueZ, one after the other: the replies, the agent's world and the cells.
  unfoldable pub run_prompts : List Prompt → W × Cells → List Reply × W × Cells
  run_prompts [] (w, cells) = ([], w, cells)
  run_prompts (p ∷ ps) st =
      let (reply, w1, cells1) = on_prompt agent p st in
      let (replies, w2, cells2) = run_prompts ps (w1, cells1) in (reply ∷ replies, w2, cells2)

  -- The agent's decisions on prompts, each in the world that the one before it left.
  unfoldable pub decisions : List Prompt → W → List Bool
  decisions [] w = []
  decisions (p ∷ ps) w =
      let (response, w1) = agent (request_of p) w in agrees p response ∷ decisions ps w1

  -- The devices of the prompts that the agent agreed to.
  unfoldable pub agreed : List Prompt → W → List DeviceId
  agreed [] w = []
  agreed (p ∷ ps) w =
      let (response, w1) = agent (request_of p) w in
      if agrees p response then device_of p ∷ agreed ps w1 else agreed ps w1

  abbrev pub last_method : List Prompt → Option PairingMethodHint → Option PairingMethodHint
  last_method [] seen = seen
  last_method (p ∷ ps) seen = last_method ps (some (method_of p))

  insert-lists :
      (j id : DeviceId) (ids : List DeviceId)
      → lists j (insert id ids) ≡ (lists j ids || (same_id id j || false))
  unfolding insert lists
  insert-lists j id ids = elim (Bool-cases (lists id ids)) [
    | inr new ↦ rw (insert, new) (lists-append j ids (id ∷ []))
    | inl old ↦
        let known : same_id id j ≡ true → lists j ids ≡ true =
          λ h. (let eq = same_id→eq id j h in rw eq at old) in
        rw (insert, old)
          (or_false_eq (lists j ids) ∙ or_known (lists j ids) (same_id id j) false known)
  ]

  insert-IsDistinct :
      (id : DeviceId) (ids : List DeviceId) → IsDistinct ids → IsDistinct (insert id ids)
  unfolding insert lists
  insert-IsDistinct id ids h = elim (Bool-cases (lists id ids)) [
    | inr new ↦ rw (insert, new) (IsDistinct-snoc ids id h new)
    | inl old ↦ rw (insert, old) h
  ]

  -- The devices that are noted, once one more prompt is answered.
  noted-lists :
      (c : Bool) (j id : DeviceId) (ids more : List DeviceId)
      → (lists j (insert_if c id ids) || lists j more)
        ≡ (lists j ids || lists j (if c then id ∷ more else more))
  unfolding lists
  noted-lists false j id ids more = refl
  noted-lists true j id ids more =
      ap (λ l. l || lists j more) (insert-lists j id ids)
      ∙ or_step (lists j ids) (same_id id j) (lists j more)

  noted-IsDistinct :
      (c : Bool) (id : DeviceId) (ids : List DeviceId)
      → IsDistinct ids
      → IsDistinct (insert_if c id ids)
  noted-IsDistinct false id ids h = h
  noted-IsDistinct true id ids h = insert-IsDistinct id ids h

  -- After any prompts, one after the other, with any agent, when no device was noted twice before:
  -- BlueZ is answered without an error exactly where the agent, asked for what the prompt is about,
  -- agreed; the devices that are noted as bonded, none of them twice, are those from before and
  -- those of the prompts that the agent agreed to; and the method that was seen is the one of the
  -- last prompt, or the one from before where there is no prompt.
  pub run_prompts-agreed :
      (ps : List Prompt) (w : W) (cells : Cells)
      → IsDistinct cells.bonded
      → let (replies, w', after) = run_prompts ps (w, cells) in
        (map is_granted replies ≡ decisions ps w)
        × IsDistinct after.bonded
        × ((j : DeviceId) → lists j after.bonded ≡ (lists j cells.bonded || lists j (agreed ps w)))
        × (after.method_seen ≡ last_method ps cells.method_seen)
  unfolding run_prompts decisions agreed IsStep lists
  run_prompts-agreed [] w cells h = (refl, h, λ j. or_false_eq (lists j cells.bonded), refl)
  run_prompts-agreed (p ∷ ps) w cells h =
      let (reply, w1, after) = on_prompt agent p (w, cells) in
      let (world, method, fits, bonded) = on_prompt-IsStep p w cells in
      let c = agrees p (agent (request_of p) w).0 in
      let distinct : IsDistinct after.bonded =
        rw bonded (noted-IsDistinct c (device_of p) cells.bonded h) in
      let (h1, h2, h3, h4) = run_prompts-agreed ps w1 after distinct in
      (
        rw (fits, h1, world) refl,
        h2,
        λ j.
            h3 j
            ∙ (rw (bonded, world)
                (noted-lists c j (device_of p) cells.bonded
                  (agreed ps (agent (request_of p) w).1))),
        h4 ∙ ap (last_method ps) method,
      )
