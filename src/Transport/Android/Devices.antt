-- ===== src/Transport/Android/Devices.antt =====
-- The devices that `discover` finds over the JNI: the bonded ones, and those of a live inquiry
-- behind them.
use pax.Prelude.{
  ℕ, zero, suc, ◌+◌, ◌^◌, Bool, true, false, Option, none, some, ℤ, pos, negsuc, List, [], ◌∷◌,
  ◌++◌, ◌==◌, any, is_yes, if◌then◌else◌,
}
use pax.Str.{Str, codes, split, parse_decimal, scan_decimal}
use pax.Core.Error
use pax.Core.Address.{BdAddr}
use pax.Core.Address
use pax.Core.Device.{DeviceId-discrete, DeviceInfo, public_id, new_info, ClassOfDevice, new_class}
use pax.Transport.Error.{unavailable, Result, ok, err, Op, ◌>>=◌, ◌>>◌}
use pax.Transport.Radio.{Answer, done, failed, Radio, moved, ignore}
use pax.Transport.Android.{Jni, jni}

-- `parse::<i16>()`.
abbrev negative : ℕ → ℤ
negative zero = pos 0
negative (suc n) = negsuc n

unfoldable pub parse_i16 : Str → Option ℤ
unfolding parse_decimal scan_decimal
parse_i16 [] = none
parse_i16 (c ∷ []) = elim (parse_decimal (2 ^ 15) (c ∷ [])) [ none ↦ none | some n ↦ some (pos n) ]
parse_i16 (c ∷ d ∷ s) =
    if c == b'-'
    then (elim (scan_decimal (2 ^ 15 + 1) (d ∷ s) 0) [ none ↦ none | some n ↦ some (negative n) ])
    else (elim (parse_decimal (2 ^ 15) (c ∷ d ∷ s)) [ none ↦ none | some n ↦ some (pos n) ])

-- The parts of "address|name|rssi", each empty where it is missing.
abbrev part : ℕ → List Str → Str
part i [] = []
part zero (p ∷ ps) = p
part (suc i) (p ∷ ps) = part i ps

abbrev name_of : Str → Option Str
name_of [] = none
name_of (c ∷ s) = some (c ∷ s)

-- `i16::MIN` stands for an unknown strength.
abbrev known_rssi : Option ℤ → Option ℤ
known_rssi none = none
known_rssi (some (pos n)) = some (pos n)
known_rssi (some (negsuc n)) = if n + 1 == 2 ^ 15 then none else some (negsuc n)

-- A line of the companion; one without an address that parses is skipped.
unfoldable pub of_line : Option Str → Option DeviceInfo
unfolding split parse_i16 Address.parse
of_line none = none
of_line (some line) =
    let parts = split b'|' line in
    elim (Address.parse (part 0 parts)) [
      | pax.Core.Error.err e ↦ none
      | pax.Core.Error.ok addr ↦ some (record (new_info (public_id addr)) {
        name = name_of (part 1 parts);
        rssi = known_rssi (parse_i16 (part 2 parts));
      })
    ]

abbrev pub to_list : {A : Type 0} → Option A → List A
to_list none = []
to_list (some a) = a ∷ []

-- The live results behind the others, without those whose id is there already.
unfoldable pub merge : List DeviceInfo → List DeviceInfo → List DeviceInfo
merge devices [] = devices
merge devices (info ∷ live) =
    if any (λ (d : DeviceInfo). is_yes (DeviceId-discrete d.id info.id)) devices
    then merge devices live
    else merge (devices ++ info ∷ []) live

abbrev class_of : Answer (Option ℕ) → Option ClassOfDevice
unfolding new_class
class_of (failed e) = none
class_of (done none) = none
class_of (done (some bits)) = some (new_class bits)

abbrev pub parsed : Option Str → Option BdAddr
unfolding Address.parse
parsed none = none
parsed (some text) = elim (Address.parse text) [
  | pax.Core.Error.err e ↦ none
  | pax.Core.Error.ok addr ↦ some addr
]

module _ {W D : Type 0} (env : Jni W D) where
  -- The class of a bonded device, whose error is dropped, and its description.
  unfoldable pub with_class : D → BdAddr → Option Str → Op (Radio W) (Option DeviceInfo)
  unfolding class_of
  with_class dev addr name r =
      let (class, w) = env.device_class dev r.world in
      (
        ok (
            some (record (new_info (public_id addr)) {
              name = name;
              paired = true;
              class = class_of class;
            })),
        moved r w,
      )

  -- The rest of a bonded device, whose address is known; one without an address is skipped.
  unfoldable pub describe : D → Option BdAddr → Op (Radio W) (Option DeviceInfo)
  unfolding with_class
  describe dev none = λ r. (ok none, r)
  describe dev (some addr) = jni (env.device_name dev) >>= with_class dev addr

  -- A device of the set of bonded ones.
  unfoldable pub read_device : D → Op (Radio W) (Option DeviceInfo)
  unfolding describe parsed
  read_device dev = do text ← jni (env.address dev); describe dev (parsed text)

  -- The loop over the iterator, on fuel: `none` says that the fuel ran out.
  unfoldable pub bonded_loop :
      ℕ → List DeviceInfo → Radio W → Option (Result (List DeviceInfo) × Radio W)
  unfolding read_device
  bonded_loop zero out r = none
  bonded_loop (suc fuel) out r =
      let (more, r1) = jni env.has_next r in
      elim more [
        | err e ↦ some (err e, r1)
        | ok b ↦ elim b [
          | false ↦ some (ok out, r1)
          | true ↦
              let (info, r2) = (jni env.next >>= read_device) r1 in
              elim info [ err e ↦ some (err e, r2) | ok i ↦ bonded_loop fuel (out ++ to_list i) r2 ]
        ]
      ]

  -- The part of `read_bonded` in front of the loop: whether there is a set, with its iterator.
  abbrev pub begin_bonded : Op (Radio W) Bool
  begin_bonded = do
    jni env.attach
    present ← jni env.bonded_devices
    (elim present [
      | false ↦ (λ r. (ok false, r))
      | true ↦ (do jni env.iterator; λ r. (ok true, r))
    ])

  unfoldable pub read_bonded : ℕ → Radio W → Option (Result (List DeviceInfo) × Radio W)
  unfolding bonded_loop
  read_bonded fuel r =
      let (begun, r1) = begin_bonded r in
      elim begun [
        | err e ↦ some (err e, r1)
        | ok present ↦ elim present [ false ↦ some (ok [], r1) | true ↦ bonded_loop fuel [] r1 ]
      ]

  -- The loop over the array of lines, with the number that is left.
  unfoldable pub line_loop : ℕ → ℕ → List DeviceInfo → Op (Radio W) (List DeviceInfo)
  unfolding of_line
  line_loop zero i out r = (ok out, r)
  line_loop (suc k) i out r =
      let (text, r1) = jni (env.array_element i) r in
      elim text [ err e ↦ (err e, r1) | ok t ↦ line_loop k (i + 1) (out ++ to_list (of_line t)) r1 ]

  -- The inquiry, when there is a context.
  unfoldable pub live_discover : Bool → Op (Radio W) (List DeviceInfo)
  unfolding line_loop
  live_discover false r = (err (unavailable (codes "no Android context")), r)
  live_discover true r =
      (do
        jni env.attach
        jni env.find_companion
        jni env.start_discovery
        λ r. (ok tt, moved r (env.sleep r.discovery_window r.world))
        jni env.attach
        jni env.find_companion
        jni env.drain
        λ r. (ok tt, ignore env.stop_discovery r)
        len ← jni env.array_length
        line_loop len 0 [])
        r

  -- The bonded devices with the live ones, where there are any.
  unfoldable pub with_live : Bool → List DeviceInfo → Radio W → List DeviceInfo × Radio W
  unfolding merge live_discover
  with_live false devices r = (devices, r)
  with_live true devices r =
      let (live, r1) = live_discover true r in
      (elim live [ ok infos ↦ merge devices infos | err e ↦ devices ], r1)
