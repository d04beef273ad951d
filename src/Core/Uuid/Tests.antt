-- ===== src/Core/Uuid/Tests.antt =====
-- UUIDs at concrete inputs.
use pax.Prelude.{ℕ, List, [], ◌∷◌, replicate, true, false, arith, ◌≡◌, refl}
use pax.Str.{codes}
use pax.Core.Error.{ok}
use pax.Core.Uuid.RoundTrip.{written, parse-written}
use pax.Core.Uuid.{Uuid, IsValid, panics, parse, display, from_u16, returns}

shorts :
    (parse (codes "180a") ≡ returns (ok (from_u16 0x180A)))
    × (display (from_u16 0x180A) ≡ codes "0000180a-0000-1000-8000-00805f9b34fb")
    × (parse (codes "0000180a-0000-1000-8000-00805f9b34fb") ≡ returns (ok (from_u16 0x180A)))
unfolding parse display from_u16
shorts = (refl, refl, refl)

-- `a`, a character of two bytes, and 29 digits.
abbrev across : List ℕ
across = 0x61 ∷ 0xC3 ∷ 0xA9 ∷ replicate 29 0x30

across_panics : parse across ≡ panics
unfolding parse
across_panics = refl

abbrev battery : Uuid
battery = record {
  bytes =
      0 ∷ 0 ∷ 0x18 ∷ 0x0F ∷ 0 ∷ 0 ∷ 0x10 ∷ 0 ∷ 0x80 ∷ 0 ∷ 0 ∷ 0x80 ∷ 0x5F ∷ 0x9B ∷ 0x34 ∷ 0xFB ∷ [];
}

battery-IsValid : IsValid battery
battery-IsValid = record { sixteen = refl; in_range = ground arith }

parse-written_example :
    (parse (written true false battery) ≡ returns (ok battery))
    × (display battery ≡ written false true battery)
parse-written_example = parse-written true false battery battery-IsValid
