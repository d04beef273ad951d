-- ===== src/Core/Device/Class.antt =====
-- The fields of a Class-of-Device value.
use pax.Prelude.{ℕ, ◌+◌, ◌*◌, ◌/◌, ◌%◌, ◌^◌, ◌<◌, ◌≡◌, ap, arith}
use pax.Core.Device.{from_field, new_class, major, service_bits}

-- Packing a service mask, a major field and the low byte gives a class from which the service
-- mask and the major class are read back; bits above the 24 are dropped.
pub class_fields :
    (high service field low : ℕ)
    → service < 2 ^ 11
    → field < 2 ^ 5
    → low < 2 ^ 8
    → let c = new_class (high * 2 ^ 24 + service * 2 ^ 13 + field * 2 ^ 8 + low) in
      (service_bits c ≡ service) × (major c ≡ from_field field)
unfolding new_class service_bits major
class_fields high service field low hs hf hl = (omega arith, ap from_field field_bits)
  where
    field_bits :
        (high * 2 ^ 24 + service * 2 ^ 13 + field * 2 ^ 8 + low) % 2 ^ 24 / 2 ^ 8 % 2 ^ 5 ≡ field
    field_bits = omega arith
