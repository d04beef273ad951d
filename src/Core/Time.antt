-- ===== src/Core/Time.antt =====
-- crates/pax-core/src/time.rs: durations and instants in nanoseconds (a u128 in the source; the
-- sums of the modelled code stay far below 2^128 and are not wrapped).
use pax.Prelude.{ℕ, ◌-◌, ◌*◌, ◌/◌, Bool, ◌==◌}

pub record Duration : Type 0 where
  pub nanos : ℕ

pub record Timestamp : Type 0 where
  pub nanos : ℕ

abbrev pub zero_duration : Duration
zero_duration = record { nanos = 0 }

abbrev pub from_millis : ℕ → Duration
from_millis n = record { nanos = n * 1_000_000 }

abbrev pub from_secs : ℕ → Duration
from_secs n = record { nanos = n * 1_000_000_000 }

unfoldable pub as_millis : Duration → ℕ
as_millis d = d.nanos / 1_000_000

unfoldable pub is_zero : Duration → Bool
is_zero d = d.nanos == 0

abbrev pub timestamp_from_nanos : ℕ → Timestamp
timestamp_from_nanos n = record { nanos = n }

-- Clamped at zero, as `-` on ℕ is.
abbrev pub saturating_since : Timestamp → Timestamp → Duration
saturating_since t earlier = record { nanos = t.nanos - earlier.nanos }
