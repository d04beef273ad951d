-- ===== src/Core/Error.antt =====
-- crates/pax-core/src/error.rs: the errors of parsing, and the crate's `Result`.
use pax.Prelude.{Option, none, some, ◌++◌}
use pax.Str.{Str, codes}

pub data Error : Type 0 where
  invalid_address : Str → Error
  invalid : Str → Str → Error

pub data Result {ℓ} (A : Type ℓ) : Type ℓ where
  ok : A → Result A
  err : Error → Result A

-- `Result::ok`.
abbrev pub to_option {ℓ} : {A : Type ℓ} → Result A → Option A
to_option (ok a) = some a
to_option (err e) = none

-- `Display`.
unfoldable pub display_error : Error → Str
display_error (invalid_address s) = codes "invalid Bluetooth address: " ++ s
display_error (invalid what detail) = codes "invalid " ++ what ++ codes ": " ++ detail
