-- ===== src/Core/Spec.antt =====
-- crates/pax-core/src/spec.rs: the releases of the specification and the transports.
pub mod Hci
use pax.Prelude.{ℕ, Bool, true, Option, none, some, List, [], ◌∷◌, ◌++◌, leb, ◌==◌, if◌then◌else◌}
use pax.Str.{Str, codes}

pub data CoreVersion : Type 0 where
  v1_0b v1_1 v1_2 v2_0 v2_1 v3_0 v4_0 v4_1 v4_2 v5_0 v5_1 v5_2 v5_3 v5_4 v6_0 : CoreVersion

abbrev pub all_versions : List CoreVersion
all_versions =
    v1_0b ∷ v1_1 ∷ v1_2 ∷ v2_0 ∷ v2_1 ∷ v3_0 ∷ v4_0 ∷ v4_1 ∷ v4_2 ∷ v5_0 ∷ v5_1 ∷ v5_2 ∷ v5_3 ∷ v5_4
    ∷ v6_0 ∷ []

-- The HCI `Version` byte.
unfoldable pub hci : CoreVersion → ℕ
hci v1_0b = 0
hci v1_1 = 1
hci v1_2 = 2
hci v2_0 = 3
hci v2_1 = 4
hci v3_0 = 5
hci v4_0 = 6
hci v4_1 = 7
hci v4_2 = 8
hci v5_0 = 9
hci v5_1 = 10
hci v5_2 = 11
hci v5_3 = 12
hci v5_4 = 13
hci v6_0 = 14

-- The arms of the `match` in order: the first whose number is the byte.
first_match : List (ℕ × CoreVersion) → ℕ → Option CoreVersion
first_match [] byte = none
first_match ((n, v) ∷ arms) byte = if byte == n then some v else first_match arms byte

abbrev arms : List (ℕ × CoreVersion)
arms =
    (0, v1_0b)
    ∷ (1, v1_1)
    ∷ (2, v1_2)
    ∷ (3, v2_0)
    ∷ (4, v2_1)
    ∷ (5, v3_0)
    ∷ (6, v4_0)
    ∷ (7, v4_1)
    ∷ (8, v4_2)
    ∷ (9, v5_0)
    ∷ (10, v5_1)
    ∷ (11, v5_2)
    ∷ (12, v5_3)
    ∷ (13, v5_4)
    ∷ (14, v6_0)
    ∷ []

unfoldable pub from_hci : ℕ → Option CoreVersion
unfolding first_match
from_hci byte = first_match arms byte

unfoldable pub name : CoreVersion → Str
name v1_0b = codes "Bluetooth 1.0b"
name v1_1 = codes "Bluetooth 1.1"
name v1_2 = codes "Bluetooth 1.2"
name v2_0 = codes "Bluetooth 2.0 + EDR"
name v2_1 = codes "Bluetooth 2.1 + EDR"
name v3_0 = codes "Bluetooth 3.0 + HS"
name v4_0 = codes "Bluetooth 4.0"
name v4_1 = codes "Bluetooth 4.1"
name v4_2 = codes "Bluetooth 4.2"
name v5_0 = codes "Bluetooth 5.0"
name v5_1 = codes "Bluetooth 5.1"
name v5_2 = codes "Bluetooth 5.2"
name v5_3 = codes "Bluetooth 5.3"
name v5_4 = codes "Bluetooth 5.4"
name v6_0 = codes "Bluetooth 6.0"

-- The discriminant that `self as u8` reads: the place in the declaration.
unfoldable pub discriminant : CoreVersion → ℕ
discriminant v1_0b = 0
discriminant v1_1 = 1
discriminant v1_2 = 2
discriminant v2_0 = 3
discriminant v2_1 = 4
discriminant v3_0 = 5
discriminant v4_0 = 6
discriminant v4_1 = 7
discriminant v4_2 = 8
discriminant v5_0 = 9
discriminant v5_1 = 10
discriminant v5_2 = 11
discriminant v5_3 = 12
discriminant v5_4 = 13
discriminant v6_0 = 14

unfoldable pub supports_le : CoreVersion → Bool
unfolding discriminant
supports_le v = leb (discriminant v4_0) (discriminant v)

unfoldable pub supports_bredr : CoreVersion → Bool
supports_bredr v = true

pub data Transport : Type 0 where
  br_edr le dual : Transport

pub Transport-discrete : Discrete Transport
Transport-discrete = hlevel

unfoldable pub display_transport : Transport → Str
display_transport br_edr = codes "BR/EDR"
display_transport le = codes "LE"
display_transport dual = codes "dual-mode"

pub record SpecContext : Type 0 where
  pub version : CoreVersion
  pub transport : Transport

unfoldable pub display_context : SpecContext → Str
unfolding name display_transport
display_context c = name c.version ++ codes " over " ++ display_transport c.transport
