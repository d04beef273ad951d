-- ===== src/Core/Spec/Hci.antt =====
-- The HCI version byte and the release, back and forth.
use pax.Prelude.{ℕ, ◌≤◌, ◌≡◌, ◌↔◌, refl, true, some, arith, subst}
use pax.Core.Spec.{CoreVersion, v1_0b, hci, from_hci, supports_le, v4_0}

from_hci-hci : (v : CoreVersion) → from_hci (hci v) ≡ some v
unfolding from_hci hci
from_hci-hci v1_0b = refl
from_hci-hci _ = refl

hci_of_from_hci : (byte : ℕ) (v : CoreVersion) → from_hci byte ≡ some v → hci v ≡ byte
unfolding from_hci hci
hci_of_from_hci byte v h = ground arith

-- `from_hci` gives a release for a byte exactly when the byte is the one that `hci` reports for it.
pub from_hci_iff : (byte : ℕ) (v : CoreVersion) → (from_hci byte ≡ some v) ↔ (hci v ≡ byte)
from_hci_iff byte v =
    (hci_of_from_hci byte v, λ e. subst (λ b. from_hci b ≡ some v) e (from_hci-hci v))

-- A release has Low Energy exactly when its HCI byte is at least that of 4.0.
pub supports_le_iff : (v : CoreVersion) → (supports_le v ≡ true) ↔ (hci v4_0 ≤ hci v)
unfolding supports_le hci
supports_le_iff v1_0b = ground arith
supports_le_iff _ = ground arith
