-- ===== src/Prelude/Table.antt =====
-- Checking a small range by evaluation.
use Prim.Native.Nat.{ℕ, zero, suc, ◌<◌}
use mathlib.Core.Path.{◌≡◌}
use mathlib.Core.Bool.{Bool, true, ◌&&◌}
use native.Mathlib.Omega.{arith}
use pax.Prelude.Tests.{is_yes}

-- Whether a test holds of every number under a bound.
unfoldable pub holds_under : (ℕ → Bool) → ℕ → Bool
holds_under test zero = true
holds_under test (suc bound) = holds_under test bound && test bound

pub holds_under_sound :
    (test : ℕ → Bool) (bound : ℕ)
    → holds_under test bound ≡ true
    → (i : ℕ) → i < bound
    → test i ≡ true
unfolding holds_under
holds_under_sound test zero all i below = absurd (omega arith)
holds_under_sound test (suc bound) all i below =
    ground (arith, λ (rest : holds_under test bound ≡ true). holds_under_sound test bound rest i)

pub yes_of_is_yes : {A : Type 0} (d : Dec A) → is_yes d ≡ true → A
yes_of_is_yes (yes a) h = a
yes_of_is_yes (no n) h = absurd (cc)
