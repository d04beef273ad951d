-- ===== src/Pairing/Device.antt =====
-- crates/pax-pairing/src/workflow.rs, `pair_device`: pairing with one device, with retries.
pub mod Runs
use pax.Prelude.{
  ℕ, zero, suc, ◌+◌, ◌-◌, ◌^◌, Bool, true, false, Option, none, some, min, if◌then◌else◌,
}
use pax.Str.{Str, codes}
use pax.Core.Address.{BdAddr}
use pax.Core.Device.{DeviceId}
use pax.Transport.Error.{
  TransportError, device_not_found, pairing_rejected, pairing_failed, Result, ok, err, Op, ◌>>=◌,
  ◌>>◌,
}
use pax.Transport.Pairing.{PairingOutcome}
use pax.Transport.Backend.{Backend, apply_spoof}

pub record PairOptions : Type 0 where
  pub retries : ℕ
  pub spoof_local : Option BdAddr

abbrev pub default_options : PairOptions
default_options = record { retries = 2; spoof_local = none }

abbrev pub spoofing : PairOptions → BdAddr → PairOptions
spoofing o addr = record o { spoof_local = some addr }

pub record PairReport : Type 0 where
  pub outcome : PairingOutcome
  pub attempts : ℕ

-- `retries.saturating_add(1)` of a u32.
abbrev pub max_attempts : ℕ → ℕ
max_attempts retries = min (retries + 1) (2 ^ 32 - 1)

-- The refusals, which are not retried.
unfoldable pub is_final : TransportError → Bool
is_final (pairing_rejected reason) = true
is_final (device_not_found id) = true
is_final _ = false

-- `unwrap_or_else`, behind the loop.
abbrev pub or_exhausted : Option TransportError → TransportError
or_exhausted none = pairing_failed (codes "exhausted retries with no error recorded")
or_exhausted (some e) = e

module _ {S A : Type 0} (b : Backend S A) (target : DeviceId) (agent : A) where
  -- `for attempt in 1..=max_attempts`, with the rounds left.
  unfoldable pub pair_loop : ℕ → ℕ → Option TransportError → Op S PairReport
  unfolding is_final
  pair_loop zero attempt last_err s = (err (or_exhausted last_err), s)
  pair_loop (suc k) attempt last_err s =
      let (r, s') = b.pair target agent s in
      elim r [
        | ok outcome ↦ (ok (record { outcome = outcome; attempts = attempt }), s')
        | err e ↦ elim (is_final e) [
          | true ↦ (err e, s')
          | false ↦ pair_loop k (attempt + 1) (some e) s'
        ]
      ]

  unfoldable pub pair_device : PairOptions → Op S PairReport
  unfolding pair_loop
  pair_device options = do
    apply_spoof b options.spoof_local
    pair_loop (max_attempts options.retries) 1 none
