-- ===== src/Pairing/Tests.antt =====
-- Pairing with the devices of the mock's test network.
use mathlib.Core.List.{Permᴰ}
use pax.Core.Device.{DeviceId}
use pax.Pairing.Batch.{Buffered, IsBuffered, PairItem, default_batch, pair_devices}
use pax.Pairing.Batch.Panics.{IsDistinct}
use pax.Pairing.Batch.Dedup.{lists}
use pax.Pairing.Batch.Results.{ids_of, pair_devices-IsDistinct}
use pax.Prelude.{List, [], ◌∷◌, ℕ, ◌+◌, ◌≡◌, refl, none, some, ◌⊎◌, true, false}
use pax.Str.{codes}
use pax.Transport.Error.{TransportError, unsupported, Result, ok, err}
use pax.Transport.Pairing.{PairingAgent, PairingOutcome}
use pax.Transport.Backend.{Backend, kind_name}
use pax.Transport.Retry.{Ending}
use pax.Transport.Mock.{MockBackend, build}
use pax.Transport.Mock.Instance.{mock_backend}
use pax.Transport.Mock.Tests.{network, sensor_id, speaker_id, unchanged, agree}
use pax.Pairing.Device.{PairReport, default_options, spoofing, max_attempts, pair_device}
use pax.Pairing.Device.Runs.{is_retried, reported, pair_device-Ending, pair_device-spoof}

abbrev World : Type 0
World = MockBackend × Unit {0}

abbrev mock : Backend World (PairingAgent (Unit {0}))
mock = mock_backend unchanged

pair_device-Ending_example :
    (r : Result PairingOutcome) × (k : ℕ) × (s' : World) × Ending
      (mock.pair sensor_id agree)
      is_retried
      (max_attempts 2)
      none
      (build network, tt)
      r
      k
      s'
    × (pair_device mock sensor_id agree default_options (build network, tt)
        ≡ (reported r (k + 1), s'))
pair_device-Ending_example =
    pair_device-Ending mock sensor_id agree default_options (build network, tt) refl

-- The start of a run with a spoofed address, and what it answers.
abbrev start : World
start = (build network, tt)

abbrev spoofed : Result PairReport × World
spoofed = pair_device mock sensor_id agree (spoofing default_options speaker_id.addr) start

pair_device-spoof_example :
    (((mock.capabilities start).can_spoof_address ≡ false)
      × (spoofed ≡ (
        err (unsupported (kind_name (mock.capabilities start).kind) (codes "set_local_address")),
        start,
      )))
    ⊎ ((((mock.capabilities start).can_spoof_address ≡ true)
          × ((e : TransportError) × (s1 : World) × (mock.set_local_address speaker_id.addr start
                ≡ (err e, s1))
              × (spoofed ≡ (err e, s1))))
        ⊎ (((mock.capabilities start).can_spoof_address ≡ true)
            × ((s1 : World) × (mock.set_local_address speaker_id.addr start ≡ (ok tt, s1))
                × ((r : Result PairingOutcome) × (k : ℕ) × (s' : World) × Ending
                      (mock.pair sensor_id agree)
                      is_retried
                      (max_attempts 2)
                      none
                      s1
                      r
                      k
                      s'
                    × (spoofed ≡ (reported r (k + 1), s'))))))
pair_device-spoof_example =
    pair_device-spoof mock sensor_id agree (spoofing default_options speaker_id.addr) start
      speaker_id.addr refl

-- A `buffer_unordered` that runs the tasks one after the other.
abbrev in_order : {S : Type 0} → Buffered S
in_order n task [] s = ([], s)
in_order n task (id ∷ ids) s =
    let (r, s1) = task id s in let (rest, s2) = in_order n task ids s1 in ((id, r) ∷ rest, s2)

in_order-IsBuffered : {S : Type 0} → IsBuffered (in_order {S = S})
in_order-IsBuffered n task [] s = Permᴰ.nil
in_order-IsBuffered {S = S} n task (id ∷ ids) s =
    Permᴰ.cons refl (in_order-IsBuffered {S = S} n task ids (task id s).1)

abbrev targets : List DeviceId
targets = sensor_id ∷ speaker_id ∷ sensor_id ∷ []

pair_devices-IsDistinct_example :
    (items : List PairItem) × (s' : World) × (pair_devices mock in_order agree targets default_batch
        (build network, tt)
      ≡ some (items, s'))
    × IsDistinct (ids_of items)
    × ((j : DeviceId) → lists j (ids_of items) ≡ lists j targets)
pair_devices-IsDistinct_example =
    pair_devices-IsDistinct mock in_order agree in_order-IsBuffered targets default_batch
      (build network, tt)
