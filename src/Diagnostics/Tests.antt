-- ===== src/Diagnostics/Tests.antt =====
-- The analyzer on the log of the mock's test calls.
use mathlib.Core.List.{reverse}
use mathlib.Core.List.Permᴰ
use pax.Prelude.{ℕ, ◌≡◌, ◌+◌, List, [], ◌∷◌, map, length}
use pax.Str.{Str}
use pax.Core.Time.{Timestamp, timestamp_from_nanos}
use pax.Core.Event.{TransitEvent, error, data_chunk, outbound}
use pax.Transport.Mock.{build, device_origin}
use pax.Transport.Mock.Stream.Calls.{run_all}
use pax.Transport.Mock.Tests.{network, speaker, calls, unchanged}
use pax.Diagnostics.Metrics.{event_kind, from_events, is_warning}
use pax.Diagnostics.Metrics.Sums.{
  Counts, payload, count, fails, Within, Meets, from_events-Counts, from_events-Within,
}
use pax.Diagnostics.Analyze.{new_analyzer, total, breakdown, Anomaly, anomalies}
use pax.Diagnostics.Analyze.Buckets.{bucket, IsIncreasing, summary, with_key, breakdown-bucket}
use pax.Diagnostics.Analyze.Totals.{over, breakdown-total}
use pax.Diagnostics.Analyze.Flags.{flagged_events, anomalies-total}
use pax.Diagnostics.Analyze.Logs.{new_analyzer-rearranged}
use pax.Prelude.{some}
use pax.Str.{codes}

event_at : ℕ → TransitEvent
event_at n = record {
  seq = n;
  at = timestamp_from_nanos n;
  origin = device_origin speaker network.controller;
  kind = data_chunk outbound n;
}

abbrev failure : TransitEvent
failure = record (event_at 2) { kind = error (codes "lost") }

abbrev log : List TransitEvent
log = event_at 3 ∷ failure ∷ event_at 1 ∷ []

from_events-Counts_example :
    Counts (from_events log) (length log) (payload log) (count fails log) (count is_warning log)
from_events-Counts_example = from_events-Counts log

from_events-Within_example :
    (c : Timestamp) × (d : Timestamp) × ((from_events log).first_at ≡ some c)
    × ((from_events log).last_at ≡ some d)
    × Within c.nanos d.nanos log
    × Meets c log
    × Meets d log
from_events-Within_example = from_events-Within (event_at 3) (failure ∷ event_at 1 ∷ [])

breakdown-bucket_example :
    IsIncreasing (breakdown (new_analyzer log) event_kind).buckets
    × ((k : Str)
        → bucket k (breakdown (new_analyzer log) event_kind).buckets
          ≡ summary (with_key event_kind k (new_analyzer log).events))
breakdown-bucket_example = breakdown-bucket (new_analyzer log) event_kind

breakdown-total_example :
    let b = (breakdown (new_analyzer log) event_kind).buckets in
    Counts
      (total (new_analyzer log))
      (over (λ m. m.events) b)
      (over (λ m. m.bytes) b)
      (over (λ m. m.failures) b)
      (over (λ m. m.warnings) b)
breakdown-total_example = breakdown-total (new_analyzer log) event_kind

anomalies-total_example :
    (map (λ (x : Anomaly). x.seq) (anomalies (new_analyzer log))
      ≡ map (λ (e : TransitEvent). e.seq) (flagged_events (new_analyzer log).events))
    × (length (anomalies (new_analyzer log))
        ≡ (total (new_analyzer log)).failures + (total (new_analyzer log)).warnings)
anomalies-total_example = anomalies-total (new_analyzer log)

-- The events that the mock's test calls emit.
abbrev emitted : List TransitEvent
emitted = (run_all unchanged calls (build network, tt)).0.emitted

new_analyzer-rearranged_example : (new_analyzer (reverse emitted)).events ≡ emitted
new_analyzer-rearranged_example =
    new_analyzer-rearranged unchanged network tt calls (reverse emitted)
      (Permᴰ.symm (Permᴰ.reverse emitted))
