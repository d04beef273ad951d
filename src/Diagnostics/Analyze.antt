-- ===== src/Diagnostics/Analyze.antt =====
-- crates/pax-diagnostics/src/analyze.rs: the analyzer. A `BTreeMap` from texts is a list sorted by
-- its keys, compared byte by byte; `sort_by_key`, a stable sort, is an insertion sort.
pub mod Order
pub mod Sorting
pub mod Buckets
pub mod Totals
pub mod Flags
pub mod Logs
use Prim.Native.Nat.{compare, Ordering}
use pax.Prelude.{
  ℕ, ◌+◌, Bool, true, false, Option, none, some, List, [], ◌∷◌, ◌++◌, length, leb, ltb, ◌==◌,
  if◌then◌else◌,
}
use pax.Str.{Str, codes}
use pax.Core.Hardware.{model_label}
use pax.Core.Device.{display_id}
use pax.Core.Event.{TransitEvent, error, pairing_failed, warning}
use pax.Diagnostics.Metrics.{
  SplitBy, controller, spec, transport, radio_standard, port_auth, event_kind, peer, key, Metrics,
  default_metrics, record_event, from_events,
}
use pax.Diagnostics.Recorder.{Recorder}

-- `Ord` of `String`.
unfoldable pub compare_text : Str → Str → Ordering
compare_text [] [] = Ordering.eq
compare_text [] (d ∷ t) = Ordering.lt
compare_text (c ∷ s) [] = Ordering.gt
compare_text (c ∷ s) (d ∷ t) = elim (compare c d) [
  | Ordering.lt ↦ Ordering.lt
  | Ordering.gt ↦ Ordering.gt
  | Ordering.eq ↦ compare_text s t
]

pub record Breakdown : Type 0 where
  pub dimension : SplitBy
  pub buckets : List (Str × Metrics)

abbrev pub bucket_count : Breakdown → ℕ
bucket_count b = length b.buckets

-- `max_by_key`: of several maxima, the last.
busiest_from : Str × Metrics → List (Str × Metrics) → Str × Metrics
busiest_from best [] = best
busiest_from best (e ∷ es) = busiest_from (if leb best.1.bytes e.1.bytes then e else best) es

unfoldable pub busiest : Breakdown → Option (Str × Metrics)
unfolding busiest_from
busiest b = elim b.buckets [ [] ↦ none | e ∷ es ↦ some (busiest_from e es) ]

pub record Anomaly : Type 0 where
  pub code : Str
  pub detail : Str
  pub seq : ℕ

pub record Analyzer : Type 0 where
  pub events : List TransitEvent

-- In front of the first event with a number at least as large.
unfoldable pub insert_by_seq : TransitEvent → List TransitEvent → List TransitEvent
insert_by_seq e [] = e ∷ []
insert_by_seq e (f ∷ fs) = if leb e.seq f.seq then e ∷ f ∷ fs else f ∷ insert_by_seq e fs

unfoldable pub sort_by_seq : List TransitEvent → List TransitEvent
unfolding insert_by_seq
sort_by_seq [] = []
sort_by_seq (e ∷ es) = insert_by_seq e (sort_by_seq es)

unfoldable pub new_analyzer : List TransitEvent → Analyzer
unfolding sort_by_seq
new_analyzer events = record { events = sort_by_seq events }

unfoldable pub from_recorder : Recorder → Analyzer
unfolding new_analyzer
from_recorder r = new_analyzer r.events

unfoldable pub total : Analyzer → Metrics
unfolding from_events
total a = from_events a.events

-- `entry(key).or_default().record(event)`.
unfoldable pub record_at : Str → TransitEvent → List (Str × Metrics) → List (Str × Metrics)
unfolding compare_text record_event
record_at k e [] = (k, record_event default_metrics e) ∷ []
record_at k e ((j, m) ∷ rest) = elim (compare_text k j) [
  | Ordering.lt ↦ (k, record_event default_metrics e) ∷ (j, m) ∷ rest
  | Ordering.eq ↦ (j, record_event m e) ∷ rest
  | Ordering.gt ↦ (j, m) ∷ record_at k e rest
]

-- The loop of `breakdown`.
unfoldable pub split_loop :
    SplitBy → List TransitEvent → List (Str × Metrics) → List (Str × Metrics)
unfolding record_at
split_loop d [] buckets = buckets
split_loop d (e ∷ es) buckets = split_loop d es (record_at (key d e) e buckets)

unfoldable pub breakdown : Analyzer → SplitBy → Breakdown
unfolding split_loop
breakdown a d = record { dimension = d; buckets = split_loop d a.events [] }

-- `{detail} (peer {peer})`.
abbrev pub at_peer : Str → TransitEvent → Str
at_peer detail e = detail ++ codes " (peer " ++ display_id e.origin.peer ++ codes ")"

abbrev pub at_peer_and_controller : Str → TransitEvent → Str
at_peer_and_controller detail e =
    detail
    ++ codes " (peer "
    ++ display_id e.origin.peer
    ++ codes ", controller "
    ++ model_label e.origin.local
    ++ codes ")"

-- The `match` of `anomalies`.
unfoldable pub anomaly_of : TransitEvent → Option Anomaly
anomaly_of e = elim e.kind [
  | error detail ↦
      some (record { code = codes "error"; detail = at_peer_and_controller detail e; seq = e.seq })
  | pairing_failed reason ↦
      some (record { code = codes "pairing-failed"; detail = at_peer reason e; seq = e.seq })
  | warning code detail ↦ some (record { code = code; detail = at_peer detail e; seq = e.seq })
  | _ ↦ none
]

unfoldable pub anomalies_of : List TransitEvent → List Anomaly
unfolding anomaly_of
anomalies_of [] = []
anomalies_of (e ∷ es) = elim (anomaly_of e) [
  | none ↦ anomalies_of es
  | some a ↦ a ∷ anomalies_of es
]

unfoldable pub anomalies : Analyzer → List Anomaly
unfolding anomalies_of
anomalies a = anomalies_of a.events

pub record DiagnosticReport : Type 0 where
  pub whole : Metrics
  pub by_controller : Breakdown
  pub by_spec : Breakdown
  pub by_transport : Breakdown
  pub by_radio_standard : Breakdown
  pub by_port_auth : Breakdown
  pub by_event_kind : Breakdown
  pub by_peer : Breakdown
  pub flagged : List Anomaly

unfoldable pub report : Analyzer → DiagnosticReport
unfolding total breakdown anomalies
report a = record {
  whole = total a;
  by_controller = breakdown a controller;
  by_spec = breakdown a spec;
  by_transport = breakdown a transport;
  by_radio_standard = breakdown a radio_standard;
  by_port_auth = breakdown a port_auth;
  by_event_kind = breakdown a event_kind;
  by_peer = breakdown a peer;
  flagged = anomalies a;
}
