-- ===== src/Diagnostics/Analyze/Flags.antt =====
-- The anomalies of a log, and a log that the mock wrote.
use pax.Prelude.{
  ℕ, ◌+◌, ◌≡◌, ◌≤◌, refl, ap, sym, ◌∙◌, Bool, true, false, ◌||◌, none, some, List, [], ◌∷◌,
  if◌then◌else◌, Bool-cases, inl, inr, ◌⊎◌, arith, length, length-map, map, All,
}
use pax.Str.{Str, Str-discrete}
use pax.Core.Event
use pax.Core.Time.{Timestamp}
use pax.Core.Event.{EventOrigin, TransitEvent, TransitEventKind, is_failure, label}
use pax.Transport.Mock.{MockBackendBuilder, build}
use pax.Transport.Mock.Stream.{From, IsStream}
use pax.Transport.Mock.Stream.Kept.{IsOrdered}
use pax.Transport.Mock.Stream.Calls.{Call, run_all, run_all-build}
use pax.Diagnostics.Metrics.{is_warning}
use pax.Diagnostics.Metrics.Sums.{count, fails, Counts, from_events-Counts}
use pax.Diagnostics.Analyze.{
  Analyzer, new_analyzer, total, Anomaly, anomaly_of, anomalies_of, anomalies,
}
use pax.Diagnostics.Analyze.Sorting.{IsSorted, sort-id, weaken-All}

-- The events that are flagged: the failures and the warnings.
unfoldable pub is_flagged : TransitEvent → Bool
is_flagged e = is_failure e.kind || is_warning e

-- The events that pass a test.
unfoldable pub flagged_events : List TransitEvent → List TransitEvent
flagged_events [] = []
flagged_events (e ∷ es) = if is_flagged e then e ∷ flagged_events es else flagged_events es

module _ (n : ℕ) (t : Timestamp) (o : EventOrigin) where
  with_kind : TransitEventKind → TransitEvent
  with_kind k = record { seq = n; at = t; origin = o; kind = k }

  flagged-with_kind :
      (k : TransitEventKind)
      → ((is_flagged (with_kind k) ≡ false) × (anomaly_of (with_kind k) ≡ none))
        ⊎ ((is_flagged (with_kind k) ≡ true)
            × ((a : Anomaly) × (anomaly_of (with_kind k) ≡ some a) × (a.seq ≡ n)))
  unfolding with_kind is_flagged anomaly_of is_failure is_warning label Str-discrete
  flagged-with_kind Event.discovery_started = inl (refl, refl)
  flagged-with_kind (Event.device_discovered r) = inl (refl, refl)
  flagged-with_kind (Event.pairing_started m) = inl (refl, refl)
  flagged-with_kind Event.pairing_completed = inl (refl, refl)
  flagged-with_kind (Event.pairing_failed r) = inr (refl, (_, refl, refl))
  flagged-with_kind Event.connected = inl (refl, refl)
  flagged-with_kind (Event.disconnected r) = inl (refl, refl)
  flagged-with_kind (Event.transfer_started m b) = inl (refl, refl)
  flagged-with_kind (Event.transfer_progress m b) = inl (refl, refl)
  flagged-with_kind (Event.transfer_completed b d) = inl (refl, refl)
  flagged-with_kind (Event.data_chunk d b) = inl (refl, refl)
  flagged-with_kind (Event.warning c d) = inr (refl, (_, refl, refl))
  flagged-with_kind (Event.error d) = inr (refl, (_, refl, refl))

  split-with_kind : (k : TransitEventKind) → is_failure k ≡ true → is_warning (with_kind k) ≡ false
  unfolding with_kind is_failure is_warning label Str-discrete
  split-with_kind Event.discovery_started h = refl
  split-with_kind (Event.device_discovered r) h = refl
  split-with_kind (Event.pairing_started m) h = refl
  split-with_kind Event.pairing_completed h = refl
  split-with_kind (Event.pairing_failed r) h = refl
  split-with_kind Event.connected h = refl
  split-with_kind (Event.disconnected r) h = refl
  split-with_kind (Event.transfer_started m b) h = refl
  split-with_kind (Event.transfer_progress m b) h = refl
  split-with_kind (Event.transfer_completed b d) h = refl
  split-with_kind (Event.data_chunk d b) h = refl
  split-with_kind (Event.warning c d) h = ground arith
  split-with_kind (Event.error d) h = refl

-- An event gives an anomaly exactly if it is flagged, and then with its number.
anomaly_of-flagged :
    (e : TransitEvent)
    → ((is_flagged e ≡ false) × (anomaly_of e ≡ none))
      ⊎ ((is_flagged e ≡ true) × ((a : Anomaly) × (anomaly_of e ≡ some a) × (a.seq ≡ e.seq)))
unfolding with_kind
anomaly_of-flagged e = flagged-with_kind e.seq e.at e.origin e.kind

-- No event is both a failure and a warning.
flags-split : (e : TransitEvent) → is_failure e.kind ≡ true → is_warning e ≡ false
unfolding with_kind
flags-split e = split-with_kind e.seq e.at e.origin e.kind

-- The numbers of the anomalies are those of the flagged events, in order.
anomalies_of-seq :
    (es : List TransitEvent)
    → map (λ (a : Anomaly). a.seq) (anomalies_of es)
      ≡ map (λ (e : TransitEvent). e.seq) (flagged_events es)
unfolding anomalies_of flagged_events
anomalies_of-seq [] = refl
anomalies_of-seq (e ∷ es) = elim (anomaly_of-flagged e) [
  | inl (h, g) ↦ rw (h, g, anomalies_of) (anomalies_of-seq es)
  | inr (h, (a, g, eq)) ↦ rw (h, g, anomalies_of) (rw (eq, anomalies_of-seq es) refl)
]

count-flagged :
    (es : List TransitEvent) → length (flagged_events es) ≡ count fails es + count is_warning es
unfolding flagged_events count is_flagged
count-flagged [] = omega arith
count-flagged (e ∷ es) = elim (Bool-cases (is_failure e.kind)) [
  | inl f ↦ rw (f, flags-split e f) (omega (arith, count-flagged es))
  | inr f ↦ elim (Bool-cases (is_warning e)) [
    | inl w ↦ rw (f, w) (omega (arith, count-flagged es))
    | inr w ↦ rw (f, w) (omega (arith, count-flagged es))
  ]
]

-- The analyzer flags the events that are failures or warnings, in the order of the log and by
-- their numbers, and so as many as its totals count failures and warnings.
pub anomalies-total :
    (a : Analyzer)
    → (map (λ (x : Anomaly). x.seq) (anomalies a)
        ≡ map (λ (e : TransitEvent). e.seq) (flagged_events a.events))
      × (length (anomalies a) ≡ (total a).failures + (total a).warnings)
unfolding anomalies total Counts
anomalies-total a =
    let seqs = anomalies_of-seq a.events in
    let (h1, h2, h3, h4) = from_events-Counts a.events in
    let size : length (anomalies_of a.events) ≡ length (flagged_events a.events) =
      sym (length-map _ (anomalies_of a.events))
      ∙ ap length seqs
      ∙ length-map _ (flagged_events a.events) in
    (seqs, omega (arith, size, count-flagged a.events, h3, h4))

From-IsSorted :
    (n lo : ℕ) (es : List TransitEvent) (m hi : ℕ)
    → From n lo es m hi
    → All (λ (e : TransitEvent). n ≤ e.seq) es × IsSorted es
unfolding From IsSorted
From-IsSorted n lo [] m hi h = (tt, tt)
From-IsSorted n lo (e ∷ es) m hi (h1, h2, h3) =
    let (above, sorted) = From-IsSorted (n + 1) e.at.nanos es m hi h3 in
    let next : n + 1 ≡ e.seq + 1 = omega arith in
    (
      (omega arith, weaken-All n (n + 1) es (omega arith) above),
      (weaken-All e.seq (n + 1) es (omega arith) above, sorted),
    )

-- The analyzer takes the log of a mock, after any calls, as it was written: the events are in
-- order already.
pub new_analyzer-run_all :
    (to_lowercase : Str → Str) {W : Type 0} (builder : MockBackendBuilder) (w : W)
    (cs : List (Call W))
    → (new_analyzer (run_all to_lowercase cs (build builder, w)).0.emitted).events
      ≡ (run_all to_lowercase cs (build builder, w)).0.emitted
unfolding new_analyzer IsOrdered IsStream
new_analyzer-run_all lower builder w cs =
    let (stream, fresh) = run_all-build lower builder w cs in
    sort-id _ (From-IsSorted 0 0 _ _ _ stream).1
