-- ===== src/Diagnostics/Analyze/Totals.antt =====
-- The report's parts agree: the buckets of a breakdown add up to the whole, and the anomalies
-- are the failures and the warnings.
use pax.Prelude.{
  ℕ, ◌+◌, ◌≡◌, refl, sym, Bool, true, false, List, [], ◌∷◌, if◌then◌else◌, inl, inr, arith,
}
use pax.Str.{Str}
use pax.Core.Event.{TransitEvent, payload_bytes, is_failure}
use pax.Diagnostics.Metrics.{
  SplitBy, key, Metrics, default_metrics, record_event, record_all, from_events, is_warning,
}
use pax.Diagnostics.Metrics.Sums.{Counts}
use pax.Diagnostics.Analyze.{compare_text, record_at, split_loop, Analyzer, breakdown, total}
use pax.Diagnostics.Analyze.Buckets.{Ordering-cases}

-- A measure of all buckets together.
unfoldable pub over : (Metrics → ℕ) → List (Str × Metrics) → ℕ
over f [] = 0
over f (b ∷ bs) = f b.1 + over f bs

module _ (f : Metrics → ℕ) (weight : TransitEvent → ℕ) (empty : f default_metrics ≡ 0)
    (one : (m : Metrics) (e : TransitEvent) → f (record_event m e) ≡ f m + weight e) where
  over-record_at :
      (k : Str) (e : TransitEvent) (bs : List (Str × Metrics))
      → over f (record_at k e bs) ≡ over f bs + weight e
  unfolding over record_at
  over-record_at k e [] = omega (arith, empty, one default_metrics e)
  over-record_at k e ((j, m) ∷ bs) = elim (Ordering-cases (compare_text k j)) [
    | inl lt ↦ rw (lt, record_at) (omega (arith, empty, one default_metrics e))
    | inr (inl eq) ↦ rw (eq, record_at) (omega (arith, one m e))
    | inr (inr gt) ↦ rw (gt, record_at) (omega (arith, over-record_at k e bs))
  ]

  over-split_loop :
      (d : SplitBy) (es : List TransitEvent) (bs : List (Str × Metrics)) (m : Metrics)
      → over f bs ≡ f m
      → over f (split_loop d es bs) ≡ f (record_all m es)
  unfolding split_loop record_all
  over-split_loop d [] bs m h = h
  over-split_loop d (e ∷ es) bs m h =
      over-split_loop d es (record_at (key d e) e bs) (record_event m e)
        (omega (arith, over-record_at (key d e) e bs, one m e))

  pub over-breakdown : (a : Analyzer) (d : SplitBy) → over f (breakdown a d).buckets ≡ f (total a)
  unfolding breakdown total from_events over
  over-breakdown a d = over-split_loop d a.events [] default_metrics (sym empty)

weight_of : Bool → ℕ
weight_of true = 1
weight_of false = 0

counted : (c : Bool) (m : ℕ) → (if c then m + 1 else m) ≡ m + weight_of c
unfolding weight_of
counted true m = refl
counted false m = omega arith

-- Along every dimension, the events, bytes, failures and warnings of the buckets add up to
-- those of the whole.
pub breakdown-total :
    (a : Analyzer) (d : SplitBy)
    → Counts
        (total a)
        (over (λ m. m.events) (breakdown a d).buckets)
        (over (λ m. m.bytes) (breakdown a d).buckets)
        (over (λ m. m.failures) (breakdown a d).buckets)
        (over (λ m. m.warnings) (breakdown a d).buckets)
unfolding Counts record_event
breakdown-total a d = (
  sym (over-breakdown (λ m. m.events) (λ e. 1) refl (λ m e. refl) a d),
  sym (over-breakdown (λ m. m.bytes) (λ e. payload_bytes e.kind) refl (λ m e. refl) a d),
  sym (
      over-breakdown (λ m. m.failures) (λ e. weight_of (is_failure e.kind)) refl
        (λ m e. counted (is_failure e.kind) m.failures) a d),
  sym (
      over-breakdown (λ m. m.warnings) (λ e. weight_of (is_warning e)) refl
        (λ m e. counted (is_warning e) m.warnings) a d),
)
