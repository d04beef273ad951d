-- ===== src/Diagnostics/Metrics/Sums.antt =====
-- What the summary of a list of events says of it.
use pax.Prelude.{
  ℕ, ◌+◌, ◌≡◌, ◌≤◌, refl, ◌∙◌, Bool, true, false, some, List, [], ◌∷◌, length, if◌then◌else◌, arith,
  All, ◌⊎◌, inl, inr, ap, sym, min, max, leb, Bool-cases,
}
use pax.Core.Time.{Timestamp}
use pax.Core.Event.{TransitEvent, payload_bytes, is_failure}
use pax.Diagnostics.Metrics.{
  Metrics, default_metrics, record_event, record_all, from_events, is_warning, earlier, later,
}

-- How many elements pass a test.
unfoldable pub count {ℓ} : {A : Type ℓ} → (A → Bool) → List A → ℕ
count p [] = 0
count p (x ∷ xs) = if p x then 1 + count p xs else count p xs

-- The bytes that events carry.
unfoldable pub payload : List TransitEvent → ℕ
payload [] = 0
payload (e ∷ es) = payload_bytes e.kind + payload es

abbrev pub fails : TransitEvent → Bool
fails e = is_failure e.kind

-- The counts of a summary.
unfoldable pub Counts : Metrics → ℕ → ℕ → ℕ → ℕ → Type 0
Counts m events bytes failures warnings =
    (m.events ≡ events) × (m.bytes ≡ bytes) × (m.failures ≡ failures) × (m.warnings ≡ warnings)

bump : (c : Bool) (m n : ℕ) → (if c then m + 1 else m) + n ≡ m + (if c then 1 + n else n)
bump true m n = omega arith
bump false m n = omega arith

record_all-Counts :
    (m : Metrics) (es : List TransitEvent)
    → Counts
        (record_all m es)
        (m.events + length es)
        (m.bytes + payload es)
        (m.failures + count fails es)
        (m.warnings + count is_warning es)
unfolding record_all record_event Counts count payload
record_all-Counts m [] = (omega arith, omega arith, omega arith, omega arith)
record_all-Counts m (e ∷ es) =
    let (h1, h2, h3, h4) = record_all-Counts (record_event m e) es in
    (
      omega (arith, h1),
      omega (arith, h2),
      h3 ∙ bump (fails e) m.failures (count fails es),
      h4 ∙ bump (is_warning e) m.warnings (count is_warning es),
    )

-- The bounds of a summary's window, for a window that began at `from` and ended at `to`.
unfoldable pub Within : ℕ → ℕ → List TransitEvent → Type 0
Within from to = All (λ (e : TransitEvent). (from ≤ e.at.nanos) × (e.at.nanos ≤ to))

Within-wider :
    (a b c d : ℕ) (es : List TransitEvent) → c ≤ a → b ≤ d → Within a b es → Within c d es
unfolding Within
Within-wider a b c d [] h k _ = tt
Within-wider a b c d (e ∷ es) h k ((h1, h2), rest) =
    ((omega arith, omega arith), Within-wider a b c d es h k rest)

-- A moment at which one of the events was.
unfoldable pub Meets : Timestamp → List TransitEvent → Type 0
Meets t [] = ⊥
Meets t (e ∷ es) = (e.at ≡ t) ⊎ Meets t es

earlier-cases : (a t : Timestamp) → (earlier (some a) t ≡ a) ⊎ (earlier (some a) t ≡ t)
earlier-cases a t = elim (Bool-cases (leb a.nanos t.nanos)) [
  | inl h ↦
      let e : min a.nanos t.nanos ≡ a.nanos = ground arith in inl (ap (λ n. record { nanos = n }) e)
  | inr h ↦
      let e : min a.nanos t.nanos ≡ t.nanos = ground arith in inr (ap (λ n. record { nanos = n }) e)
]

later-cases : (a t : Timestamp) → (later (some a) t ≡ a) ⊎ (later (some a) t ≡ t)
later-cases a t = elim (Bool-cases (leb a.nanos t.nanos)) [
  | inl h ↦
      let e : max a.nanos t.nanos ≡ t.nanos = ground arith in inr (ap (λ n. record { nanos = n }) e)
  | inr h ↦
      let e : max a.nanos t.nanos ≡ a.nanos = ground arith in inl (ap (λ n. record { nanos = n }) e)
]

-- A bound that is the one before an event or the event's own, or one of a later event.
Meets-after :
    (a b c : Timestamp) (e : TransitEvent) (es : List TransitEvent)
    → (b ≡ a) ⊎ (b ≡ e.at)
    → (c ≡ b) ⊎ Meets c es
    → (c ≡ a) ⊎ Meets c (e ∷ es)
unfolding Meets
Meets-after a b c e es h (inr k) = inr (inr k)
Meets-after a b c e es (inl h) (inl k) = inl (k ∙ h)
Meets-after a b c e es (inr h) (inl k) = inr (inl (sym (k ∙ h)))

record_all-Within :
    (m : Metrics) (es : List TransitEvent) (a b : Timestamp)
    → m.first_at ≡ some a
    → m.last_at ≡ some b
    → (c : Timestamp) × (d : Timestamp) × ((record_all m es).first_at ≡ some c)
      × ((record_all m es).last_at ≡ some d)
      × (c.nanos ≤ a.nanos)
      × (b.nanos ≤ d.nanos)
      × Within c.nanos d.nanos es
      × ((c ≡ a) ⊎ Meets c es)
      × ((d ≡ b) ⊎ Meets d es)
unfolding record_all record_event Within
record_all-Within m [] a b ha hb = (a, b, ha, hb, omega arith, omega arith, tt, inl refl, inl refl)
record_all-Within m (e ∷ es) a b ha hb =
    let a1 = earlier (some a) e.at in
    let b1 = later (some b) e.at in
    let (c, d, h1, h2, h3, h4, h5, h6, h7) =
      record_all-Within (record_event m e) es a1 b1 (rw ha refl) (rw hb refl) in
    (
      c,
      d,
      h1,
      h2,
      omega arith,
      omega arith,
      ((omega arith, omega arith), h5),
      Meets-after a a1 c e es (earlier-cases a e.at) h6,
      Meets-after b b1 d e es (later-cases b e.at) h7,
    )

-- The summary of events counts them, their payload bytes, their failures and their warnings.
pub from_events-Counts :
    (es : List TransitEvent)
    → Counts (from_events es) (length es) (payload es) (count fails es) (count is_warning es)
unfolding from_events Counts
from_events-Counts es =
    let (h1, h2, h3, h4) = record_all-Counts default_metrics es in
    (omega (arith, h1), omega (arith, h2), omega (arith, h3), omega (arith, h4))

-- The summary of at least one event has the smallest window in which all of them lie: one of the
-- events is at its begin, and one at its end.
pub from_events-Within :
    (e : TransitEvent) (es : List TransitEvent)
    → (c : Timestamp) × (d : Timestamp) × ((from_events (e ∷ es)).first_at ≡ some c)
      × ((from_events (e ∷ es)).last_at ≡ some d)
      × Within c.nanos d.nanos (e ∷ es)
      × Meets c (e ∷ es)
      × Meets d (e ∷ es)
unfolding from_events record_all record_event Within Meets
from_events-Within e es =
    let (c, d, h1, h2, h3, h4, h5, h6, h7) =
      record_all-Within (record_event default_metrics e) es e.at e.at refl refl in
    (c, d, h1, h2, ((h3, h4), h5), met c h6, met d h7)
  where
    met : (t : Timestamp) → (t ≡ e.at) ⊎ Meets t es → Meets t (e ∷ es)
    met t (inl h) = inl (sym h)
    met t (inr h) = inr h
