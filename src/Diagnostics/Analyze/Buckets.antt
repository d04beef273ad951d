-- ===== src/Diagnostics/Analyze/Buckets.antt =====
-- What `breakdown` puts in its buckets.
use Prim.Native.Nat.{Ordering}
use pax.Prelude.{
  ◌≡◌, ◌⊎◌, refl, sym, ◌∙◌, Bool, true, false, Option, none, some, List, [], ◌∷◌, if◌then◌else◌,
  is_yes, All, inl, inr, Bool-cases, arith,
}
use pax.Str.{Str, Str-discrete}
use pax.Core.Event.{TransitEvent}
use pax.Diagnostics.Metrics.{SplitBy, key, Metrics, default_metrics, record_all, from_events}
use pax.Diagnostics.Analyze.{compare_text, record_at, split_loop, Analyzer, breakdown}
use pax.Diagnostics.Analyze.Order.{
  compare_text-eq, compare_text_refl, compare_text-flip, compare_text_trans,
}

abbrev pub same_text : Str → Str → Bool
same_text s t = is_yes (Str-discrete s t)

-- `BTreeMap::get`.
unfoldable pub bucket : Str → List (Str × Metrics) → Option Metrics
bucket k [] = none
bucket k ((j, m) ∷ rest) = if same_text k j then some m else bucket k rest

-- The events of one key, in order.
unfoldable pub with_key : SplitBy → Str → List TransitEvent → List TransitEvent
with_key d k [] = []
with_key d k (e ∷ es) = if same_text k (key d e) then e ∷ with_key d k es else with_key d k es

-- A bucket after some more events.
unfoldable pub grow : Option Metrics → List TransitEvent → Option Metrics
unfolding record_all
grow none [] = none
grow none (e ∷ es) = some (record_all default_metrics (e ∷ es))
grow (some m) es = some (record_all m es)

Above : Str → List (Str × Metrics) → Type 0
Above k = All (λ (b : Str × Metrics). compare_text k b.0 ≡ Ordering.lt)

-- The keys increase strictly.
unfoldable pub IsIncreasing : List (Str × Metrics) → Type 0
unfolding Above
IsIncreasing [] = Unit
IsIncreasing ((k, m) ∷ rest) = Above k rest × IsIncreasing rest

pub Ordering-cases : (o : Ordering) → (o ≡ Ordering.lt) ⊎ ((o ≡ Ordering.eq) ⊎ (o ≡ Ordering.gt))
Ordering-cases Ordering.lt = inl refl
Ordering-cases Ordering.eq = inr (inl refl)
Ordering-cases Ordering.gt = inr (inr refl)

same_text→eq : (s t : Str) → same_text s t ≡ true → s ≡ t
same_text→eq s t h = ground arith

same_text_refl : (s : Str) → same_text s s ≡ true
same_text_refl s = ground arith

-- A text below another is not the same.
lt→other : (s t : Str) → compare_text s t ≡ Ordering.lt → same_text s t ≡ false
lt→other s t h = elim (Bool-cases (same_text s t)) [
  | inr e ↦ e
  | inl e ↦
      let eq : s ≡ t = same_text→eq s t e in
      let absurd : Ordering.eq ≡ Ordering.lt = sym (compare_text_refl t) ∙ (rw eq at h) in
      ground arith
]

above→other : (s t : Str) → compare_text s t ≡ Ordering.gt → same_text s t ≡ false
above→other s t h = elim (Bool-cases (same_text s t)) [
  | inr e ↦ e
  | inl e ↦
      let eq : s ≡ t = same_text→eq s t e in
      let absurd : Ordering.eq ≡ Ordering.gt = sym (compare_text_refl t) ∙ (rw eq at h) in
      ground arith
]

Above-bucket : (k : Str) (bs : List (Str × Metrics)) → Above k bs → bucket k bs ≡ none
unfolding bucket Above
Above-bucket k [] _ = refl
Above-bucket k ((j, m) ∷ bs) (h1, h2) = rw (lt→other k j h1) (Above-bucket k bs h2)

Above-lower :
    (j k : Str) (bs : List (Str × Metrics))
    → compare_text j k ≡ Ordering.lt
    → Above k bs
    → Above j bs
unfolding Above
Above-lower j k [] h _ = tt
Above-lower j k ((i, m) ∷ bs) h (h1, h2) = (compare_text_trans j k i h h1, Above-lower j k bs h h2)

Above-record_at :
    (j k : Str) (e : TransitEvent) (bs : List (Str × Metrics))
    → compare_text j k ≡ Ordering.lt
    → Above j bs
    → Above j (record_at k e bs)
unfolding record_at Above
Above-record_at j k e [] h _ = (h, tt)
Above-record_at j k e ((i, m) ∷ bs) h (h1, h2) = elim (Ordering-cases (compare_text k i)) [
  | inl lt ↦ rw (lt, record_at) (h, (h1, h2))
  | inr (inl eq) ↦ rw (eq, record_at) (h1, h2)
  | inr (inr gt) ↦ rw (gt, record_at) (h1, Above-record_at j k e bs h h2)
]

record_at-IsIncreasing :
    (k : Str) (e : TransitEvent) (bs : List (Str × Metrics))
    → IsIncreasing bs
    → IsIncreasing (record_at k e bs)
unfolding record_at IsIncreasing Above
record_at-IsIncreasing k e [] _ = (tt, tt)
record_at-IsIncreasing k e ((i, m) ∷ bs) (h1, h2) = elim (Ordering-cases (compare_text k i)) [
  | inl lt ↦ rw (lt, record_at) ((lt, Above-lower k i bs lt h1), (h1, h2))
  | inr (inl eq) ↦ rw (eq, record_at) (h1, h2)
  | inr (inr gt) ↦
      rw (gt, record_at)
        (Above-record_at i k e bs (compare_text-flip k i gt) h1, record_at-IsIncreasing k e bs h2)
]

-- The bucket that an event is counted in, before and after.
bucket-record_same :
    (k : Str) (e : TransitEvent) (bs : List (Str × Metrics))
    → IsIncreasing bs
    → bucket k (record_at k e bs) ≡ grow (bucket k bs) (e ∷ [])
unfolding record_at bucket grow IsIncreasing record_all
bucket-record_same k e [] _ = rw (same_text_refl k) refl
bucket-record_same k e ((j, m) ∷ bs) (h1, h2) = elim (Ordering-cases (compare_text k j)) [
  | inl lt ↦
      rw (lt, lt→other k j lt, record_at)
        (rw (same_text_refl k) (rw (Above-bucket k bs (Above-lower k j bs lt h1)) refl))
  | inr (inl eq) ↦
      let is : same_text k j ≡ true = rw (compare_text-eq k j eq) (same_text_refl j) in
      rw (eq, record_at) (rw is refl)
  | inr (inr gt) ↦
      let miss : same_text k j ≡ false = above→other k j gt in
      rw (gt, miss, record_at) (bucket-record_same k e bs h2)
]

bucket-record_other :
    (k j : Str) (e : TransitEvent) (bs : List (Str × Metrics))
    → same_text k j ≡ false
    → bucket k (record_at j e bs) ≡ bucket k bs
unfolding record_at bucket
bucket-record_other k j e [] h = rw h refl
bucket-record_other k j e ((i, m) ∷ bs) h = elim (Ordering-cases (compare_text j i)) [
  | inl lt ↦ rw (lt, record_at) (rw h refl)
  | inr (inl eq) ↦
      let miss : same_text k i ≡ false = rw (compare_text-eq j i eq) at h in
      rw (eq, record_at) (rw miss refl)
  | inr (inr gt) ↦ rw (gt, record_at) (rw (bucket-record_other k j e bs h) refl)
]

grow-nil : (o : Option Metrics) → grow o [] ≡ o
unfolding grow record_all
grow-nil none = refl
grow-nil (some m) = refl

grow-cons :
    (o : Option Metrics) (e : TransitEvent) (es : List TransitEvent)
    → grow (grow o (e ∷ [])) es ≡ grow o (e ∷ es)
unfolding grow record_all
grow-cons none e es = refl
grow-cons (some m) e es = refl

split_loop-bucket :
    (d : SplitBy) (k : Str) (es : List TransitEvent) (bs : List (Str × Metrics))
    → IsIncreasing bs
    → (bucket k (split_loop d es bs) ≡ grow (bucket k bs) (with_key d k es))
      × IsIncreasing (split_loop d es bs)
unfolding split_loop with_key
split_loop-bucket d k [] bs h = (sym (grow-nil (bucket k bs)), h)
split_loop-bucket d k (e ∷ es) bs h =
    let (h1, h2) =
      split_loop-bucket d k es (record_at (key d e) e bs)
        (record_at-IsIncreasing (key d e) e bs h) in
    elim (Bool-cases (same_text k (key d e))) [
      | inr miss ↦ (rw miss (rw (bucket-record_other k (key d e) e bs miss) at h1), h2)
      | inl hit ↦
          let eq : k ≡ key d e = same_text→eq k (key d e) hit in
          let mine : bucket k (record_at (key d e) e bs) ≡ grow (bucket k bs) (e ∷ []) =
            rw (← eq) (bucket-record_same k e bs h) in
          (rw hit (h1 ∙ (rw mine (grow-cons (bucket k bs) e (with_key d k es)))), h2)
    ]

-- The summary of the events, if there is one.
unfoldable pub summary : List TransitEvent → Option Metrics
unfolding from_events
summary [] = none
summary (e ∷ es) = some (from_events (e ∷ es))

summary-grow : (es : List TransitEvent) → grow none es ≡ summary es
unfolding grow summary from_events
summary-grow [] = refl
summary-grow (e ∷ es) = refl

-- A breakdown's keys increase strictly, and it has a bucket for a key exactly if some event has
-- that key, namely the summary of those events in their order.
pub breakdown-bucket :
    (a : Analyzer) (d : SplitBy)
    → IsIncreasing (breakdown a d).buckets
      × ((k : Str) → bucket k (breakdown a d).buckets ≡ summary (with_key d k a.events))
unfolding breakdown bucket IsIncreasing
breakdown-bucket a d = (
  (split_loop-bucket d [] a.events [] tt).1,
  λ k. (split_loop-bucket d k a.events [] tt).0 ∙ summary-grow (with_key d k a.events),
)
