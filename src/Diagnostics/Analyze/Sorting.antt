-- ===== src/Diagnostics/Analyze/Sorting.antt =====
-- The order in which the analyzer keeps the events.
use pax.Prelude.{
  ℕ, ◌≡◌, ◌≤◌, refl, ap, ◌∙◌, true, false, List, [], ◌∷◌, leb, leb→le, ◌==◌, if◌then◌else◌,
  Bool-cases, inl, inr, arith, All,
}
use pax.Core.Event.{TransitEvent}
use pax.Diagnostics.Analyze.{insert_by_seq, sort_by_seq}

-- The numbers do not decrease.
unfoldable pub IsSorted : List TransitEvent → Type 0
IsSorted [] = Unit
IsSorted (e ∷ es) = All (λ (f : TransitEvent). e.seq ≤ f.seq) es × IsSorted es

-- The events with one number, in order.
unfoldable pub with_seq : ℕ → List TransitEvent → List TransitEvent
with_seq n [] = []
with_seq n (e ∷ es) = if e.seq == n then e ∷ with_seq n es else with_seq n es

pub weaken-All :
    (m n : ℕ) (es : List TransitEvent)
    → m ≤ n
    → All (λ (f : TransitEvent). n ≤ f.seq) es
    → All (λ (f : TransitEvent). m ≤ f.seq) es
weaken-All m n [] h _ = tt
weaken-All m n (e ∷ es) h (h1, h2) = (omega arith, weaken-All m n es h h2)

insert-All :
    (n : ℕ) (e : TransitEvent) (es : List TransitEvent)
    → n ≤ e.seq
    → All (λ (f : TransitEvent). n ≤ f.seq) es
    → All (λ (f : TransitEvent). n ≤ f.seq) (insert_by_seq e es)
unfolding insert_by_seq
insert-All n e [] h _ = (h, tt)
insert-All n e (f ∷ fs) h (h1, h2) = elim (Bool-cases (leb e.seq f.seq)) [
  | inl le ↦ rw le (h, (h1, h2))
  | inr gt ↦ rw gt (h1, insert-All n e fs h h2)
]

insert-IsSorted :
    (e : TransitEvent) (es : List TransitEvent) → IsSorted es → IsSorted (insert_by_seq e es)
unfolding insert_by_seq IsSorted
insert-IsSorted e [] _ = (tt, tt)
insert-IsSorted e (f ∷ fs) (h1, h2) = elim (Bool-cases (leb e.seq f.seq)) [
  | inl le ↦ rw le ((leb→le _ _ le, weaken-All _ _ fs (leb→le _ _ le) h1), (h1, h2))
  | inr gt ↦ rw gt (insert-All f.seq e fs (ground arith) h1, insert-IsSorted e fs h2)
]

with_seq-insert :
    (n : ℕ) (e : TransitEvent) (es : List TransitEvent)
    → with_seq n (insert_by_seq e es) ≡ with_seq n (e ∷ es)
unfolding insert_by_seq with_seq
with_seq-insert n e [] = refl
with_seq-insert n e (f ∷ fs) = elim (Bool-cases (leb e.seq f.seq)) [
  | inl le ↦ rw le refl
  | inr gt ↦ elim (Bool-cases (f.seq == n)) [
    | inl hit ↦
        let miss : (e.seq == n) ≡ false = ground arith in
        let rest : with_seq n (insert_by_seq e fs) ≡ with_seq n fs =
          rw miss at (with_seq-insert n e fs) in
        rw (gt, hit, miss) (ap (λ l. f ∷ l) rest)
    | inr other ↦ rw (gt, other) (with_seq-insert n e fs)
  ]
]

with_seq-cons :
    (n : ℕ) (e : TransitEvent) (es fs : List TransitEvent)
    → with_seq n es ≡ with_seq n fs
    → with_seq n (e ∷ es) ≡ with_seq n (e ∷ fs)
unfolding with_seq
with_seq-cons n e es fs h = rw h refl

-- The sort puts the numbers in order and is stable: it keeps the events of each number, in the
-- order in which they were given.
pub sort-IsSorted :
    (es : List TransitEvent)
    → IsSorted (sort_by_seq es) × ((n : ℕ) → with_seq n (sort_by_seq es) ≡ with_seq n es)
unfolding sort_by_seq IsSorted
sort-IsSorted [] = (tt, λ n. refl)
sort-IsSorted (e ∷ es) =
    let (h1, h2) = sort-IsSorted es in
    (
      insert-IsSorted e _ h1,
      λ n. with_seq-insert n e (sort_by_seq es) ∙ with_seq-cons n e _ es (h2 n),
    )

insert-first :
    (e : TransitEvent) (es : List TransitEvent)
    → All (λ (f : TransitEvent). e.seq ≤ f.seq) es
    → insert_by_seq e es ≡ e ∷ es
unfolding insert_by_seq
insert-first e [] _ = refl
insert-first e (f ∷ fs) (h, _) = let le : leb e.seq f.seq ≡ true = ground arith in rw le refl

-- The sort leaves events alone that are in order.
pub sort-id : (es : List TransitEvent) → IsSorted es → sort_by_seq es ≡ es
unfolding sort_by_seq IsSorted
sort-id [] _ = refl
sort-id (e ∷ es) (h1, h2) = rw (sort-id es h2) (insert-first e es h1)
