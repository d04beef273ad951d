-- ===== src/Diagnostics/Analyze/Order.antt =====
-- The order of texts is a strict total order.
use Prim.Native.Nat.{compare, Ordering}
use pax.Prelude.{ℕ, ◌≡◌, ◌<◌, refl, ap, [], ◌∷◌, arith, dec_lt, sym}
use pax.Str.{Str}
use pax.Diagnostics.Analyze.{compare_text}

-- How two numbers compare.
pub data Compared (a b : ℕ) : Type 0 where
  less : a < b → compare a b ≡ Ordering.lt → Compared a b
  same : a ≡ b → compare a b ≡ Ordering.eq → Compared a b
  more : b < a → compare a b ≡ Ordering.gt → Compared a b

lt→compare : (a b : ℕ) → a < b → compare a b ≡ Ordering.lt
lt→compare a b h = ground arith

gt→compare : (a b : ℕ) → b < a → compare a b ≡ Ordering.gt
gt→compare a b h = ground arith

eq→compare : (a b : ℕ) → a ≡ b → compare a b ≡ Ordering.eq
eq→compare a b h = ground arith

pub compared : (a b : ℕ) → Compared a b
compared a b = elim (dec_lt a b) [
  | yes h ↦ less h (lt→compare a b h)
  | no h ↦ elim (dec_lt b a) [
    | yes k ↦ more k (gt→compare a b k)
    | no k ↦ let e : a ≡ b = omega arith in same e (eq→compare a b e)
  ]
]

-- A code that separates the three results.
rank : Ordering → ℕ
rank Ordering.lt = 0
rank Ordering.eq = 1
rank Ordering.gt = 2

pub compare_text-eq : (s t : Str) → compare_text s t ≡ Ordering.eq → s ≡ t
unfolding compare_text rank
compare_text-eq [] [] h = refl
compare_text-eq [] (d ∷ t) h = ground (arith, ap rank h)
compare_text-eq (c ∷ s) [] h = ground (arith, ap rank h)
compare_text-eq (c ∷ s) (d ∷ t) h = elim (compared c d) [
  | less _ e ↦ ground (arith, ap rank (rw (e, compare_text) at h))
  | more _ e ↦ ground (arith, ap rank (rw (e, compare_text) at h))
  | same eq e ↦ rw (eq, compare_text-eq s t (rw (e, compare_text) at h)) refl
]

pub compare_text_refl : (s : Str) → compare_text s s ≡ Ordering.eq
unfolding compare_text
compare_text_refl [] = refl
compare_text_refl (c ∷ s) = rw (eq→compare c c refl, compare_text) (compare_text_refl s)

pub compare_text-flip :
    (s t : Str) → compare_text s t ≡ Ordering.gt → compare_text t s ≡ Ordering.lt
unfolding compare_text rank
compare_text-flip [] [] h = ground (arith, ap rank h)
compare_text-flip [] (d ∷ t) h = ground (arith, ap rank h)
compare_text-flip (c ∷ s) [] h = refl
compare_text-flip (c ∷ s) (d ∷ t) h = elim (compared c d) [
  | less _ e ↦ ground (arith, ap rank (rw (e, compare_text) at h))
  | more gt e ↦ rw (lt→compare d c gt, compare_text) refl
  | same eq e ↦
      rw (eq→compare d c (sym eq), compare_text) (compare_text-flip s t (rw (e, compare_text) at h))
]

pub compare_text_trans :
    (r s t : Str)
    → compare_text r s ≡ Ordering.lt
    → compare_text s t ≡ Ordering.lt
    → compare_text r t ≡ Ordering.lt
unfolding compare_text rank
compare_text_trans [] [] t h k = ground (arith, ap rank h)
compare_text_trans [] (d ∷ s) [] h k = ground (arith, ap rank k)
compare_text_trans [] (d ∷ s) (f ∷ t) h k = refl
compare_text_trans (c ∷ r) [] t h k = ground (arith, ap rank h)
compare_text_trans (c ∷ r) (d ∷ s) [] h k = ground (arith, ap rank k)
compare_text_trans (c ∷ r) (d ∷ s) (f ∷ t) h k = elim (compared c d) [
  | more _ e ↦ ground (arith, ap rank (rw (e, compare_text) at h))
  | less lt e ↦ elim (compared d f) [
    | more _ e' ↦ ground (arith, ap rank (rw (e', compare_text) at k))
    | less lt' e' ↦ rw (lt→compare c f (omega arith), compare_text) refl
    | same eq e' ↦ rw (lt→compare c f (omega arith), compare_text) refl
  ]
  | same eq e ↦ elim (compared d f) [
    | more _ e' ↦ ground (arith, ap rank (rw (e', compare_text) at k))
    | less lt' e' ↦ rw (lt→compare c f (omega arith), compare_text) refl
    | same eq' e' ↦
        rw (eq→compare c f (omega arith), compare_text)
          (compare_text_trans r s t (rw (e, compare_text) at h) (rw (e', compare_text) at k))
  ]
]
