-- ===== src/Transport/Mock/Push/Chunks.antt =====
-- What `slice::chunks` yields: the bytes in order, all chunks full but the last.
use native.Mathlib.Nat.{add-mul, one-mul}
use pax.Prelude.{
  ℕ, zero, suc, ◌+◌, ◌*◌, ◌≤◌, ◌<◌, ◌≡◌, refl, List, [], ◌∷◌, ◌++◌, arith, length, take, drop, min,
  length-take, length-drop, dec_le, take-append-drop,
}
use pax.Transport.Mock.Push.{chunks_from}

-- The bytes of all chunks.
unfoldable pub total : List (List ℕ) → ℕ
total [] = 0
total (c ∷ cs) = length c + total cs

unfoldable pub flatten : List (List ℕ) → List ℕ
flatten [] = []
flatten (c ∷ cs) = c ++ flatten cs

pub flatten-chunks_from :
    (fuel n : ℕ) (xs : List ℕ) → 1 ≤ n → length xs ≤ fuel → flatten (chunks_from fuel n xs) ≡ xs
unfolding chunks_from flatten
flatten-chunks_from zero n [] hn hf = refl
flatten-chunks_from zero n (x ∷ xs) hn hf = elim hf [ ]
flatten-chunks_from (suc fuel) n [] hn hf = refl
flatten-chunks_from (suc fuel) n (x ∷ xs) hn hf =
    rw (flatten-chunks_from fuel n (drop n (x ∷ xs)) hn (omega (arith, length-drop n (x ∷ xs))))
      (take-append-drop n (x ∷ xs))

pub total-chunks_from :
    (fuel n : ℕ) (xs : List ℕ)
    → 1 ≤ n
    → length xs ≤ fuel
    → total (chunks_from fuel n xs) ≡ length xs
unfolding chunks_from total
total-chunks_from zero n [] hn hf = refl
total-chunks_from zero n (x ∷ xs) hn hf = elim hf [ ]
total-chunks_from (suc fuel) n [] hn hf = refl
total-chunks_from (suc fuel) n (x ∷ xs) hn hf =
    let rest =
      total-chunks_from fuel n (drop n (x ∷ xs)) hn (omega (arith, length-drop n (x ∷ xs))) in
    omega (arith, rest, length-drop n (x ∷ xs), length-take n (x ∷ xs))

pub suc_times : (k n : ℕ) → (k + 1) * n ≡ n + k * n
suc_times k n = simp (add-mul, one-mul) (omega arith)

below_one : (k n : ℕ) → k * n < n → k * n ≡ 0
below_one zero n h = omega arith
below_one (suc k) n h = omega (arith, suc_times k n)

-- As many chunks as a rounded-up division gives.
pub length-chunks_from :
    (fuel n : ℕ) (xs : List ℕ)
    → 1 ≤ n
    → length xs ≤ fuel
    → (length xs ≤ length (chunks_from fuel n xs) * n)
      × (length (chunks_from fuel n xs) * n < length xs + n)
unfolding chunks_from
length-chunks_from zero n [] hn hf = (omega arith, omega arith)
length-chunks_from zero n (x ∷ xs) hn hf = elim hf [ ]
length-chunks_from (suc fuel) n [] hn hf = (omega arith, omega arith)
length-chunks_from (suc fuel) n (x ∷ xs) hn hf =
    let (low, high) =
      length-chunks_from fuel n (drop n (x ∷ xs)) hn (omega (arith, length-drop n (x ∷ xs))) in
    let k = length (chunks_from fuel n (drop n (x ∷ xs))) in
    let size = length-drop n (x ∷ xs) in
    let next = suc_times k n in
    (
      omega (arith, low, next, size),
      elim (dec_le n (length (x ∷ xs))) [
        | yes fits ↦ omega (arith, high, next, size)
        | no short ↦ omega (arith, below_one k n (omega (arith, high, size)), next)
      ],
    )

-- The first `j` chunks carry the first `j * n` bytes.
pub total-take-chunks_from :
    (j fuel n : ℕ) (xs : List ℕ)
    → 1 ≤ n
    → length xs ≤ fuel
    → total (take j (chunks_from fuel n xs)) ≡ min (j * n) (length xs)
unfolding chunks_from total
total-take-chunks_from zero fuel n xs hn hf = omega arith
total-take-chunks_from (suc j) zero n [] hn hf = omega arith
total-take-chunks_from (suc j) zero n (x ∷ xs) hn hf = elim hf [ ]
total-take-chunks_from (suc j) (suc fuel) n [] hn hf = omega arith
total-take-chunks_from (suc j) (suc fuel) n (x ∷ xs) hn hf =
    let rest =
      total-take-chunks_from j fuel n (drop n (x ∷ xs)) hn
        (omega (arith, length-drop n (x ∷ xs))) in
    omega (arith, rest, suc_times j n, length-drop n (x ∷ xs), length-take n (x ∷ xs))
