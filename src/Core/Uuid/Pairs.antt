-- ===== src/Core/Uuid/Pairs.antt =====
-- Texts of pairs of digits: their slices, and what two digits are.
use pax.Prelude.{
  ℕ, suc, ◌+◌, ◌*◌, ◌<◌, ◌≡◌, refl, ap, sym, Bool, true, false, not, ◌&&◌, none, some, List, [],
  ◌∷◌, ◌++◌, length, drop, get_elem?, ltb, ◌==◌, All, holds_under, holds_under_sound, arith,
  append_assoc, append-nil, length-append, ==_iff, get_or,
}
use pax.Str.{Str, upper_byte, lower_byte}
use pax.Core.Uuid.{slice_pair, is_char_boundary, returns}
use pax.Core.Address.RoundTrip.{digits}

abbrev pub high : Bool → ℕ → ℕ
high upper n = get_or (digits upper n) 0 0

abbrev pub low : Bool → ℕ → ℕ
low upper n = get_or (digits upper n) 1 0

pub digits-two : (upper : Bool) (n : ℕ) → digits upper n ≡ high upper n ∷ low upper n ∷ []
unfolding upper_byte lower_byte
digits-two true n = refl
digits-two false n = refl

pub both : (p q : Bool) → (p && q) ≡ true → (p ≡ true) × (q ≡ true)
both true true h = (refl, refl)
both true false h = absurd (cc)
both false q h = absurd (cc)

-- A character of one byte that is no hyphen.
abbrev pub clean : ℕ → Bool
clean a = not (a == b'-') && ltb a 0x80

clean_ok : Bool → ℕ → Bool
clean_ok upper n = clean (high upper n) && clean (low upper n)

clean_table : (upper : Bool) → holds_under (clean_ok upper) 256 ≡ true
unfolding holds_under clean_ok upper_byte lower_byte
clean_table true = refl
clean_table false = refl

pub digits-clean :
    (upper : Bool) (n : ℕ) → n < 256 → (clean (high upper n) ≡ true) × (clean (low upper n) ≡ true)
unfolding clean_ok
digits-clean upper n h =
    both (clean (high upper n)) (clean (low upper n))
      (holds_under_sound (clean_ok upper) 256 (clean_table upper) n h)

-- The digits of bytes, without anything between them.
abbrev pub flat : Bool → List ℕ → Str
flat upper [] = []
flat upper (b ∷ bs) = high upper b ∷ low upper b ∷ flat upper bs

module _ (upper : Bool) where
  pub length-flat : (bs : List ℕ) → length (flat upper bs) ≡ length bs * 2
  length-flat [] = refl
  length-flat (b ∷ bs) = omega (arith, length-flat bs)

  pub flat-append : (xs ys : List ℕ) → flat upper (xs ++ ys) ≡ flat upper xs ++ flat upper ys
  flat-append [] ys = refl
  flat-append (x ∷ xs) ys = ap (λ t. high upper x ∷ low upper x ∷ t) (flat-append xs ys)

get-past : (xs t : Str) (j : ℕ) → get_elem? (xs ++ t) (length xs + j) ≡ get_elem? t j
get-past [] t j = let e : 0 + j ≡ j = omega arith in rw (e) refl
get-past (x ∷ xs) t j =
    let e : suc (length xs) + j ≡ suc (length xs + j) = omega arith in rw (e) (get-past xs t j)

drop-past : (xs t : Str) → drop (length xs) (xs ++ t) ≡ t
drop-past [] t = refl
drop-past (x ∷ xs) t = drop-past xs t

-- A text that is empty or begins with a character of one byte.
abbrev Begins : Str → Type 0
Begins [] = Unit
Begins (a ∷ t) = ltb a 0x80 ≡ true

-- Such a text begins at a boundary.
is_char_boundary-past : (xs t : Str) → Begins t → is_char_boundary (xs ++ t) (length xs) ≡ true
unfolding is_char_boundary
is_char_boundary-past xs [] h =
    let e : length xs + 0 ≡ length xs = omega arith in
    let none_there : get_elem? (xs ++ []) (length xs) ≡ none = rw (e) at (get-past xs [] 0) in
    let size : length (xs ++ []) ≡ length xs = ap length (append-nil xs) in
    let same : (length xs == length xs) ≡ true = (==_iff (length xs) (length xs)).1 refl in
    rw (is_char_boundary, none_there, size, same) refl
is_char_boundary-past xs (a ∷ t) h =
    let e : length xs + 0 ≡ length xs = omega arith in
    let there : get_elem? (xs ++ a ∷ t) (length xs) ≡ some a = rw (e) at (get-past xs (a ∷ t) 0) in
    rw (is_char_boundary, there, h) refl

module _ (upper : Bool) where
  flat-Begins : (bs : List ℕ) → All (λ b. b < 256) bs → Begins (flat upper bs)
  flat-Begins [] h = tt
  flat-Begins (b ∷ bs) h =
      (both (not (high upper b == b'-')) (ltb (high upper b) 0x80) (digits-clean upper b h.0).0).1

  -- A slice behind whole pairs is the next pair.
  pub slice_pair-flat :
      (pre : List ℕ) (b : ℕ) (bs : List ℕ)
      → All (λ b. b < 256) (b ∷ bs)
      → slice_pair (flat upper pre ++ flat upper (b ∷ bs)) (length pre) ≡ returns (digits upper b)
  unfolding slice_pair is_char_boundary
  slice_pair-flat pre b bs h =
      let s = flat upper pre ++ flat upper (b ∷ bs) in
      let front = flat upper pre in
      let pair = high upper b ∷ low upper b ∷ [] in
      let here : length pre * 2 ≡ length front = sym (length-flat upper pre) in
      let size : length front + 2 ≡ length (front ++ pair) =
        omega (arith, length-append front pair) in
      let first = is_char_boundary-past front (flat upper (b ∷ bs)) (flat-Begins (b ∷ bs) h) in
      let split = append_assoc front pair (flat upper bs) in
      let second : is_char_boundary s (length (front ++ pair)) ≡ true =
        rw (split) at
          (is_char_boundary-past (front ++ pair) (flat upper bs) (flat-Begins bs h.1)) in
      let rest = drop-past front (flat upper (b ∷ bs)) in
      rw (slice_pair, here, size, first, second, rest) (ap returns (sym (digits-two upper b)))
