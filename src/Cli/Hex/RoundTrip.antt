-- ===== src/Cli/Hex/RoundTrip.antt =====
-- A payload written in digits, with or without colons, is read back.
use pax.Prelude.{
  ℕ, ◌+◌, ◌*◌, ◌/◌, ◌%◌, ◌<◌, ◌≡◌, refl, ap, ◌∙◌, Bool, true, false, not, ◌&&◌, ◌||◌, List, [], ◌∷◌,
  ◌++◌, length, ltb, ◌==◌, if◌then◌else◌, All, holds_under, holds_under_sound, arith, append_assoc,
  length-append, ltb→lt, get_or,
}
use pax.Str.{Str, is_space, is_space_two, is_space_three, upper_byte, lower_byte}
use pax.Core.Uuid.Pairs.{high, low, both, flat, length-flat, flat-append, slice_pair-flat}
use pax.Core.Address.RoundTrip.{digits, from_str_radix-digits}
use pax.Cli.{returned}
use pax.Cli.Hex.{strip, read_pairs, parse_hex}

-- A byte that the filter keeps, whatever follows it.
abbrev plain : ℕ → Bool
plain a = not (is_space a || a == b':') && ltb a 0x80

both-true : (p q : Bool) → (not p && q) ≡ true → (p ≡ false) × (q ≡ true)
both-true false true h = (refl, refl)
both-true false false h = absurd (cc)
both-true true q h = absurd (cc)

not_two : (a b : ℕ) → a < 0x80 → is_space_two a b ≡ false
unfolding is_space_two
not_two a b h = let n : (a == 0xC2) ≡ false = ground arith in rw (n) refl

not_three : (a b c : ℕ) → a < 0x80 → is_space_three a b c ≡ false
unfolding is_space_three
not_three a b c h =
    let n : (a == 0xE1) ≡ false = ground arith in
    let m : (a == 0xE2) ≡ false = ground arith in
    let k : (a == 0xE3) ≡ false = ground arith in rw (n, m, k) refl

strip-plain : (a : ℕ) (s : Str) → plain a ≡ true → strip (a ∷ s) ≡ a ∷ strip s
unfolding strip
strip-plain a s h =
    let (kept, low) = both-true (is_space a || a == b':') (ltb a 0x80) h in
    go s kept (ltb→lt a 0x80 low)
  where
    go : (s : Str) → (is_space a || a == b':') ≡ false → a < 0x80 → strip (a ∷ s) ≡ a ∷ strip s
    go [] e low = rw (strip, e) refl
    go (b ∷ []) e low = let n = not_two a b low in rw (strip, e, n) refl
    go (b ∷ c ∷ s) e low =
        let n = not_two a b low in let m = not_three a b c low in rw (strip, e, n, m) refl

strip-colon : (s : Str) → strip (b':' ∷ s) ≡ strip s
unfolding strip is_space
strip-colon [] = refl
strip-colon (b ∷ []) = refl
strip-colon (b ∷ c ∷ s) = refl

-- The digits of a byte are plain.
plain_ok : Bool → ℕ → Bool
plain_ok upper n = plain (get_or (digits upper n) 0 0) && plain (get_or (digits upper n) 1 0)

plain_table : (upper : Bool) → holds_under (plain_ok upper) 256 ≡ true
unfolding holds_under plain_ok upper_byte lower_byte is_space
plain_table true = refl
plain_table false = refl

digits-plain :
    (upper : Bool) (n : ℕ) → n < 256 → (plain (high upper n) ≡ true) × (plain (low upper n) ≡ true)
unfolding plain_ok
digits-plain upper n h =
    both (plain (high upper n)) (plain (low upper n))
      (holds_under_sound (plain_ok upper) 256 (plain_table upper) n h)

-- The digits of bytes, with or without colons between them.
abbrev pub hex_text : Bool → Bool → List ℕ → Str
hex_text upper colons [] = []
hex_text upper colons (b ∷ []) = high upper b ∷ low upper b ∷ []
hex_text upper colons (b ∷ c ∷ bs) =
    high upper b ∷ low upper b ∷ (if colons then b':' ∷ [] else [])
    ++ hex_text upper colons (c ∷ bs)

module _ (upper : Bool) where
  strip-hex_text :
      (colons : Bool) (bs : List ℕ)
      → All (λ b. b < 256) bs
      → strip (hex_text upper colons bs) ≡ flat upper bs
  unfolding strip
  strip-hex_text colons [] h = refl
  strip-hex_text colons (b ∷ []) (small, h) =
      let (p, q) = digits-plain upper b small in
      strip-plain (high upper b) (low upper b ∷ []) p
      ∙ ap (λ t. high upper b ∷ t) (strip-plain (low upper b) [] q)
  strip-hex_text true (b ∷ c ∷ bs) (small, h) =
      let (p, q) = digits-plain upper b small in
      let rest = hex_text upper true (c ∷ bs) in
      strip-plain (high upper b) (low upper b ∷ b':' ∷ rest) p
      ∙ ap (λ t. high upper b ∷ t)
          (strip-plain (low upper b) (b':' ∷ rest) q
            ∙ ap (λ t. low upper b ∷ t) (strip-colon rest ∙ strip-hex_text true (c ∷ bs) h))
  strip-hex_text false (b ∷ c ∷ bs) (small, h) =
      let (p, q) = digits-plain upper b small in
      let rest = hex_text upper false (c ∷ bs) in
      strip-plain (high upper b) (low upper b ∷ rest) p
      ∙ ap (λ t. high upper b ∷ t)
          (strip-plain (low upper b) rest q
            ∙ ap (λ t. low upper b ∷ t) (strip-hex_text false (c ∷ bs) h))

module _ (upper : Bool) where
  read_pairs-flat :
      (pre bs : List ℕ)
      → All (λ b. b < 256) bs
      → read_pairs (length bs) (length pre) (flat upper pre ++ flat upper bs) ≡ returned bs
  unfolding read_pairs
  read_pairs-flat pre [] h = refl
  read_pairs-flat pre (b ∷ bs) h =
      let slice = slice_pair-flat upper pre b bs h in
      let digit = from_str_radix-digits upper b h.0 in
      let moved : flat upper (pre ++ b ∷ []) ++ flat upper bs
          ≡ flat upper pre ++ flat upper (b ∷ bs) =
        rw (flat-append upper pre (b ∷ []))
          (append_assoc (flat upper pre) (flat upper (b ∷ [])) (flat upper bs)) in
      let count : length (pre ++ b ∷ []) ≡ length pre + 1 =
        omega (arith, length-append pre (b ∷ [])) in
      let rest : read_pairs (length bs) (length pre + 1) (flat upper pre ++ flat upper (b ∷ bs))
          ≡ returned bs =
        rw (moved, count) at (read_pairs-flat (pre ++ b ∷ []) bs h.1) in
      rw (read_pairs, slice, digit, rest) refl

  -- Bytes are read back from their digits, in upper or lower case, with or without colons between
  -- them.
  pub parse_hex-hex_text :
      (colons : Bool) (bs : List ℕ)
      → All (λ b. b < 256) bs
      → parse_hex (hex_text upper colons bs) ≡ returned bs
  unfolding parse_hex
  parse_hex-hex_text colons bs h =
      let stripped = strip-hex_text upper colons bs h in
      let size = length-flat upper bs in
      let even : (length bs * 2 % 2 == 0) ≡ true = ground arith in
      let pairs : length bs * 2 / 2 ≡ length bs = omega arith in
      rw (stripped, size, even, pairs) (read_pairs-flat [] bs h)
