-- ===== src/Core/Address/Sign.antt =====
-- The sign that `from_str_radix` lets through, and what becomes of it in an address.
use pax.Prelude.{
  ℕ, ◌+◌, ◌<◌, ◌≡◌, ◌≢◌, ◌∙◌, refl, sym, ap, Bool, true, false, ◌||◌, none, some, List, [], ◌∷◌,
  arith, if◌then◌else◌, length, set, is_yes, holds_under, holds_under_sound, yes_of_is_yes,
  Option-cases, inl, inr,
}
use pax.Str.{Str, Str-discrete, from_str_radix, hex_digit, trim, split, split_from, contains_byte}
use pax.Core.Error.{to_option}
use pax.Core.Address.{parse, parse_parts, separator, nil_octets}

-- The message aside, the loop does not depend on the whole text.
parse_parts_message :
    (s t : Str) (ps : List Str) (count : ℕ) (octets : List ℕ)
    → to_option (parse_parts s ps count octets) ≡ to_option (parse_parts t ps count octets)
unfolding parse_parts
parse_parts_message s t [] count octets = ground arith
parse_parts_message s t (p ∷ ps) count octets = elim (Option-cases (from_str_radix 256 (trim p))) [
  | inl miss ↦ ground arith
  | inr (b, hit) ↦ ground (arith, parse_parts_message s t ps (count + 1) (set octets count b))
]

keeps : ℕ → ℕ → Bool
keeps c d =
    is_yes (Str-discrete (trim (c ∷ d ∷ [])) (c ∷ d ∷ []))
    || elim (hex_digit d) [ none ↦ true | some v ↦ false ]

keeps_table : (c : Bool) → holds_under (keeps (if c then b'+' else b'0')) 256 ≡ true
unfolding holds_under keeps Str-discrete trim hex_digit
keeps_table true = refl
keeps_table false = refl

digit-lt : (d v : ℕ) → hex_digit d ≡ some v → d < 256
unfolding hex_digit
digit-lt d v h = ground arith

trim-pair :
    (c : Bool) (d v : ℕ)
    → hex_digit d ≡ some v
    → let s = (if c then b'+' else b'0') ∷ d ∷ [] in trim s ≡ s
unfolding keeps
trim-pair c d v h = yes_of_is_yes (Str-discrete _ _) (
    ground (
      arith,
      holds_under_sound (keeps (if c then b'+' else b'0')) 256 (keeps_table c) d (digit-lt d v h),
    ))

radix-plus :
    (d v : ℕ)
    → hex_digit d ≡ some v
    → from_str_radix 256 (b'+' ∷ d ∷ []) ≡ from_str_radix 256 (b'0' ∷ d ∷ [])
unfolding from_str_radix hex_digit
radix-plus d v h = ground arith

parse_two :
    (c d : ℕ) (rest : Str)
    → c ≢ b':'
    → d ≢ b':'
    → parse (c ∷ d ∷ b':' ∷ rest)
      ≡ parse_parts (c ∷ d ∷ b':' ∷ rest) ((c ∷ d ∷ []) ∷ split b':' rest) 0 nil_octets
unfolding parse separator contains_byte split split_from
parse_two c d rest hc hd = ground arith

first_part :
    (s t p q : Str) (ps : List Str)
    → from_str_radix 256 (trim p) ≡ from_str_radix 256 (trim q)
    → length (trim p) ≡ length (trim q)
    → to_option (parse_parts s (p ∷ ps) 0 nil_octets)
      ≡ to_option (parse_parts t (q ∷ ps) 0 nil_octets)
unfolding parse_parts
first_part s t p q ps radix size = elim (Option-cases (from_str_radix 256 (trim q))) [
  | inl miss ↦ ground arith
  | inr (b, hit) ↦ ground (arith, parse_parts_message s t ps 1 (set nil_octets 0 b))
]

not-colon : (d v : ℕ) → hex_digit d ≡ some v → d ≢ b':'
unfolding hex_digit
not-colon d v h = ground arith

-- A text that begins with `+d:`, for a hexadecimal digit `d`, is accepted as the address that the
-- text with `0d:` in its place gives, or refused with it: the part need not be two digits.
pub parse-plus :
    (d v : ℕ) (rest : Str)
    → hex_digit d ≡ some v
    → to_option (parse (b'+' ∷ d ∷ b':' ∷ rest)) ≡ to_option (parse (b'0' ∷ d ∷ b':' ∷ rest))
parse-plus d v rest h =
    rw
      (
        parse_two b'+' d rest (omega arith) (not-colon d v h),
        parse_two b'0' d rest (omega arith) (not-colon d v h),
      )
      (first_part _ _ _ _ (split b':' rest)
        (cc (trim-pair true d v h, trim-pair false d v h, radix-plus d v h))
        (ap length (trim-pair true d v h) ∙ sym (ap length (trim-pair false d v h))))
