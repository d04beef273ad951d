-- ===== src/Str.antt =====
-- Rust's `str`, as the list of its UTF-8 bytes, and what the crates call of `str` and `String`:
-- `contains`, `split`, `trim`, `len` (the number of bytes), `from_str_radix` in base 16, and the
-- hexadecimal and decimal forms of `format!`.
use Prim.Native.Char.{code}
use Prim.Native.String.{String}
use mathlib.Core.List.{reverse}
use pax.Prelude.{
  ℕ, zero, suc, ◌+◌, ◌-◌, ◌*◌, ◌/◌, ◌%◌, Bool, true, false, ◌&&◌, ◌||◌, Option, none, some, List,
  [], ◌∷◌, ◌++◌, ltb, leb, ◌==◌, if◌then◌else◌, any, ℕ_discrete,
}

abbrev pub Str : Type 0
Str = List ℕ

-- The bytes of an ASCII literal.
abbrev pub codes : String → Str
codes String.[] = []
codes (String.◌∷◌ c s) = code c ∷ codes s

unfoldable pub Str-discrete : Discrete Str
unfolding ℕ_discrete
Str-discrete = hlevel ℕ_discrete

-- `str::contains` of one ASCII character.
unfoldable pub contains_byte : ℕ → Str → Bool
contains_byte b = any (λ c. c == b)

-- Whether the text begins with the bytes of the first argument.
unfoldable pub starts_with : Str → Str → Bool
starts_with [] t = true
starts_with (c ∷ s) [] = false
starts_with (c ∷ s) (d ∷ t) = c == d && starts_with s t

-- `str::contains` of a text.
unfoldable pub contains : Str → Str → Bool
unfolding starts_with
contains needle [] = starts_with needle []
contains needle (c ∷ s) = starts_with needle (c ∷ s) || contains needle s

-- `str::split` at an ASCII character: `cur` is the part read so far.
unfoldable pub split_from : ℕ → Str → Str → List Str
split_from sep cur [] = cur ∷ []
split_from sep cur (c ∷ s) = elim (c == sep) [
  | true ↦ cur ∷ split_from sep [] s
  | false ↦ split_from sep (cur ++ c ∷ []) s
]

unfoldable pub split : ℕ → Str → List Str
unfolding split_from
split sep s = split_from sep [] s

-- The one-byte white space: tab to carriage return, and space.
unfoldable pub is_space : ℕ → Bool
is_space c = (leb 9 c && leb c 13) || c == 32

-- The two-byte white space, U+0085 and U+00A0.
unfoldable pub is_space_two : ℕ → ℕ → Bool
is_space_two a b = a == 0xC2 && (b == 0x85 || b == 0xA0)

-- The three-byte white space: U+1680, U+2000 to U+200A, U+2028, U+2029, U+202F, U+205F, U+3000.
unfoldable pub is_space_three : ℕ → ℕ → ℕ → Bool
is_space_three a b c =
    (a == 0xE1 && b == 0x9A && c == 0x80)
    || (a == 0xE2
        && b == 0x80
        && ((leb 0x80 c && leb c 0x8A) || c == 0xA8 || c == 0xA9 || c == 0xAF))
    || (a == 0xE2 && b == 0x81 && c == 0x9F)
    || (a == 0xE3 && b == 0x80 && c == 0x80)

unfoldable pub trim_start : Str → Str
unfolding is_space is_space_two is_space_three
trim_start [] = []
trim_start (a ∷ []) = if is_space a then [] else a ∷ []
trim_start (a ∷ b ∷ []) =
    let one = trim_start (b ∷ []) in
    if is_space a then one else if is_space_two a b then [] else a ∷ b ∷ []
trim_start (a ∷ b ∷ c ∷ s) =
    let one = trim_start (b ∷ c ∷ s) in
    let two = trim_start (c ∷ s) in
    let three = trim_start s in
    if is_space a
    then one
    else if is_space_two a b
    then two
    else if is_space_three a b c
    then three
    else a ∷ b ∷ c ∷ s

-- `trim_start` over the bytes in reverse order.
unfoldable pub trim_end_reversed : Str → Str
unfolding is_space is_space_two is_space_three
trim_end_reversed [] = []
trim_end_reversed (a ∷ []) = if is_space a then [] else a ∷ []
trim_end_reversed (a ∷ b ∷ []) =
    let one = trim_end_reversed (b ∷ []) in
    if is_space a then one else if is_space_two b a then [] else a ∷ b ∷ []
trim_end_reversed (a ∷ b ∷ c ∷ s) =
    let one = trim_end_reversed (b ∷ c ∷ s) in
    let two = trim_end_reversed (c ∷ s) in
    let three = trim_end_reversed s in
    if is_space a
    then one
    else if is_space_two b a
    then two
    else if is_space_three c b a
    then three
    else a ∷ b ∷ c ∷ s

unfoldable pub trim : Str → Str
unfolding trim_start trim_end_reversed
trim s = reverse (trim_end_reversed (reverse (trim_start s)))

-- `char::to_digit(16)` of an ASCII byte.
unfoldable pub hex_digit : ℕ → Option ℕ
hex_digit c =
    if leb b'0' c && leb c b'9'
    then some (c - b'0')
    else if leb b'a' c && leb c b'f'
    then some (c - b'a' + 10)
    else if leb b'A' c && leb c b'F'
    then some (c - b'A' + 10)
    else none

-- The digits of `from_str_radix`, with the check that the value stays below `limit`.
unfoldable pub scan_hex : ℕ → Str → ℕ → Option ℕ
unfolding hex_digit
scan_hex limit [] n = some n
scan_hex limit (c ∷ s) n = elim (hex_digit c) [
  | none ↦ none
  | some d ↦ if ltb (n * 16 + d) limit then scan_hex limit s (n * 16 + d) else none
]

-- `uN::from_str_radix(s, 16)`, with `limit` = 2^N: an empty text and a lone sign are errors, and
-- one leading `+` is skipped.
unfoldable pub from_str_radix : ℕ → Str → Option ℕ
unfolding scan_hex
from_str_radix limit [] = none
from_str_radix limit (c ∷ []) = if c == b'+' then none else scan_hex limit (c ∷ []) 0
from_str_radix limit (c ∷ d ∷ s) =
    if c == b'+' then scan_hex limit (d ∷ s) 0 else scan_hex limit (c ∷ d ∷ s) 0

-- The digit of `{:X}`.
unfoldable pub upper_digit : ℕ → ℕ
upper_digit d = if ltb d 10 then b'0' + d else b'A' + (d - 10)

-- The digit of `{:x}`.
unfoldable pub lower_digit : ℕ → ℕ
lower_digit d = if ltb d 10 then b'0' + d else b'a' + (d - 10)

-- `{:02X}` of a byte.
unfoldable pub upper_byte : ℕ → Str
unfolding upper_digit
upper_byte n = upper_digit (n / 16) ∷ upper_digit (n % 16) ∷ []

-- `{:02x}` of a byte.
unfoldable pub lower_byte : ℕ → Str
unfolding lower_digit
lower_byte n = lower_digit (n / 16) ∷ lower_digit (n % 16) ∷ []

-- The decimal digits of a number, in front of `out`, on fuel.
unfoldable pub decimal_from : ℕ → ℕ → Str → Str
decimal_from zero n out = out
decimal_from (suc f) n out =
    let rest = decimal_from f (n / 10) ((b'0' + n % 10) ∷ out) in
    if ltb n 10 then (b'0' + n) ∷ out else rest

-- `{}` of an unsigned integer; a number has no more digits than its value plus one.
unfoldable pub decimal : ℕ → Str
unfolding decimal_from
decimal n = decimal_from (suc n) n []

-- The digits of `parse`, with the check that the value stays below `limit`.
unfoldable pub scan_decimal : ℕ → Str → ℕ → Option ℕ
scan_decimal limit [] n = some n
scan_decimal limit (c ∷ s) n =
    let m = n * 10 + (c - b'0') in
    elim (leb b'0' c && leb c b'9' && ltb m limit) [ true ↦ scan_decimal limit s m | false ↦ none ]

-- `parse` to an unsigned integer below `limit`: an empty text and a lone sign are errors, and one
-- leading `+` is skipped.
unfoldable pub parse_decimal : ℕ → Str → Option ℕ
unfolding scan_decimal
parse_decimal limit [] = none
parse_decimal limit (c ∷ []) = if c == b'+' then none else scan_decimal limit (c ∷ []) 0
parse_decimal limit (c ∷ d ∷ s) =
    if c == b'+' then scan_decimal limit (d ∷ s) 0 else scan_decimal limit (c ∷ d ∷ s) 0

-- `str::strip_prefix`.
unfoldable pub strip_prefix : Str → Str → Option Str
strip_prefix [] t = some t
strip_prefix (c ∷ s) [] = none
strip_prefix (c ∷ s) (d ∷ t) = let rest = strip_prefix s t in if c == d then rest else none
