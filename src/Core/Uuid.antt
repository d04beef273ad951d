-- ===== src/Core/Uuid.antt =====
-- crates/pax-core/src/uuid.rs: 128-bit UUIDs, the expansion of short ones, and their text forms.
-- Slicing a `str` inside a character panics, so parsing has an outcome for that.
pub mod Pairs
pub mod Panics
pub mod RoundTrip
mod Tests
use pax.Prelude.{
  ℕ, zero, suc, ◌+◌, ◌-◌, ◌*◌, ◌/◌, ◌%◌, ◌^◌, ◌<◌, ◌≡◌, Bool, true, false, ◌&&◌, ◌||◌, Option, none,
  some, List, [], ◌∷◌, ◌++◌, ltb, leb, ◌==◌, if◌then◌else◌, length, set, get_or, get_elem?, take,
  drop, All, replicate, ℕ_discrete,
}
use pax.Str.{Str, codes, from_str_radix, lower_byte}
use pax.Core.Error.{Error, invalid, Result, ok, err}

pub record Uuid : Type 0 where
  pub bytes : List ℕ

pub Uuid-discrete : Discrete Uuid
Uuid-discrete = hlevel ℕ_discrete

-- The length and the range that the type `[u8; 16]` carries.
pub record IsValid (u : Uuid) : Type 0 where
  pub sixteen : length u.bytes ≡ 16
  pub in_range : All (λ b. b < 256) u.bytes

abbrev pub base : List ℕ
base =
    0x00 ∷ 0x00 ∷ 0x00 ∷ 0x00 ∷ 0x00 ∷ 0x00 ∷ 0x10 ∷ 0x00 ∷ 0x80 ∷ 0x00 ∷ 0x00 ∷ 0x80 ∷ 0x5F ∷ 0x9B
    ∷ 0x34 ∷ 0xFB ∷ []

-- `as u8` keeps the low eight bits.
unfoldable pub from_u32 : ℕ → Uuid
from_u32 short =
    let b0 = set base 0 (short / 2 ^ 24 % 256) in
    let b1 = set b0 1 (short / 2 ^ 16 % 256) in
    let b2 = set b1 2 (short / 2 ^ 8 % 256) in record { bytes = set b2 3 (short % 256) }

unfoldable pub from_u16 : ℕ → Uuid
unfolding from_u32
from_u16 short = from_u32 short

-- Two digits for each byte, with a hyphen in front of bytes 4, 6, 8 and 10.
unfoldable pub display_from : ℕ → List ℕ → Str
display_from i [] = []
display_from i (b ∷ bs) =
    (if i == 4 || i == 6 || i == 8 || i == 10 then b'-' ∷ lower_byte b else lower_byte b)
    ++ display_from (i + 1) bs

unfoldable pub display : Uuid → Str
unfolding display_from lower_byte
display u = display_from 0 u.bytes

-- A returned value, or a panic.
pub data Outcome {ℓ} (A : Type ℓ) : Type ℓ where
  returns : A → Outcome A
  panics : Outcome A

-- `s.chars().filter(|c| *c != '-').collect()`.
unfoldable pub strip : Str → Str
strip [] = []
strip (c ∷ s) = if c == b'-' then strip s else c ∷ strip s

-- `str::is_char_boundary` inside the text or at its end: not in front of a continuation byte.
unfoldable pub is_char_boundary : Str → ℕ → Bool
is_char_boundary s i = elim (get_elem? s i) [
  | none ↦ i == length s
  | some b ↦ ltb b 0x80 || leb 0xC0 b
]

-- `&s[i * 2..i * 2 + 2]`.
unfoldable pub slice_pair : Str → ℕ → Outcome Str
unfolding is_char_boundary
slice_pair s i =
    if is_char_boundary s (i * 2) && is_char_boundary s (i * 2 + 2)
    then returns (take 2 (drop (i * 2) s))
    else panics

-- The loop over `bytes.iter_mut().enumerate()`, with the number of rounds left; `none` is the
-- early return of `?`.
unfoldable pub read_bytes : ℕ → ℕ → Str → List ℕ → Outcome (Option (List ℕ))
read_bytes zero i s bytes = returns (some bytes)
read_bytes (suc k) i s bytes = elim (slice_pair s i) [
  | panics ↦ panics
  | returns pair ↦ elim (from_str_radix 256 pair) [
    | none ↦ returns none
    | some b ↦ read_bytes k (i + 1) s (set bytes i b)
  ]
]

-- `err(..)` of `from_str`; the detail quotes the text.
abbrev pub bad : Str → Error
bad s = invalid (codes "UUID") (codes "cannot parse `" ++ s ++ codes "`")

abbrev pub or_bad {ℓ} : {A : Type ℓ} → Str → Option A → Result A
or_bad s none = err (bad s)
or_bad s (some a) = ok a

abbrev map_ok {ℓ κ} : {A : Type ℓ} {B : Type κ} → (A → B) → Result A → Result B
map_ok f (ok a) = ok (f a)
map_ok f (err e) = err e

abbrev finish : Str → Outcome (Option (List ℕ)) → Outcome (Result Uuid)
finish s panics = panics
finish s (returns o) = returns (map_ok (λ b. record { bytes = b }) (or_bad s o))

unfoldable pub parse : Str → Outcome (Result Uuid)
unfolding strip from_str_radix from_u16 from_u32 read_bytes slice_pair
parse s =
    let stripped = strip s in
    if length stripped == 4
    then returns (map_ok from_u16 (or_bad s (from_str_radix (2 ^ 16) stripped)))
    else if length stripped == 8
    then returns (map_ok from_u32 (or_bad s (from_str_radix (2 ^ 32) stripped)))
    else if length stripped == 32
    then finish s (read_bytes 16 0 stripped (replicate 16 0))
    else returns (err (bad s))
