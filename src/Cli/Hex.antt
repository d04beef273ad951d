-- ===== src/Cli/Hex.antt =====
-- `parse_hex`: a payload in hexadecimal digits.
pub mod RoundTrip
use pax.Prelude.{
  ℕ, zero, suc, ◌+◌, ◌/◌, ◌%◌, true, false, ◌||◌, none, some, List, [], ◌∷◌, length, ◌==◌,
  if◌then◌else◌,
}
use pax.Str.{Str, codes, is_space, is_space_two, is_space_three, from_str_radix}
use pax.Core.Uuid.{slice_pair}
use pax.Core.Uuid
use pax.Cli.{parse_int, message, context, Outcome, returned, fails, panics}

-- `filter(|c| !c.is_whitespace() && *c != ':')`, over the bytes of the characters.
unfoldable pub strip : Str → Str
unfolding is_space is_space_two is_space_three
strip [] = []
strip (a ∷ []) = if is_space a || a == b':' then [] else a ∷ []
strip (a ∷ b ∷ []) = elim (is_space a || a == b':') [
  | true ↦ strip (b ∷ [])
  | false ↦ if is_space_two a b then [] else a ∷ strip (b ∷ [])
]
strip (a ∷ b ∷ c ∷ s) = elim (is_space a || a == b':') [
  | true ↦ strip (b ∷ c ∷ s)
  | false ↦ elim (is_space_two a b) [
    | true ↦ strip (c ∷ s)
    | false ↦ elim (is_space_three a b c) [ true ↦ strip s | false ↦ a ∷ strip (b ∷ c ∷ s) ]
  ]
]

abbrev pub cons_to : ℕ → Outcome (List ℕ) → Outcome (List ℕ)
cons_to b (returned bytes) = returned (b ∷ bytes)
cons_to b (fails e) = fails e
cons_to b panics = panics

-- The pairs from the one at `i` on, `k` of them; the first that is no number ends the loop, and a
-- slice inside a character panics.
unfoldable pub read_pairs : ℕ → ℕ → Str → Outcome (List ℕ)
unfolding slice_pair from_str_radix
read_pairs zero i s = returned []
read_pairs (suc k) i s = elim (slice_pair s i) [
  | pax.Core.Uuid.panics ↦ panics
  | pax.Core.Uuid.returns pair ↦ elim (from_str_radix 256 pair) [
    | none ↦ fails (context (codes "invalid hex") parse_int)
    | some b ↦ cons_to b (read_pairs k (i + 1) s)
  ]
]

unfoldable pub parse_hex : Str → Outcome (List ℕ)
unfolding strip read_pairs
parse_hex text =
    let s = strip text in
    if length s % 2 == 0
    then read_pairs (length s / 2) 0 s
    else fails (message (codes "hex payload must have an even number of digits"))
