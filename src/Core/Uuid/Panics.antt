-- ===== src/Core/Uuid/Panics.antt =====
-- Texts on which parsing a UUID panics.
use pax.Prelude.{ℕ, suc, List, replicate, ◌≡◌, refl, false, true, ◌&&◌, Bool, length}
use pax.Str.{Str}
use pax.Core.Uuid.{parse, panics, strip, is_char_boundary, slice_pair, read_bytes}

and_false : (a : Bool) → (a && false) ≡ false
and_false true = refl
and_false false = refl

slice_pair-panics : (t : Str) → is_char_boundary t 2 ≡ false → slice_pair t 0 ≡ panics
unfolding slice_pair
slice_pair-panics t split = rw split (rw (and_false (is_char_boundary t 0)) refl)

read_bytes-panics :
    (k : ℕ) (t : Str) (bytes : List ℕ)
    → is_char_boundary t 2 ≡ false
    → read_bytes (suc k) 0 t bytes ≡ panics
unfolding read_bytes
read_bytes-panics k t bytes split = rw (slice_pair-panics t split, read_bytes) refl

-- A text of 32 bytes, hyphens aside, in which a character lies across the second and the third
-- byte makes the parser of UUIDs panic.
pub parse-panics :
    (s : Str) → length (strip s) ≡ 32 → is_char_boundary (strip s) 2 ≡ false → parse s ≡ panics
unfolding parse
parse-panics s size split =
    rw size (rw (read_bytes-panics 15 (strip s) (replicate 16 0) split) refl)
