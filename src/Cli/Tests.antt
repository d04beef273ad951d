-- ===== src/Cli/Tests.antt =====
-- The command line tool at concrete inputs.
use pax.Prelude.{false, true, arith, ◌≡◌, refl, [], ◌∷◌}
use pax.Str.{codes}
use pax.Cli.{returned, fails, panics, message}
use pax.Cli.Hex.{parse_hex}
use pax.Cli.Hex.RoundTrip.{hex_text, parse_hex-hex_text}

parse_hex_colons : parse_hex (codes "01:fF 7a") ≡ returned (0x01 ∷ 0xFF ∷ 0x7A ∷ [])
unfolding parse_hex
parse_hex_colons = refl

parse_hex_odd :
    parse_hex (codes "123")
    ≡ fails (message (codes "hex payload must have an even number of digits"))
unfolding parse_hex
parse_hex_odd = refl

-- A character of two bytes across the boundary of two pairs.
parse_hex_panics : parse_hex (b'1' ∷ 0xC3 ∷ 0xA9 ∷ b'1' ∷ []) ≡ panics
unfolding parse_hex
parse_hex_panics = refl

parse_hex-hex_text_example :
    parse_hex (hex_text false true (0x01 ∷ 0xFF ∷ [])) ≡ returned (0x01 ∷ 0xFF ∷ [])
parse_hex-hex_text_example =
    parse_hex-hex_text false true (0x01 ∷ 0xFF ∷ []) (omega arith, (omega arith, tt))
