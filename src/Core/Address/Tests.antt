-- ===== src/Core/Address/Tests.antt =====
-- Addresses at concrete inputs.
use pax.Prelude.{◌≡◌, ℕ, ◌↔◌, refl, true, false, none, [], ◌∷◌, arith, length}
use pax.Str.{codes, hex_digit, split}
use pax.Core.Error.{ok, to_option}
use pax.Core.Address.{BdAddr, IsValid, parse, display, is_locally_administered}
use pax.Core.Address.Parse.{Reads, IsSeparator, parse_iff}
use pax.Core.Address.RoundTrip.{form, parse-form}
use pax.Core.Address.Sign.{parse-plus}

abbrev csr : BdAddr
csr = record { octets = 0x00 ∷ 0x1A ∷ 0x7D ∷ 0xDA ∷ 0x71 ∷ 0x13 ∷ [] }

csr-IsValid : IsValid csr
csr-IsValid = omega arith

display-csr : display csr ≡ codes "00:1A:7D:DA:71:13"
unfolding display
display-csr = refl

rejects_malformed :
    (to_option (parse (codes "not-an-address")) ≡ none)
    × (to_option (parse (codes "00:1A:7D:DA:71")) ≡ none)
    × (to_option (parse (codes "00:1A:7D:DA:71:13:99")) ≡ none)
    × (to_option (parse (codes "0:1A:7D:DA:71:13")) ≡ none)
    × (to_option (parse (codes "ZZ:1A:7D:DA:71:13")) ≡ none)
unfolding parse
rejects_malformed = (refl, refl, refl, refl, refl)

parses_dashes : parse (codes "00-1a-7d-da-71-13") ≡ ok csr
unfolding parse
parses_dashes = refl

locally_administered :
    (is_locally_administered (record { octets = 0x02 ∷ 0 ∷ 0 ∷ 0 ∷ 0 ∷ 1 ∷ [] }) ≡ true)
    × (is_locally_administered csr ≡ false)
unfolding is_locally_administered
locally_administered = (refl, refl)

parse_iff_example : (parse (codes "00-1a-7d-da-71-13") ≡ ok csr) ↔ (
    (sep : ℕ) × IsSeparator sep (codes "00-1a-7d-da-71-13")
    × Reads (split sep (codes "00-1a-7d-da-71-13")) csr.octets
    × (length csr.octets ≡ 6))
parse_iff_example = parse_iff (codes "00-1a-7d-da-71-13") csr

parse-form_example : parse (form false false csr) ≡ ok csr
parse-form_example = parse-form false false csr csr-IsValid

parse-plus_example :
    to_option (parse (codes "+5:1A:7D:DA:71:13")) ≡ to_option (parse (codes "05:1A:7D:DA:71:13"))
unfolding hex_digit
parse-plus_example = parse-plus b'5' 5 (codes "1A:7D:DA:71:13") refl
