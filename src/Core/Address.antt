-- ===== src/Core/Address.antt =====
-- crates/pax-core/src/address.rs: the 48-bit device address, its text forms and its flags.
pub mod Parse
pub mod RoundTrip
pub mod Sign
mod Tests
use Prim.Native.Nat.{bit_and}
use pax.Prelude.{
  ℕ, suc, ◌+◌, ◌<◌, ◌≡◌, Bool, true, false, ◌&&◌, not, Option, none, some, List, [], ◌∷◌, ◌++◌, ltb,
  leb, ◌==◌, if◌then◌else◌, length, set, get_or, All, ℕ_discrete, is_yes,
}
use pax.Str.{Str, codes, contains_byte, split, trim, from_str_radix, upper_byte}
use pax.Core.Error.{Error, invalid_address, Result, ok, err}

-- Six octets in transmission order, the most significant first.
pub record BdAddr : Type 0 where
  pub octets : List ℕ

-- The length and the range that the type `[u8; 6]` carries.
pub record IsValid (a : BdAddr) : Type 0 where
  pub six : length a.octets ≡ 6
  pub bytes : All (λ b. b < 256) a.octets

abbrev pub nil_octets : List ℕ
nil_octets = 0 ∷ 0 ∷ 0 ∷ 0 ∷ 0 ∷ 0 ∷ []

unfoldable pub nil : BdAddr
nil = record { octets = nil_octets }

pub oui : BdAddr → List ℕ
oui a = get_or a.octets 0 0 ∷ get_or a.octets 1 0 ∷ get_or a.octets 2 0 ∷ []

pub BdAddr-discrete : Discrete BdAddr
BdAddr-discrete = hlevel ℕ_discrete

pub is_nil : BdAddr → Bool
is_nil a = is_yes (BdAddr-discrete a (record { octets = nil_octets }))

unfoldable pub is_locally_administered : BdAddr → Bool
is_locally_administered a = not (bit_and (get_or a.octets 0 0) 2 == 0)

unfoldable pub join : ℕ → List Str → Str
join sep [] = []
join sep (p ∷ []) = p
join sep (p ∷ q ∷ ps) = p ++ sep ∷ join sep (q ∷ ps)

-- `Display`: six pairs of upper-case digits with colons between.
unfoldable pub display : BdAddr → Str
unfolding join upper_byte
display a = join b':' (
    upper_byte (o 0)
    ∷ upper_byte (o 1)
    ∷ upper_byte (o 2)
    ∷ upper_byte (o 3)
    ∷ upper_byte (o 4)
    ∷ upper_byte (o 5)
    ∷ [])
  where
    o : ℕ → ℕ
    o i = get_or a.octets i 0

-- The loop over the parts: `octets` is written in place at `count`.
parse_parts : Str → List Str → ℕ → List ℕ → Result BdAddr
parse_parts s [] count octets =
    if count == 6 then ok (record { octets = octets }) else err (invalid_address s)
parse_parts s (part ∷ parts) count octets =
    if leb 6 count then err (invalid_address s) else elim (from_str_radix 256 (trim part)) [
      | none ↦ err (invalid_address s)
      | some byte ↦
          if length (trim part) == 2
          then parse_parts s parts (count + 1) (set octets count byte)
          else err (invalid_address s)
    ]

-- `sep` of `from_str`.
separator : Str → Option ℕ
unfolding contains_byte
separator s =
    if contains_byte b':' s then some b':' else if contains_byte b'-' s then some b'-' else none

unfoldable pub parse : Str → Result BdAddr
unfolding separator parse_parts split trim from_str_radix
parse s = elim (separator s) [
  | none ↦ err (invalid_address s)
  | some sep ↦ parse_parts s (split sep s) 0 nil_octets
]

pub data AddressType : Type 0 where
  is_public is_random : AddressType

unfoldable pub display_type : AddressType → Str
display_type is_public = codes "public"
display_type is_random = codes "random"
