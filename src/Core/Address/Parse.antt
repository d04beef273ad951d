-- ===== src/Core/Address/Parse.antt =====
-- What `BdAddr::from_str` accepts, and what it returns.
use pax.Prelude.{
  ℕ, zero, suc, ◌+◌, ◌*◌, ◌<◌, ◌≡◌, ◌↔◌, ◌∙◌, refl, sym, ap, ◌⊎◌, inl, inr, true, false, some, List,
  [], ◌∷◌, ◌++◌, append-nil, append_snoc, arith, ltb, ◌==◌, length, length-append, replicate, set,
  All, Bool-cases, Option-cases,
}
use pax.Str.{Str, hex_digit, scan_hex, from_str_radix, trim, split, contains_byte}
use pax.Core.Error.{ok}
use pax.Core.Address.{BdAddr, IsValid, parse_parts, separator, parse}

-- The parts and the octets that they spell: two bytes each, after trimming.
abbrev pub Reads : List Str → List ℕ → Type 0
Reads [] [] = Unit
Reads [] (b ∷ bs) = ⊥
Reads (p ∷ ps) [] = ⊥
Reads (p ∷ ps) (b ∷ bs) =
    (from_str_radix 256 (trim p) ≡ some b) × (length (trim p) ≡ 2) × Reads ps bs

scan_hex-lt : (s : Str) (n r : ℕ) → n < 256 → scan_hex 256 s n ≡ some r → r < 256
unfolding scan_hex
scan_hex-lt [] n r h e = ground arith
scan_hex-lt (c ∷ s) n r h e = elim (Option-cases (hex_digit c)) [
  | inl miss ↦ ground arith
  | inr (d, hit) ↦ elim (Bool-cases (ltb (n * 16 + d) 256)) [
    | inl small ↦ scan_hex-lt s (n * 16 + d) r (ground arith) (ground arith)
    | inr big ↦ ground arith
  ]
]

pub from_str_radix-lt : (s : Str) (r : ℕ) → from_str_radix 256 s ≡ some r → r < 256
unfolding from_str_radix
from_str_radix-lt [] r e = ground arith
from_str_radix-lt (c ∷ []) r e = ground (arith, scan_hex-lt (c ∷ []) 0 r)
from_str_radix-lt (c ∷ d ∷ s) r e =
    ground (arith, scan_hex-lt (d ∷ s) 0 r, scan_hex-lt (c ∷ d ∷ s) 0 r)

set-append :
    (done rest : List ℕ) (b : ℕ) → set (done ++ 0 ∷ rest) (length done) b ≡ (done ++ b ∷ []) ++ rest
set-append [] rest b = refl
set-append (x ∷ done) rest b = ap (◌∷◌ x) (set-append done rest b)

Reads-bytes : (ps : List Str) (bs : List ℕ) → Reads ps bs → All (λ b. b < 256) bs
Reads-bytes [] [] h = tt
Reads-bytes [] (b ∷ bs) h = absurd h
Reads-bytes (p ∷ ps) [] h = absurd h
Reads-bytes (p ∷ ps) (b ∷ bs) h = (from_str_radix-lt _ b h.0, Reads-bytes ps bs h.2)

module _ (s : Str) where
  parse_parts_complete :
      (ps : List Str) (bs done : List ℕ)
      → Reads ps bs
      → length done + length bs ≡ 6
      → parse_parts s ps (length done) (done ++ replicate (length bs) 0)
        ≡ ok (record { octets = done ++ bs })
  unfolding parse_parts
  parse_parts_complete [] [] done h n = ground arith
  parse_parts_complete [] (b ∷ bs) done h n = absurd h
  parse_parts_complete (p ∷ ps) [] done h n = absurd h
  parse_parts_complete (p ∷ ps) (b ∷ bs) done h n = ground (
    arith,
    set-append done (replicate (length bs) 0) b,
    length-append done (b ∷ []),
    append_snoc done b bs,
    parse_parts_complete ps bs (done ++ b ∷ []) h.2,
  )

  parse_parts_sound :
      (ps : List Str) (done : List ℕ) (k : ℕ) (a : BdAddr)
      → length done + k ≡ 6
      → parse_parts s ps (length done) (done ++ replicate k 0) ≡ ok a
      → (bs : List ℕ) × Reads ps bs × (a.octets ≡ done ++ bs) × (length bs ≡ k)
  unfolding parse_parts
  parse_parts_sound [] done k a n e = elim (Bool-cases (length done == 6)) [
    | inl full ↦
        let k0 : k ≡ 0 = ground arith in
        (
          [],
          tt,
          rw append-nil (ground (arith, ap (λ (m : ℕ). done ++ replicate m 0) k0, append-nil done)),
          sym k0,
        )
    | inr short ↦ absurd (ground arith)
  ]
  parse_parts_sound (p ∷ ps) done zero a n e = absurd (ground arith)
  parse_parts_sound (p ∷ ps) done (suc k) a n e =
      elim (Option-cases (from_str_radix 256 (trim p))) [
        | inl miss ↦ absurd (ground arith)
        | inr (b, hit) ↦ elim (Bool-cases (length (trim p) == 2)) [
          | inl two ↦
              let (bs, reads, octets, size) =
                parse_parts_sound ps (done ++ b ∷ []) k a
                  (ground (arith, length-append done (b ∷ [])))
                  (ground
                    (arith, length-append done (b ∷ []), set-append done (replicate k 0) b)) in
              (b ∷ bs, (hit, ground arith, reads), octets ∙ append_snoc done b bs, ap suc size)
          | inr odd ↦ absurd (ground arith)
        ]
      ]

-- The separator that the text chooses.
abbrev pub IsSeparator : ℕ → Str → Type 0
IsSeparator sep s =
    ((sep ≡ b':') × (contains_byte b':' s ≡ true))
    ⊎ ((sep ≡ b'-') × (contains_byte b':' s ≡ false) × (contains_byte b'-' s ≡ true))

separator_sound : (s : Str) (sep : ℕ) → separator s ≡ some sep → IsSeparator sep s
unfolding separator
separator_sound s sep e = ground arith

separator_complete : (s : Str) (sep : ℕ) → IsSeparator sep s → separator s ≡ some sep
unfolding separator
separator_complete s sep h = ground arith

-- A text is accepted as an address exactly when, split at colons if it has one and else at
-- dashes, it has six parts that are two bytes each after trimming and that `from_str_radix`
-- reads as the octets.
pub parse_iff :
    (s : Str) (a : BdAddr)
    → (parse s ≡ ok a)
      ↔ ((sep : ℕ) × IsSeparator sep s × Reads (split sep s) a.octets × (length a.octets ≡ 6))
unfolding parse
parse_iff s a = (to, from)
  where
    to :
        parse s ≡ ok a
        → (sep : ℕ) × IsSeparator sep s × Reads (split sep s) a.octets × (length a.octets ≡ 6)
    to e = elim (Option-cases (separator s)) [
      | inl miss ↦ absurd (ground arith)
      | inr (sep, hit) ↦
          let (bs, reads, octets, size) =
            parse_parts_sound s (split sep s) [] 6 a refl (ground arith) in
          (sep, separator_sound s sep hit, rw octets reads, rw octets size)
    ]

    from :
        (sep : ℕ) × IsSeparator sep s × Reads (split sep s) a.octets × (length a.octets ≡ 6)
        → parse s ≡ ok a
    from (sep, is_sep, reads, size) = ground (
      arith,
      separator_complete s sep is_sep,
      parse_parts_complete s (split sep s) a.octets [] reads (omega arith),
      ap (λ (n : ℕ). replicate {A = ℕ} n 0) size,
    )

-- An accepted address has six octets, each a byte.
pub parse-IsValid : (s : Str) (a : BdAddr) → parse s ≡ ok a → IsValid a
parse-IsValid s a e =
    let (sep, is_sep, reads, size) = (parse_iff s a).0 e in
    record { six = size; bytes = Reads-bytes (split sep s) a.octets reads }
