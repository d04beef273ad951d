-- ===== src/Core/Address/RoundTrip.antt =====
-- Printing an address and parsing it back.
use pax.Prelude.{
  ℕ, ◌<◌, ◌≡◌, ◌≢◌, ◌∙◌, refl, sym, ap, inl, inr, Bool, true, false, ◌||◌, Option, some, List, [],
  ◌∷◌, ◌++◌, map, append_assoc, append-nil, arith, length, All, is_yes, ℕ_discrete, holds_under,
  holds_under_sound, yes_of_is_yes,
}
use pax.Str.{
  Str, Str-discrete, from_str_radix, trim, upper_byte, lower_byte, split, split_from, contains_byte,
}
use pax.Core.Error.{ok}
use pax.Core.Address.{BdAddr, IsValid, display, parse, join}
use pax.Core.Address.Parse.{Reads, parse_iff, IsSeparator}

-- The two ways to write a byte.
abbrev pub digits : Bool → ℕ → Str
digits true n = upper_byte n
digits false n = lower_byte n

abbrev pub mark : Bool → ℕ
mark true = b':'
mark false = b'-'

-- An address in upper or lower case, with colons or with dashes.
pub form : Bool → Bool → BdAddr → Str
form upper colons a = join (mark colons) (map (digits upper) a.octets)

Option-discrete : Discrete (Option ℕ)
Option-discrete = hlevel ℕ_discrete

trim_ok : Bool → ℕ → Bool
trim_ok upper n = is_yes (Str-discrete (trim (digits upper n)) (digits upper n))

radix_ok : Bool → ℕ → Bool
radix_ok upper n = is_yes (Option-discrete (from_str_radix 256 (digits upper n)) (some n))

trim_table : (upper : Bool) → holds_under (trim_ok upper) 256 ≡ true
unfolding holds_under trim_ok Str-discrete trim upper_byte lower_byte
trim_table true = refl
trim_table false = refl

radix_table : (upper : Bool) → holds_under (radix_ok upper) 256 ≡ true
unfolding holds_under radix_ok Option-discrete ℕ_discrete from_str_radix upper_byte lower_byte
radix_table true = refl
radix_table false = refl

trim-digits : (upper : Bool) (n : ℕ) → n < 256 → trim (digits upper n) ≡ digits upper n
unfolding trim_ok
trim-digits upper n h =
    yes_of_is_yes (Str-discrete _ _) (holds_under_sound (trim_ok upper) 256 (trim_table upper) n h)

pub from_str_radix-digits :
    (upper : Bool) (n : ℕ) → n < 256 → from_str_radix 256 (digits upper n) ≡ some n
unfolding radix_ok
from_str_radix-digits upper n h =
    yes_of_is_yes (Option-discrete _ _)
      (holds_under_sound (radix_ok upper) 256 (radix_table upper) n h)

length-digits : (upper : Bool) (n : ℕ) → length (digits upper n) ≡ 2
unfolding upper_byte lower_byte
length-digits true n = refl
length-digits false n = refl

abbrev pub Lacks : ℕ → Str → Type 0
Lacks b = All (λ c. c ≢ b)

digits-Lacks : (upper colons : Bool) (n : ℕ) → n < 256 → Lacks (mark colons) (digits upper n)
unfolding upper_byte lower_byte
digits-Lacks true true n h = (ground arith, (ground arith, tt))
digits-Lacks true false n h = (ground arith, (ground arith, tt))
digits-Lacks false true n h = (ground arith, (ground arith, tt))
digits-Lacks false false n h = (ground arith, (ground arith, tt))

split_from-append :
    (sep : ℕ) (p cur rest : Str)
    → Lacks sep p
    → split_from sep cur (p ++ rest) ≡ split_from sep (cur ++ p) rest
unfolding split_from
split_from-append sep [] cur rest h = rw append-nil
split_from-append sep (c ∷ p) cur rest h =
    ground (arith, split_from-append sep p (cur ++ c ∷ []) rest h.1, append_assoc cur (c ∷ []) p)

split_from-sep :
    (sep : ℕ) (cur rest : Str) → split_from sep cur (sep ∷ rest) ≡ cur ∷ split_from sep [] rest
unfolding split_from
split_from-sep sep cur rest = ground arith

-- Splitting a join gives the parts back.
pub split-join :
    (sep : ℕ) (p : Str) (ps : List Str)
    → Lacks sep p
    → All (Lacks sep) ps
    → split sep (join sep (p ∷ ps)) ≡ p ∷ ps
unfolding split join
split-join sep p [] h hs = unfold split_from in split-one
  where
    split-one : split_from sep [] p ≡ p ∷ []
    split-one = ap (split_from sep []) (sym (append-nil p)) ∙ split_from-append sep p [] [] h
split-join sep p (q ∷ ps) h hs =
    rw (split_from-append sep p [] _ h, split_from-sep sep p _)
      (ap (◌∷◌ p) (split-join sep q ps hs.0 hs.1))

Reads-digits :
    (upper : Bool) (bs : List ℕ) → All (λ b. b < 256) bs → Reads (map (digits upper) bs) bs
Reads-digits upper [] h = tt
Reads-digits upper (b ∷ bs) h = (
  rw (trim-digits upper b h.0) (from_str_radix-digits upper b h.0),
  rw (trim-digits upper b h.0) (length-digits upper b),
  Reads-digits upper bs h.1,
)

parts-Lack :
    (upper colons : Bool) (bs : List ℕ)
    → All (λ b. b < 256) bs
    → All (Lacks (mark colons)) (map (digits upper) bs)
parts-Lack upper colons [] h = tt
parts-Lack upper colons (b ∷ bs) h =
    (digits-Lacks upper colons b h.0, parts-Lack upper colons bs h.1)

contains_byte-append :
    (b : ℕ) (s t : Str) → contains_byte b (s ++ t) ≡ (contains_byte b s || contains_byte b t)
unfolding contains_byte
contains_byte-append b [] t = refl
contains_byte-append b (c ∷ s) t = ground (arith, contains_byte-append b s t)

contains_byte-Lacks : (b : ℕ) (s : Str) → Lacks b s → contains_byte b s ≡ false
unfolding contains_byte
contains_byte-Lacks b [] h = refl
contains_byte-Lacks b (c ∷ s) h = ground (arith, contains_byte-Lacks b s h.1)

dash_skip : (t : Str) → contains_byte b':' (b'-' ∷ t) ≡ contains_byte b':' t
unfolding contains_byte
dash_skip t = refl

-- A join of parts that hold neither separator shows which one was used.
join-Lacks_colon : (ps : List Str) → All (Lacks b':') ps → contains_byte b':' (join b'-' ps) ≡ false
unfolding join
join-Lacks_colon [] h = unfold contains_byte in refl
join-Lacks_colon (p ∷ []) h = contains_byte-Lacks b':' p h.0
join-Lacks_colon (p ∷ q ∷ ps) h =
    rw (contains_byte-append b':' p _, contains_byte-Lacks b':' p h.0)
      (dash_skip _ ∙ join-Lacks_colon (q ∷ ps) h.1)

contains_byte-join :
    (sep : ℕ) (p q : Str) (ps : List Str) → contains_byte sep (join sep (p ∷ q ∷ ps)) ≡ true
unfolding join contains_byte
contains_byte-join sep p q ps = contains_byte-append sep p (sep ∷ join sep (q ∷ ps)) ∙ ground arith

module _ (upper : Bool) (b c : ℕ) (bs : List ℕ) (h : All (λ x. x < 256) (b ∷ c ∷ bs)) where
  join-IsSeparator :
      (colons : Bool)
      → IsSeparator (mark colons) (join (mark colons) (map (digits upper) (b ∷ c ∷ bs)))
  join-IsSeparator true = inl (refl, contains_byte-join b':' _ _ _)
  join-IsSeparator false = inr (
    refl,
    join-Lacks_colon (map (digits upper) (b ∷ c ∷ bs)) (parts-Lack upper true (b ∷ c ∷ bs) h),
    contains_byte-join b'-' _ _ _,
  )

-- What `parse_iff` asks of a written form.
form-Reads :
    (upper colons : Bool) (bs : List ℕ)
    → length bs ≡ 6
    → All (λ b. b < 256) bs
    → let s = join (mark colons) (map (digits upper) bs) in
      IsSeparator (mark colons) s × Reads (split (mark colons) s) bs
form-Reads upper colons [] n h = absurd (omega arith)
form-Reads upper colons (b ∷ []) n h = absurd (omega arith)
form-Reads upper colons (b ∷ c ∷ bs) n h =
    let lack = parts-Lack upper colons (b ∷ c ∷ bs) h in
    (
      join-IsSeparator upper b c bs h colons,
      rw (split-join (mark colons) (digits upper b) (map (digits upper) (c ∷ bs)) lack.0 lack.1)
          (Reads-digits upper (b ∷ c ∷ bs) h),
    )

-- Every address is read back from each of its four written forms: upper or lower case, with
-- colons or with dashes.
pub parse-form : (upper colons : Bool) (a : BdAddr) → IsValid a → parse (form upper colons a) ≡ ok a
unfolding form
parse-form upper colons a v =
    let (is_sep, reads) = form-Reads upper colons a.octets v.six v.bytes in
    (parse_iff _ a).1 (mark colons, is_sep, reads, v.six)

display_six :
    (bs : List ℕ)
    → length bs ≡ 6
    → display (record { octets = bs }) ≡ form true true (record { octets = bs })
unfolding display form
display_six (a ∷ b ∷ c ∷ d ∷ e ∷ f ∷ []) n = refl
display_six _ n = absurd (omega arith)

-- `Display` writes the upper-case form with colons, so it is read back.
pub parse-display : (a : BdAddr) → IsValid a → parse (display a) ≡ ok a
parse-display a v = rw (display_six a.octets v.six) (parse-form true true a v)
