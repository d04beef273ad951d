-- ===== src/Core/Uuid/RoundTrip.antt =====
-- A UUID is read back from its digits.
use pax.Prelude.{
  ℕ, ◌+◌, ◌<◌, ◌≡◌, refl, ap, ◌∙◌, sym, Bool, true, false, ◌&&◌, ◌||◌, some, List, [], ◌∷◌, ◌++◌,
  length, set, replicate, ◌==◌, if◌then◌else◌, All, arith, append_assoc, append_snoc, length-append,
  Bool-cases, inl, inr,
}
use pax.Str.{Str}
use pax.Core.Error.{ok}
use pax.Core.Address.RoundTrip.{from_str_radix-digits}
use pax.Core.Uuid.{Uuid, IsValid, returns, parse, display, display_from, strip, read_bytes}
use pax.Core.Uuid.Pairs.{
  high, low, digits-two, clean, digits-clean, flat, length-flat, flat-append, slice_pair-flat,
}

-- The digits of bytes, the first of them at `i`, with hyphens where `Display` has them or without.
unfoldable pub written_from : Bool → Bool → ℕ → List ℕ → Str
written_from upper hyphens i [] = []
written_from upper hyphens i (b ∷ bs) =
    (if hyphens && (i == 4 || i == 6 || i == 8 || i == 10) then b'-' ∷ [] else [])
    ++ high upper b ∷ low upper b ∷ written_from upper hyphens (i + 1) bs

abbrev pub written : Bool → Bool → Uuid → Str
written upper hyphens u = written_from upper hyphens 0 u.bytes

display_from-written : (i : ℕ) (bs : List ℕ) → display_from i bs ≡ written_from false true i bs
unfolding display_from written_from
display_from-written i [] = refl
display_from-written i (b ∷ bs) = elim (Bool-cases (i == 4 || i == 6 || i == 8 || i == 10)) [
  | inl h ↦ rw (h, digits-two false b, display_from-written (i + 1) bs) refl
  | inr h ↦ rw (h, digits-two false b, display_from-written (i + 1) bs) refl
]

strip-clean : (a : ℕ) (s : Str) → clean a ≡ true → strip (a ∷ s) ≡ a ∷ strip s
unfolding strip
strip-clean a s h = let kept : (a == b'-') ≡ false = ground arith in rw (strip, kept) refl

strip-written :
    (upper hyphens : Bool) (i : ℕ) (bs : List ℕ)
    → All (λ b. b < 256) bs
    → strip (written_from upper hyphens i bs) ≡ flat upper bs
unfolding written_from strip
strip-written upper hyphens i [] h = refl
strip-written upper hyphens i (b ∷ bs) (small, h) =
    let (p, q) = digits-clean upper b small in
    let rest = written_from upper hyphens (i + 1) bs in
    let pair : strip (high upper b ∷ low upper b ∷ rest) ≡ flat upper (b ∷ bs) =
      strip-clean (high upper b) (low upper b ∷ rest) p
      ∙ ap (λ t. high upper b ∷ t)
          (strip-clean (low upper b) rest q
            ∙ ap (λ t. low upper b ∷ t) (strip-written upper hyphens (i + 1) bs h)) in
    elim (Bool-cases (hyphens && (i == 4 || i == 6 || i == 8 || i == 10))) [
      | inl c ↦ rw c pair
      | inr c ↦ rw c pair
    ]

set-past :
    (pre : List ℕ) (z b : ℕ) (zs : List ℕ)
    → set (pre ++ z ∷ zs) (length pre) b ≡ (pre ++ b ∷ []) ++ zs
set-past [] z b zs = refl
set-past (x ∷ pre) z b zs = ap (λ l. x ∷ l) (set-past pre z b zs)

module _ (upper : Bool) where
  read_bytes-flat :
      (pre bs zs : List ℕ)
      → All (λ b. b < 256) bs
      → length zs ≡ length bs
      → read_bytes (length bs) (length pre) (flat upper pre ++ flat upper bs) (pre ++ zs)
        ≡ returns (some (pre ++ bs))
  unfolding read_bytes
  read_bytes-flat pre [] [] h same = refl
  read_bytes-flat pre [] (z ∷ zs) h same = absurd (omega arith)
  read_bytes-flat pre (b ∷ bs) [] h same = absurd (omega arith)
  read_bytes-flat pre (b ∷ bs) (z ∷ zs) h same =
      let slice = slice_pair-flat upper pre b bs h in
      let digit = from_str_radix-digits upper b h.0 in
      let moved : flat upper (pre ++ b ∷ []) ++ flat upper bs
          ≡ flat upper pre ++ flat upper (b ∷ bs) =
        rw (flat-append upper pre (b ∷ []))
          (append_assoc (flat upper pre) (flat upper (b ∷ [])) (flat upper bs)) in
      let count : length (pre ++ b ∷ []) ≡ length pre + 1 =
        omega (arith, length-append pre (b ∷ [])) in
      let rest = read_bytes-flat (pre ++ b ∷ []) bs zs h.1 (omega (arith, same)) in
      rw (read_bytes, slice, digit, set-past pre z b zs)
        ((rw (moved, count) at rest) ∙ ap (λ l. returns (some l)) (append_snoc pre b bs))

  -- A UUID is read back from its 32 digits, in upper or lower case, with the four
  -- hyphens or without; `Display` writes the lower-case form with hyphens.
  pub parse-written :
      (hyphens : Bool) (u : Uuid)
      → IsValid u
      → (parse (written upper hyphens u) ≡ returns (ok u)) × (display u ≡ written false true u)
  unfolding parse display
  parse-written hyphens u v =
      let stripped = strip-written upper hyphens 0 u.bytes v.in_range in
      let size : length (flat upper u.bytes) ≡ 32 =
        omega (arith, length-flat upper u.bytes, v.sixteen) in
      let zeros : List ℕ = replicate 16 0 in
      let read = read_bytes-flat [] u.bytes zeros v.in_range (sym v.sixteen) in
      let read16 : read_bytes 16 0 (flat upper u.bytes) zeros ≡ returns (some u.bytes) =
        rw v.sixteen at read in
      (rw (parse, stripped, size, read16) refl, display_from-written 0 u.bytes)
