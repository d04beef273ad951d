-- ===== src/Transport/Obex/Puts.antt =====
-- What the client sends when `put_file` succeeds, and that it always ends.
use pax.Prelude.{
  ℕ, zero, suc, ◌+◌, ◌-◌, ◌≤◌, ◌<◌, ◌≡◌, ◌⊎◌, inl, inr, refl, ap, sym, ◌∙◌, Bool, true, false,
  Option, some, List, [], ◌∷◌, ◌++◌, append-nil, min, max, leb, leb→le, ◌==◌, ==_iff, length, take,
  drop, take-append-drop, length-take, length-drop, Bool-cases, arith,
}
use pax.Str.{codes}
use pax.Transport.Obex.{
  Stream, Response, ObexError, rejected, Result, ok, err, resp_continue, resp_success, put_packet,
  chunk_cap, exchange, acknowledge, put_loop, put_file,
}

drop-nil : {A : Type 0} (n : ℕ) → drop {A = A} n [] ≡ []
drop-nil zero = refl
drop-nil (suc n) = refl

drop_add : {A : Type 0} (m n : ℕ) (xs : List A) → drop (m + n) xs ≡ drop n (drop m xs)
drop_add zero n xs = let e : 0 + n ≡ n = omega arith in rw e refl
drop_add (suc m) n [] = let e : suc m + n ≡ suc (m + n) = omega arith in rw e (sym (drop-nil n))
drop_add (suc m) n (x ∷ xs) =
    let e : suc m + n ≡ suc (m + n) = omega arith in rw e (drop_add m n xs)

take-all : {A : Type 0} (n : ℕ) (xs : List A) → length xs ≤ n → take n xs ≡ xs
take-all zero [] h = refl
take-all zero (x ∷ xs) h = elim h [ ]
take-all (suc n) [] h = refl
take-all (suc n) (x ∷ xs) h = ap (λ l. x ∷ l) (take-all n xs (omega arith))

answered :
    {S E A : Type 0} (p : Result E A × S)
    → ((a : A) × (p.0 ≡ ok a) × (p ≡ (ok a, p.1)))
      ⊎ ((e : ObexError E) × (p.0 ≡ err e) × (p ≡ (err e, p.1)))
answered (ok a, s) = inl (a, refl, refl)
answered (err e, s) = inr (e, refl, refl)

-- A packet that is not the last moves on.
forward :
    (offset total cap fuel : ℕ)
    → leb total (offset + min (total - offset) (max cap 1)) ≡ false
    → total < offset + suc fuel
    → total < offset + min (total - offset) (max cap 1) + fuel
forward offset total cap fuel more h = ground arith

within : (offset size total : ℕ) → leb total (offset + size) ≡ false → offset + size ≤ total
within offset size total more = ground arith

-- The bodies, one after the other.
unfoldable pub join : List (List ℕ) → List ℕ
join [] = []
join (b ∷ bs) = b ++ join bs

module _ {S E : Type 0} (stream : Stream S E) (max_packet : ℕ) (name_payload bytes : List ℕ) where
  -- The packets with these bodies go out from `s` to `s'`, the first with the name and the
  -- length: no body exceeds its capacity, every packet but the last is answered by Continue, and
  -- the last, which is marked as final, by Success.
  unfoldable pub Pushed : Bool → List (List ℕ) → S → S → Type 0
  Pushed first [] s s' = ⊥
  Pushed first (body ∷ []) s s' =
      (length body ≤ chunk_cap first max_packet (length name_payload))
      × ((r : Response) × (exchange stream (put_packet first true name_payload (length bytes) body)
              s
            ≡ (ok r, s'))
          × (r.code ≡ resp_success))
  Pushed first (body ∷ next ∷ bodies) s s' =
      (length body ≤ chunk_cap first max_packet (length name_payload))
      × ((r : Response) × (s1 : S) × (exchange stream
              (put_packet first false name_payload (length bytes) body) s
            ≡ (ok r, s1))
          × (r.code ≡ resp_continue)
          × Pushed false (next ∷ bodies) s1 s')

  Pushed-cons :
      (first : Bool) (body : List ℕ) (bodies : List (List ℕ)) (s s1 s' : S) (r : Response)
      → length body ≤ chunk_cap first max_packet (length name_payload)
      → exchange stream (put_packet first false name_payload (length bytes) body) s ≡ (ok r, s1)
      → r.code ≡ resp_continue
      → Pushed false bodies s1 s'
      → Pushed first (body ∷ bodies) s s'
  unfolding Pushed
  Pushed-cons first body [] s s1 s' r h g c p = elim p [ ]
  Pushed-cons first body (next ∷ bodies) s s1 s' r h g c p = (h, (r, s1, g, c, p))

  -- How the loop ends from an offset.
  abbrev PutEnds : Bool → ℕ → S → Option (Result E (Unit {0}) × List ℕ × S) → Type 0
  PutEnds first offset s result =
      ((bodies : List (List ℕ)) × (progress : List ℕ) × (s' : S) × (result
          ≡ some (ok tt, progress, s'))
        × (join bodies ≡ drop offset bytes)
        × Pushed first bodies s s')
      ⊎ ((e : ObexError E) × (progress : List ℕ) × (s' : S) × (result ≡ some (err e, progress, s')))

  put_loop-PutEnds :
      (fuel : ℕ) (first : Bool) (offset : ℕ) (progress : List ℕ) (s : S)
      → length bytes < offset + fuel
      → offset ≤ length bytes
      → PutEnds first offset s
          (put_loop stream max_packet name_payload bytes fuel first offset progress s)
  unfolding put_loop acknowledge Pushed join chunk_cap
  put_loop-PutEnds zero first offset progress s h le =
      let absurd : ⊥ = omega arith in elim absurd [ ]
  put_loop-PutEnds (suc fuel) first offset progress s h le =
      let total = length bytes in
      let cap = chunk_cap first max_packet (length name_payload) in
      let size = min (total - offset) cap in
      let rest = drop offset bytes in
      let body = take size rest in
      let fits : length body ≤ cap = omega (arith, length-take size rest) in
      let left = length-drop offset bytes in
      elim (Bool-cases (leb total (offset + size))) [
        | inl last ↦
            let x = exchange stream (put_packet first true name_payload total body) s in
            let whole : body ≡ rest =
              take-all size rest (omega (arith, leb→le total (offset + size) last, left)) in
            elim (answered x) [
              | inr (e, h0, _) ↦ inr (e, progress, x.1, rw last (rw (h0, acknowledge) refl))
              | inl (r, h0, all) ↦ elim (Bool-cases (r.code == resp_success)) [
                | inr bad ↦ inr (
                  rejected (codes "put") r.code,
                  progress,
                  x.1,
                  rw last (rw (h0, bad, acknowledge) refl),
                )
                | inl good ↦ inl (
                  body ∷ [],
                  progress ++ (offset + size) ∷ [],
                  x.1,
                  rw last (rw (h0, good, acknowledge) refl),
                  append-nil body ∙ whole,
                  (fits, (r, all, (==_iff r.code resp_success).0 good)),
                )
              ]
            ]
        | inr more ↦
            let x = exchange stream (put_packet first false name_payload total body) s in
            let progress' = progress ++ (offset + size) ∷ [] in
            elim (answered x) [
              | inr (e, h0, _) ↦ inr (e, progress, x.1, rw more (rw (h0, acknowledge) refl))
              | inl (r, h0, all) ↦ elim (Bool-cases (r.code == resp_continue)) [
                | inr bad ↦ inr (
                  rejected (codes "put") r.code,
                  progress,
                  x.1,
                  rw more (rw (h0, bad, acknowledge) refl),
                )
                | inl good ↦
                    let next =
                      put_loop-PutEnds fuel false (offset + size) progress' x.1
                        (forward offset total _ fuel more h) (within offset size total more) in
                    elim next [
                      | inr (e, p, s', h1) ↦ inr (e, p, s', rw more (rw (h0, good, acknowledge) h1))
                      | inl (bodies, p, s', h1, h2, h3) ↦ inl (
                        body ∷ bodies,
                        p,
                        s',
                        rw more (rw (h0, good, acknowledge) h1),
                        rw (h2, drop_add offset size bytes) (take-append-drop size rest),
                        Pushed-cons first body bodies s x.1 s' r fits all
                            ((==_iff r.code resp_continue).0 good) h3,
                      )
                    ]
              ]
            ]
      ]

  -- `put_file` always ends, over any stream. It succeeds only when the bodies that it sent, one
  -- after the other, are the object's bytes: each within the capacity of its packet, each packet
  -- but the last answered by Continue and the last, marked as final, by Success; else it ends
  -- with an error.
  pub put_file-Pushed :
      (s : S)
      → ((bodies : List (List ℕ)) × (progress : List ℕ) × (s' : S) × (put_file stream max_packet
              name_payload bytes s
            ≡ some (ok tt, progress, s'))
          × (join bodies ≡ bytes)
          × Pushed true bodies s s')
        ⊎ ((e : ObexError E) × (progress : List ℕ) × (s' : S) × (put_file stream max_packet
                name_payload bytes s
              ≡ some (err e, progress, s')))
  unfolding put_file
  put_file-Pushed s = put_loop-PutEnds (length bytes + 1) true 0 [] s (omega arith) (omega arith)
