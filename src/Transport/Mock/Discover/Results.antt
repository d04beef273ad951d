-- ===== src/Transport/Mock/Discover/Results.antt =====
-- What a scan of the mock reports.
use pax.Prelude.{
  ℕ, zero, suc, ◌+◌, ◌-◌, ◌≡◌, refl, ap, ◌∙◌, sym, Bool, true, false, Option, none, some, List, [],
  ◌∷◌, ◌++◌, map, append_snoc, append-nil, length, take, if◌then◌else◌, Bool-cases, inl, inr, arith,
  length-append,
}
use pax.Str.{Str}
use pax.Core.Device.{DeviceInfo}
use pax.Core.Event.{device_discovered, discovery_started}
use pax.Transport.Error.{ok}
use pax.Transport.Backend.{DiscoveryFilter}
use pax.Transport.Mock.{MockDevice, MockBackend, device_origin, emit, step, adapter_origin}
use pax.Transport.Mock.Discover.{discover, discover_loop, wanted, limit_reached}

-- The elements that pass a test, in order.
unfoldable pub keep {ℓ} : {A : Type ℓ} → (A → Bool) → List A → List A
keep p [] = []
keep p (x ∷ xs) = if p x then x ∷ keep p xs else keep p xs

-- At most as many as a limit leaves when `used` are taken.
unfoldable pub capped {ℓ} : {A : Type ℓ} → Option ℕ → ℕ → List A → List A
capped none used xs = xs
capped (some n) used xs = take (n - used) xs

-- The filter's answer, without the loop.
unfoldable pub matching : (Str → Str) → DiscoveryFilter → ℕ → List MockDevice → List DeviceInfo
unfolding keep capped
matching lower f used ds =
    capped f.limit used (map (λ (d : MockDevice). d.info) (keep (wanted lower f) ds))

capped-reached {ℓ} :
    {A : Type ℓ} (l : Option ℕ) (n : ℕ) (xs : List A)
    → limit_reached l n ≡ true
    → capped l n xs ≡ []
unfolding capped limit_reached
capped-reached none n xs h = ground arith
capped-reached (some l) n xs h = let none_left : l - n ≡ 0 = ground arith in rw none_left refl

capped-more {ℓ} :
    {A : Type ℓ} (l : Option ℕ) (n : ℕ) (x : A) (xs : List A)
    → limit_reached l n ≡ false
    → capped l n (x ∷ xs) ≡ x ∷ capped l (n + 1) xs
unfolding capped limit_reached
capped-more none n x xs h = refl
capped-more (some l) n x xs h = let left : l - n ≡ suc (l - (n + 1)) = ground arith in rw left refl

take-nil {ℓ} : {A : Type ℓ} (k : ℕ) → take {A = A} k [] ≡ []
take-nil zero = refl
take-nil (suc k) = refl

capped-nil {ℓ} : {A : Type ℓ} (l : Option ℕ) (n : ℕ) → capped {A = A} l n [] ≡ []
unfolding capped
capped-nil none n = refl
capped-nil (some l) n = take-nil (l - n)

module _ (lower : Str → Str) (f : DiscoveryFilter) where
  matching-skip :
      (n : ℕ) (d : MockDevice) (ds : List MockDevice)
      → wanted lower f d ≡ false
      → matching lower f n (d ∷ ds) ≡ matching lower f n ds
  unfolding matching keep
  matching-skip n d ds h = rw (h, keep) refl

  matching-full :
      (n : ℕ) (ds : List MockDevice) → limit_reached f.limit n ≡ true → matching lower f n ds ≡ []
  unfolding matching
  matching-full n ds h = capped-reached f.limit n _ h

  matching-more :
      (n : ℕ) (d : MockDevice) (ds : List MockDevice)
      → wanted lower f d ≡ true
      → limit_reached f.limit n ≡ false
      → matching lower f n (d ∷ ds) ≡ d.info ∷ matching lower f (n + 1) ds
  unfolding matching keep
  matching-more n d ds h room = rw (h, keep) (capped-more f.limit n d.info _ room)

  matching-nil : (n : ℕ) → matching lower f n [] ≡ []
  unfolding matching keep
  matching-nil n = capped-nil f.limit n

  discover_loop-matching :
      (ds : List MockDevice) (out : List DeviceInfo) (b : MockBackend)
      → ((discover_loop lower f ds out b).0 ≡ out ++ matching lower f (length out) ds)
        × ((discover_loop lower f ds out b).1.state.seq
            ≡ b.state.seq + length (matching lower f (length out) ds))
  unfolding discover_loop emit
  discover_loop-matching [] out b =
      let none_left : matching lower f (length out) [] ≡ [] = matching-nil (length out) in
      (rw none_left (sym (append-nil out)), rw none_left (omega arith))
  discover_loop-matching (d ∷ ds) out b = elim (Bool-cases (wanted lower f d)) [
    | inr skip ↦
        let same = matching-skip (length out) d ds skip in
        let (h1, h2) = discover_loop-matching ds out b in (rw (skip, same) h1, rw (skip, same) h2)
    | inl take_it ↦ elim (Bool-cases (limit_reached f.limit (length out))) [
      | inl full ↦
          let nothing = matching-full (length out) (d ∷ ds) full in
          (
            rw (take_it, full, nothing) (sym (append-nil out)),
            rw (take_it, full, nothing) (omega arith),
          )
      | inr room ↦
          let next = out ++ d.info ∷ [] in
          let b' = emit (device_origin d b.controller) (device_discovered d.info.rssi) step b in
          let (h1, h2) = discover_loop-matching ds next b' in
          let more = matching-more (length out) d ds take_it room in
          let size : length next ≡ length out + 1 =
            omega (arith, length-append out (d.info ∷ [])) in
          let rest = matching lower f (length out + 1) ds in
          (
            rw (take_it, room, more) (rw size at h1 ∙ append_snoc out d.info rest),
            rw (take_it, room, more)
                (let h : _ ≡ b.state.seq + 1 + length rest = rw size at h2 in omega (arith, h)),
          )
    ]
  ]

  -- A scan answers with the filter's choice among the devices, in their order and cut at the
  -- limit, and numbers one event for its start and one for each device that it reports.
  pub discover-matching :
      (b : MockBackend)
      → ((discover lower f b).0 ≡ ok (matching lower f 0 b.state.devices))
        × ((discover lower f b).1.state.seq
            ≡ b.state.seq + 1 + length (matching lower f 0 b.state.devices))
  unfolding discover emit
  discover-matching b =
      let started = emit (adapter_origin b) discovery_started step b in
      let (h1, h2) = discover_loop-matching b.state.devices [] started in (ap ok h1, h2)
