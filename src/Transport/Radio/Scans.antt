-- ===== src/Transport/Radio/Scans.antt =====
-- What a scan keeps of the devices that it comes upon.
use pax.Prelude.{
  ℕ, zero, suc, ◌+◌, ◌-◌, ◌≡◌, refl, true, false, Option, none, some, List, [], ◌∷◌, ◌++◌, map,
  take, max, length, arith,
}
use pax.Str.{Str}
use pax.Core.Device.{DeviceId, DeviceInfo}
use pax.Core.Time.{Timestamp}
use pax.Core.Event.{TransitEvent, TransitEventKind, device_discovered}
use pax.Transport.Error.{Op, ◌>>=◌}
use pax.Transport.Backend.{DiscoveryFilter, accepts}
use pax.Transport.Radio.{Call, done, lift, moved, Radio, emit, offer}
use pax.Transport.Mock.Discover.{limit_reached}
use pax.Transport.Mock.Discover.Results.{keep}

-- The end of a scan that has `used` results: the limit is looked at after a device is taken, so
-- that one more is taken in any case.
unfoldable pub cut : Option ℕ → ℕ → List DeviceInfo → List DeviceInfo
cut none used xs = xs
cut (some limit) used xs = take (max (limit - used) 1) xs

unfoldable pub selected : (Str → Str) → DiscoveryFilter → ℕ → List DeviceInfo → List DeviceInfo
selected lower f used infos = cut f.limit used (keep (accepts lower f) infos)

abbrev pub kinds : List TransitEvent → List TransitEventKind
kinds = map (λ (e : TransitEvent). e.kind)

abbrev pub found : DeviceInfo → TransitEventKind
found info = device_discovered info.rssi

kinds-snoc :
    (es : List TransitEvent) (e : TransitEvent) → kinds (es ++ e ∷ []) ≡ kinds es ++ e.kind ∷ []
kinds-snoc [] e = refl
kinds-snoc (x ∷ es) e = rw (kinds-snoc es e)

pub kinds-emit :
    {W : Type 0} (now : W → Timestamp) (peer : DeviceId) (kind : TransitEventKind) (r : Radio W)
    → kinds (emit now peer kind r).emitted ≡ kinds r.emitted ++ kind ∷ []
unfolding emit
kinds-emit now peer kind r = kinds-snoc r.emitted _

-- A call that succeeds hands on its answer and the state of the host.
pub lift-done :
    {W A B : Type 0} (call : Call W A) (next : A → Op (Radio W) B) (r : Radio W) (a : A)
    → (call r.world).0 ≡ done a
    → (lift call >>= next) r ≡ next a (moved r (call r.world).1)
lift-done call next r a h = rw (◌>>=◌, lift, h, lift, h) refl

take-nil : (n : ℕ) → take {A = DeviceInfo} n [] ≡ []
take-nil zero = refl
take-nil (suc n) = refl

module _ (lower : Str → Str) (f : DiscoveryFilter) where
  pub offer-refused :
      {W : Type 0} (now : W → Timestamp) (info : DeviceInfo) (out : List DeviceInfo) (r : Radio W)
      → accepts lower f info ≡ false
      → offer now lower f info out r ≡ (false, out, r)
  unfolding offer
  offer-refused now info out r h = rw (offer, h) refl

  pub offer-taken :
      {W : Type 0} (now : W → Timestamp) (info : DeviceInfo) (out : List DeviceInfo) (r : Radio W)
      → accepts lower f info ≡ true
      → offer now lower f info out r ≡ (
        limit_reached f.limit (length out + 1),
        out ++ info ∷ [],
        emit now info.id (found info) r,
      )
  unfolding offer
  offer-taken now info out r h = rw (offer, h) refl

  pub selected-nil : (used : ℕ) → selected lower f used [] ≡ []
  unfolding selected keep cut
  selected-nil used = cut-nil f.limit used
    where
      cut-nil : (l : Option ℕ) (n : ℕ) → cut l n [] ≡ []
      cut-nil none n = refl
      cut-nil (some l) n = take-nil (max (l - n) 1)

  pub selected-skip :
      (used : ℕ) (info : DeviceInfo) (infos : List DeviceInfo)
      → accepts lower f info ≡ false
      → selected lower f used (info ∷ infos) ≡ selected lower f used infos
  unfolding selected keep
  selected-skip used info infos h = rw (keep, h) refl

  pub selected-last :
      (used : ℕ) (info : DeviceInfo) (infos : List DeviceInfo)
      → accepts lower f info ≡ true
      → limit_reached f.limit (used + 1) ≡ true
      → selected lower f used (info ∷ infos) ≡ info ∷ []
  unfolding selected keep cut limit_reached
  selected-last used info infos h full = rw (keep, h) (cut-last f.limit used info _ full)
    where
      cut-last :
          (l : Option ℕ) (n : ℕ) (x : DeviceInfo) (xs : List DeviceInfo)
          → limit_reached l (n + 1) ≡ true
          → cut l n (x ∷ xs) ≡ x ∷ []
      cut-last none n x xs h = ground arith
      cut-last (some l) n x xs h = let one : max (l - n) 1 ≡ suc zero = ground arith in rw one refl

  pub selected-more :
      (used : ℕ) (info : DeviceInfo) (infos : List DeviceInfo)
      → accepts lower f info ≡ true
      → limit_reached f.limit (used + 1) ≡ false
      → selected lower f used (info ∷ infos) ≡ info ∷ selected lower f (used + 1) infos
  unfolding selected keep cut limit_reached
  selected-more used info infos h room = rw (keep, h) (cut-more f.limit used info _ room)
    where
      cut-more :
          (l : Option ℕ) (n : ℕ) (x : DeviceInfo) (xs : List DeviceInfo)
          → limit_reached l (n + 1) ≡ false
          → cut l n (x ∷ xs) ≡ x ∷ cut l (n + 1) xs
      cut-more none n x xs h = refl
      cut-more (some l) n x xs h =
          let left : max (l - n) 1 ≡ suc (max (l - (n + 1)) 1) = ground arith in rw left refl
