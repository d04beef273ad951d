-- ===== src/Transport/Android/Merged.antt =====
-- The devices of an inquiry over the JNI behind the bonded ones.
use pax.Prelude.{
  ◌≡◌, refl, sym, ◌∙◌, ap, Bool, true, false, ◌||◌, List, [], ◌∷◌, ◌++◌, map, any, append_snoc, All,
  append-nil, Bool-cases, inl, inr,
}
use pax.Core.Device.{DeviceId, DeviceInfo}
use pax.Transport.Error.{Result, ok, err}
use pax.Transport.Radio.{Radio}
use pax.Transport.Android.{Jni}
use pax.Transport.Android.Devices.{merge, live_discover, with_live}
use pax.Pairing.Batch.{same_id}
use pax.Pairing.Batch.Keys.{same_id→eq}
use pax.Pairing.Batch.Panics.{IsDistinct}
use pax.Pairing.Batch.Dedup.{lists, or_false_eq, or_known, or_step, lists-append}

abbrev pub ids : List DeviceInfo → List DeviceId
ids = map (λ d. d.id)

-- What `found` is for the devices `devices` and the results `live`: the devices come first and as
-- they are, behind them are others with ids that differ from theirs and from each other, and the
-- ids are those of both.
abbrev pub IsMerged : List DeviceInfo → List DeviceInfo → List DeviceInfo → Type 0
IsMerged devices live found =
    ((rest : List DeviceInfo) × (found ≡ devices ++ rest)
      × IsDistinct (ids rest)
      × All (λ (j : DeviceId). lists j (ids devices) ≡ false) (ids rest))
    × ((j : DeviceId) → lists j (ids found) ≡ (lists j (ids devices) || lists j (ids live)))

any-lists :
    (j : DeviceId) (ds : List DeviceInfo)
    → any (λ (d : DeviceInfo). same_id d.id j) ds ≡ lists j (ids ds)
unfolding lists
any-lists j [] = refl
any-lists j (d ∷ ds) = elim (Bool-cases (same_id d.id j)) [
  | inl hit ↦ rw hit refl
  | inr miss ↦ rw miss (any-lists j ds)
]

map-snoc : (ds : List DeviceInfo) (d : DeviceInfo) → ids (ds ++ d ∷ []) ≡ ids ds ++ d.id ∷ []
map-snoc [] d = refl
map-snoc (x ∷ ds) d = rw (map-snoc ds d) refl

-- A known id is one that the list has already.
known-lists :
    (i j : DeviceId) (is : List DeviceId)
    → lists i is ≡ true
    → same_id i j ≡ true
    → lists j is ≡ true
known-lists i j is known same = let eq = same_id→eq i j same in rw eq at known

none_of : (a b : Bool) → (a || (b || false)) ≡ false → (a ≡ false) × (b ≡ false)
none_of false false h = (refl, refl)
none_of false true h = absurd (cc)
none_of true b h = absurd (cc)

-- Ids that are not among `is` and `id` are not among `is`, and differ from `id`.
apart :
    (id : DeviceId) (is js : List DeviceId)
    → All (λ (j : DeviceId). lists j (is ++ id ∷ []) ≡ false) js
    → All (λ (j : DeviceId). same_id id j ≡ false) js
      × All (λ (j : DeviceId). lists j is ≡ false) js
unfolding lists
apart id is [] _ = (tt, tt)
apart id is (j ∷ js) (h, hs) =
    let (h1, h2) = apart id is js hs in
    let (k1, k2) = none_of (lists j is) (same_id id j) (sym (lists-append j is (id ∷ [])) ∙ h) in
    ((k2, h1), (k1, h2))

merge-IsMerged : (devices live : List DeviceInfo) → IsMerged devices live (merge devices live)
unfolding merge lists IsDistinct
merge-IsMerged devices [] =
    (([], sym (append-nil devices), tt, tt), λ j. or_false_eq (lists j (ids devices)))
merge-IsMerged devices (info ∷ live) =
    elim (Bool-cases (any (λ (d : DeviceInfo). same_id d.id info.id) devices)) [
      | inl old ↦
          let known = sym (any-lists info.id devices) ∙ old in
          let (h1, h2) = merge-IsMerged devices live in
          rw (old, merge)
            (
              h1,
              λ j.
                  h2 j
                  ∙ or_known (lists j (ids devices)) (same_id info.id j) (lists j (ids live))
                      (known-lists info.id j (ids devices) known),
            )
      | inr new ↦
          let absent = sym (any-lists info.id devices) ∙ new in
          let snoc = map-snoc devices info in
          let ((rest, h1, h2, h3), h4) = merge-IsMerged (devices ++ info ∷ []) live in
          let (k1, k2) = apart info.id (ids devices) (ids rest) (rw snoc at h3) in
          rw (new, merge)
            (
              (info ∷ rest, h1 ∙ append_snoc devices info rest, (k1, h2), (absent, k2)),
              λ j.
                  h4 j
                  ∙ rw snoc (
                      ap (λ l. l || lists j (ids live))
                        (lists-append j (ids devices) (info.id ∷ [])))
                  ∙ or_step (lists j (ids devices)) (same_id info.id j) (lists j (ids live)),
            )
    ]

-- What the inquiry tells, if it succeeds.
abbrev pub heard : Result (List DeviceInfo) → List DeviceInfo
heard (ok infos) = infos
heard (err e) = []

module _ {W D : Type 0} (env : Jni W D) where
  pub with_live-IsMerged :
      (context : Bool) (bonded : List DeviceInfo) (r : Radio W)
      → IsMerged bonded (heard (live_discover env context r).0) (with_live env context bonded r).0
  unfolding with_live live_discover
  with_live-IsMerged false bonded r = merge-IsMerged bonded []
  with_live-IsMerged true bonded r = go (live_discover env true r).0 refl
    where
      go :
          (live : Result (List DeviceInfo))
          → (live_discover env true r).0 ≡ live
          → IsMerged bonded (heard (live_discover env true r).0) (with_live env true bonded r).0
      go (ok infos) e = rw (e, with_live) (merge-IsMerged bonded infos)
      go (err error) e = rw (e, with_live) (merge-IsMerged bonded [])
