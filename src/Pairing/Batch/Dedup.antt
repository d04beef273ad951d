-- ===== src/Pairing/Batch/Dedup.antt =====
-- The targets of a batch without their repetitions.
use pax.Prelude.{
  ◌≡◌, refl, ap, sym, ◌∙◌, Bool, true, false, ◌||◌, none, some, List, [], ◌∷◌, ◌++◌, All,
  All-append, any, Bool-cases, Option-cases, inl, inr, arith,
}
use pax.Core.Device.{DeviceId}
use pax.Pairing.Batch.{PairItem, Items, same_id, get_item, insert_item, not_attempted, dedup}
use pax.Pairing.Batch.Keys.{same_id→eq, same_id_refl, IsFound, get-insert, insert-All}
use pax.Pairing.Batch.Panics.{IsDistinct}

-- Whether an id is listed.
unfoldable pub lists : DeviceId → List DeviceId → Bool
lists j = any (λ id. same_id id j)

-- Each listed id has an item, the ids are distinct, and no other id has an item.
unfoldable pub AreKeys : List DeviceId → Items → Type 0
unfolding lists
AreKeys order rs =
    All (IsFound rs) order
    × IsDistinct order
    × ((j : DeviceId) → lists j order ≡ false → get_item j rs ≡ none)

pub IsDistinct-snoc :
    (ids : List DeviceId) (id : DeviceId)
    → IsDistinct ids
    → lists id ids ≡ false
    → IsDistinct (ids ++ id ∷ [])
unfolding IsDistinct lists
IsDistinct-snoc [] id _ _ = (tt, tt)
IsDistinct-snoc (x ∷ ids) id (h1, h2) h = elim (Bool-cases (same_id x id)) [
  | inl hit ↦ ground arith
  | inr miss ↦ (All-append _ ids (id ∷ []) h1 (miss, tt), IsDistinct-snoc ids id h2 (rw miss at h))
]

pub lists-append :
    (j : DeviceId) (xs ys : List DeviceId) → lists j (xs ++ ys) ≡ (lists j xs || lists j ys)
unfolding lists
lists-append j [] ys = refl
lists-append j (x ∷ xs) ys = elim (Bool-cases (same_id x j)) [
  | inl hit ↦ rw hit refl
  | inr miss ↦ rw miss (lists-append j xs ys)
]

found-lists :
    (j : DeviceId) (ids : List DeviceId) (rs : Items)
    → All (IsFound rs) ids
    → get_item j rs ≡ none
    → lists j ids ≡ false
unfolding lists IsFound
found-lists j [] rs _ h = refl
found-lists j (x ∷ ids) rs ((item, found, same), rest) h = elim (Bool-cases (same_id x j)) [
  | inl hit ↦
      let eq : x ≡ j = same_id→eq x j hit in
      let absurd : some item ≡ none = sym found ∙ (rw eq h) in ground arith
  | inr miss ↦ rw miss (found-lists j ids rs rest h)
]

pub or_false_eq : (a : Bool) → a ≡ (a || false)
or_false_eq true = refl
or_false_eq false = refl

pub or_step : (a b c : Bool) → ((a || (b || false)) || c) ≡ (a || (b || c))
or_step true b c = refl
or_step false true c = refl
or_step false false c = refl

pub or_known : (a b c : Bool) → (b ≡ true → a ≡ true) → (a || c) ≡ (a || (b || c))
or_known true b c h = refl
or_known false true c h = let wrong : false ≡ true = h refl in ground arith
or_known false false c h = refl

-- A target that was seen is listed already.
seen-lists :
    (id j : DeviceId) (order : List DeviceId) (rs : Items) (item : PairItem)
    → AreKeys order rs
    → get_item id rs ≡ some item
    → same_id id j ≡ true
    → lists j order ≡ true
unfolding AreKeys
seen-lists id j order rs item (found, distinct, only) old hit = elim (Bool-cases (lists j order)) [
  | inl e ↦ e
  | inr e ↦
      let eq : id ≡ j = same_id→eq id j hit in
      let absurd : some item ≡ none = sym old ∙ (rw eq (only j e)) in ground arith
]

absent :
    (id j : DeviceId) (order : List DeviceId) (rs : Items) (item : PairItem)
    → ((i : DeviceId) → lists i order ≡ false → get_item i rs ≡ none)
    → (lists j order || lists j (id ∷ [])) ≡ false
    → get_item j (insert_item id item rs) ≡ none
unfolding lists
absent id j order rs item only h = elim (Bool-cases (lists j order)) [
  | inl e ↦ let wrong : true ≡ false = rw e at h in ground arith
  | inr e ↦ elim (Bool-cases (same_id id j)) [
    | inl hit ↦ let wrong : true ≡ false = rw (e, hit) at h in ground arith
    | inr miss ↦ get-insert j id item rs ∙ (rw miss (only j e))
  ]
]

insert-AreKeys :
    (id : DeviceId) (order : List DeviceId) (rs : Items)
    → AreKeys order rs
    → get_item id rs ≡ none
    → AreKeys (order ++ id ∷ []) (insert_item id (not_attempted id) rs)
unfolding AreKeys IsFound
insert-AreKeys id order rs (found, distinct, only) new =
    let item = not_attempted id in
    let here : IsFound (insert_item id item rs) id =
      (item, get-insert id id item rs ∙ (rw (same_id_refl id) refl), refl) in
    (
      All-append _ order (id ∷ []) (insert-All order id item rs refl found) (here, tt),
      IsDistinct-snoc order id distinct (found-lists id order rs found new),
      λ j h. absent id j order rs item only (sym (lists-append j order (id ∷ [])) ∙ h),
    )

-- The ids that are kept are distinct, and are those that were listed before or are targets.
pub dedup-AreKeys :
    (ids order : List DeviceId) (rs : Items)
    → AreKeys order rs
    → AreKeys (dedup ids order rs).0 (dedup ids order rs).1
      × ((j : DeviceId) → lists j (dedup ids order rs).0 ≡ (lists j order || lists j ids))
unfolding dedup lists
dedup-AreKeys [] order rs h = (h, λ j. or_false_eq (lists j order))
dedup-AreKeys (id ∷ ids) order rs keys = elim (Option-cases (get_item id rs)) [
  | inr (item, old) ↦
      let (h1, h2) = dedup-AreKeys ids order rs keys in
      (
        rw (old, dedup) h1,
        λ j.
            rw (old, dedup)
              (h2 j
                ∙ or_known (lists j order) (same_id id j) (lists j ids)
                    (seen-lists id j order rs item keys old)),
      )
  | inl new ↦
      let rs' = insert_item id (not_attempted id) rs in
      let (h1, h2) =
        dedup-AreKeys ids (order ++ id ∷ []) rs' (insert-AreKeys id order rs keys new) in
      (
        rw (new, dedup) h1,
        λ j.
            rw (new, dedup)
              (h2 j
                ∙ ap (λ l. l || lists j ids) (lists-append j order (id ∷ []))
                ∙ or_step (lists j order) (same_id id j) (lists j ids)),
      )
]
