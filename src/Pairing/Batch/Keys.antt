-- ===== src/Pairing/Batch/Keys.antt =====
-- The map from ids to items in a batch: what is found, and what stays.
use mathlib.Core.List.{Permᴰ}
use pax.Prelude.{
  ◌≡◌, refl, ◌∙◌, true, false, some, List, [], ◌∷◌, All, if◌then◌else◌, Bool-cases, inl, inr, subst,
  arith,
}
use pax.Core.Device.{DeviceId}
use pax.Pairing.Batch.{PairItem, Items, same_id, get_item, insert_item, remove_item}

pub same_id→eq : (a b : DeviceId) → same_id a b ≡ true → a ≡ b
same_id→eq a b h = ground arith

pub same_id_refl : (a : DeviceId) → same_id a a ≡ true
same_id_refl a = ground arith

pub same_id_comm : (a b : DeviceId) → same_id a b ≡ same_id b a
same_id_comm a b = ground arith

-- The id has an item, which carries it.
unfoldable pub IsFound : Items → DeviceId → Type 0
IsFound results id = (item : PairItem) × (get_item id results ≡ some item) × (item.id ≡ id)

pub get-insert :
    (j id : DeviceId) (i : PairItem) (rs : Items)
    → get_item j (insert_item id i rs) ≡ (if same_id id j then some i else get_item j rs)
unfolding get_item insert_item
get-insert j id i [] = refl
get-insert j id i (e ∷ es) = elim (Bool-cases (same_id e.0 id)) [
  | inl hit ↦
      let eq : e.0 ≡ id = same_id→eq e.0 id hit in
      elim (Bool-cases (same_id id j)) [
        | inl is ↦ rw (hit, is) refl
        | inr other ↦ let miss : same_id e.0 j ≡ false = rw eq other in rw (hit, other, miss) refl
      ]
  | inr miss ↦ elim (Bool-cases (same_id e.0 j)) [
    | inl is ↦
        let eq : e.0 ≡ j = same_id→eq e.0 j is in
        let other : same_id id j ≡ false = same_id_comm id j ∙ (rw eq at miss) in
        rw (miss, other, is) refl
    | inr not_j ↦ rw miss (rw not_j (get-insert j id i es))
  ]
]

pub get-remove :
    (j id : DeviceId) (rs : Items)
    → same_id id j ≡ false
    → get_item j (remove_item id rs) ≡ get_item j rs
unfolding get_item remove_item
get-remove j id [] h = refl
get-remove j id (e ∷ es) h = elim (Bool-cases (same_id e.0 id)) [
  | inl hit ↦
      let eq : e.0 ≡ id = same_id→eq e.0 id hit in
      let miss : same_id e.0 j ≡ false = rw eq h in rw (hit, miss) (get-remove j id es h)
  | inr miss ↦ rw miss (rw (get-remove j id es h) refl)
]

pub insert-IsFound :
    (j id : DeviceId) (i : PairItem) (rs : Items)
    → i.id ≡ id
    → IsFound rs j
    → IsFound (insert_item id i rs) j
unfolding IsFound
insert-IsFound j id i rs hi (k, h1, h2) = elim (Bool-cases (same_id id j)) [
  | inl is ↦ (i, get-insert j id i rs ∙ (rw is refl), hi ∙ same_id→eq id j is)
  | inr other ↦ (k, get-insert j id i rs ∙ (rw other h1), h2)
]

pub insert-All :
    (js : List DeviceId) (id : DeviceId) (i : PairItem) (rs : Items)
    → i.id ≡ id
    → All (IsFound rs) js
    → All (IsFound (insert_item id i rs)) js
insert-All [] id i rs hi _ = tt
insert-All (j ∷ js) id i rs hi (h1, h2) =
    (insert-IsFound j id i rs hi h1, insert-All js id i rs hi h2)

pub All-Permᴰ {ℓ κ} :
    {A : Type ℓ} (P : A → Type κ) (xs ys : List A) → Permᴰ xs ys → All P xs → All P ys
All-Permᴰ P _ _ Permᴰ.nil h = h
All-Permᴰ P _ _ (Permᴰ.cons eq p) (h1, h2) = (subst P eq h1, All-Permᴰ P _ _ p h2)
All-Permᴰ P _ _ (Permᴰ.swap e1 e2) (h1, (h2, h3)) = (subst P e2 h2, (subst P e1 h1, h3))
All-Permᴰ P _ _ (Permᴰ.trans p q) h = All-Permᴰ P _ _ q (All-Permᴰ P _ _ p h)
