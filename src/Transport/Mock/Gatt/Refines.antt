-- ===== src/Transport/Mock/Gatt/Refines.antt =====
-- The GATT operations of the mock implement the abstract store.
use pax.Prelude.{
  ℕ, ◌≡◌, refl, ap, sym, ◌∙◌, Bool, true, false, ◌&&◌, none, some, List, [], ◌∷◌, Bool-cases,
  Option-cases, arith, yes_of_is_yes, inl, inr, is_yes, if◌then◌else◌,
}
use pax.Core.Device.{DeviceId, DeviceId-discrete}
use pax.Core.Uuid.{Uuid, Uuid-discrete}
use pax.Transport.Backend.{Connection}
use pax.Transport.Mock.{MockDevice, MockBackend, find_device}
use pax.Transport.Mock.Gatt.{same_key, get, insert, gatt_read, write_first, gatt_write}
use pax.Transport.Mock.Gatt.Values.{same_key_refl}
use pax.Transport.Mock.Gatt.Store.{
  Store, values_of, store_of, update_known, write_store, spec_read, spec_write, Request, read,
  write, value, written, run_mock, run_spec,
}

both-true : (p q : Bool) → (p && q) ≡ true → (p ≡ true) × (q ≡ true)
both-true true true h = (refl, refl)
both-true true false h = absurd (cc)
both-true false q h = absurd (cc)

-- Keys that pass the test are equal.
same_key-≡ : (a b : Uuid × Uuid) → same_key a b ≡ true → a ≡ b
same_key-≡ (a, a') (b, b') h =
    let (first, second) = both-true (is_yes (Uuid-discrete a b)) (is_yes (Uuid-discrete a' b')) h in
    let e : a ≡ b = yes_of_is_yes (Uuid-discrete a b) first in
    let e' : a' ≡ b' = yes_of_is_yes (Uuid-discrete a' b') second in λ i. (e i, e' i)

get-insert :
    (j k : Uuid × Uuid) (v : List ℕ) (es : List ((Uuid × Uuid) × List ℕ))
    → get j (insert k v es) ≡ (if same_key k j then some v else get j es)
unfolding get insert
get-insert j k v [] = refl
get-insert j k v (e ∷ es) = elim (Bool-cases (same_key e.0 k)) [
  | inl hit ↦
      let same = same_key-≡ e.0 k hit in
      rw (insert, hit)
        (elim (Bool-cases (same_key k j)) [
          | inl f ↦ rw (get, f) refl
          | inr f ↦
              let g : same_key e.0 j ≡ false = ap (λ i. same_key i j) same ∙ f in
              rw (get, f, g) refl
        ])
  | inr miss ↦
      rw (insert, miss)
        (elim (Bool-cases (same_key e.0 j)) [
          | inl f ↦
              let other : same_key k j ≡ false = differ e.0 j k f miss in rw (get, f, other) refl
          | inr f ↦ rw (get, f) (get-insert j k v es)
        ])
]
  where
    differ :
        (a j k : Uuid × Uuid) → same_key a j ≡ true → same_key a k ≡ false → same_key k j ≡ false
    differ a j k hit miss = elim (Bool-cases (same_key k j)) [
      | inr f ↦ f
      | inl f ↦
          let e : a ≡ k = same_key-≡ a j hit ∙ sym (same_key-≡ k j f) in
          let clash : same_key k k ≡ false = sym (ap (λ i. same_key i k) e) ∙ miss in
          let reflexive : same_key k k ≡ true = same_key_refl k in absurd (cc)
    ]

abbrev same_id : DeviceId → DeviceId → Bool
same_id a b = is_yes (DeviceId-discrete a b)

same_id_refl : (a : DeviceId) → same_id a a ≡ true
same_id_refl a = ground arith

-- A device that is the first is the second exactly when the first is.
same_id_first : (a b c : DeviceId) → same_id a b ≡ true → same_id a c ≡ same_id b c
same_id_first a b c h = ap (λ x. same_id x c) (yes_of_is_yes (DeviceId-discrete a b) h)

same_id_apart : (a b c : DeviceId) → same_id a b ≡ false → same_id a c ≡ true → same_id b c ≡ false
same_id_apart a b c h g = elim (Bool-cases (same_id b c)) [
  | inr f ↦ f
  | inl f ↦
      let e : b ≡ c = yes_of_is_yes (DeviceId-discrete b c) f in
      let same : same_id a b ≡ same_id a c = ap (same_id a) e in absurd (cc)
]

-- What a write does to the values of every device.
write_first-values :
    (peer id : DeviceId) (k : Uuid × Uuid) (v : List ℕ) (ds : List MockDevice)
    → values_of (find_device id (write_first peer k v ds)) ≡ (
        if is_yes (DeviceId-discrete peer id)
        then update_known k v (values_of (find_device id ds))
        else values_of (find_device id ds))
unfolding find_device write_first values_of
write_first-values peer id k v [] = elim (Bool-cases (is_yes (DeviceId-discrete peer id))) [
  | inl e ↦ rw (e) refl
  | inr e ↦ rw (e) refl
]
write_first-values peer id k v (d ∷ ds) =
    elim (Bool-cases (is_yes (DeviceId-discrete d.info.id peer))) [
      | inl at_peer ↦
          let same = same_id_first d.info.id peer id at_peer in
          elim (Bool-cases (is_yes (DeviceId-discrete d.info.id id))) [
            | inl f ↦
                let known : same_id peer id ≡ true = sym same ∙ f in
                rw (write_first, at_peer, find_device, f, known)
                  (λ i. some (λ j. get-insert j k v d.gatt i))
            | inr f ↦
                let unknown : same_id peer id ≡ false = sym same ∙ f in
                rw (write_first, at_peer, find_device, f, unknown) refl
          ]
      | inr elsewhere ↦ elim (Bool-cases (is_yes (DeviceId-discrete d.info.id id))) [
        | inl f ↦
            let other : is_yes (DeviceId-discrete peer id) ≡ false =
              same_id_apart d.info.id peer id elsewhere f in
            rw (write_first, elsewhere, find_device, f, other) refl
        | inr f ↦ rw (write_first, elsewhere, find_device, f) (write_first-values peer id k v ds)
      ]
    ]

-- A write to an unknown device leaves every value of the store.
write_store-unknown :
    (peer id : DeviceId) (k : Uuid × Uuid) (v : List ℕ) (st : Store)
    → st peer ≡ none
    → st id ≡ write_store peer k v st id
write_store-unknown peer id k v st h = elim (Bool-cases (same_id peer id)) [
  | inr f ↦ rw (write_store, f) refl
  | inl f ↦
      let e : peer ≡ id = yes_of_is_yes (DeviceId-discrete peer id) f in
      let missing : st id ≡ none = sym (ap st e) ∙ h in rw (write_store, f, missing) refl
]

gatt_write-refines :
    (conn : Connection) (s c : Uuid) (v : List ℕ) (response : Bool) (b : MockBackend)
    → ((gatt_write conn s c v response b).0 ≡ spec_write conn (store_of b))
      × (store_of (gatt_write conn s c v response b).1
          ≡ write_store conn.peer (s, c) v (store_of b))
unfolding gatt_write values_of
gatt_write-refines conn s c v response b =
    let devices = b.state.devices in
    elim (Option-cases (find_device conn.peer devices)) [
      | inl e ↦
          let missing : store_of b conn.peer ≡ none = rw (store_of, e) refl in
          (
            rw (gatt_write, spec_write, store_of, e) refl,
            rw (gatt_write, e)
                (λ i id. write_store-unknown conn.peer id (s, c) v (store_of b) missing i),
          )
      | inr (d, e) ↦ (
        rw (gatt_write, spec_write, store_of, e) refl,
        rw (gatt_write, e) (λ i id. write_first-values conn.peer id (s, c) v devices i),
      )
    ]

gatt_read-refines :
    (conn : Connection) (s c : Uuid) (b : MockBackend)
    → gatt_read conn s c b ≡ (spec_read conn s c (store_of b), b)
unfolding gatt_read values_of
gatt_read-refines conn s c b = elim (Option-cases (find_device conn.peer b.state.devices)) [
  | inl e ↦ rw (gatt_read, spec_read, store_of, e) refl
  | inr (d, e) ↦ elim (Option-cases (get (s, c) d.gatt)) [
    | inl f ↦ rw (gatt_read, spec_read, store_of, e, f) refl
    | inr (v, f) ↦ rw (gatt_read, spec_read, store_of, e, f) refl
  ]
]

-- Any sequence of reads and writes on the mock gives the answers of the abstract store that its
-- devices make, errors for unknown devices and characteristics included, and leaves a mock whose
-- devices make the store that the sequence leaves.
pub run_mock-refines :
    (qs : List Request) (b : MockBackend)
    → ((run_mock qs b).0 ≡ (run_spec qs (store_of b)).0)
      × (store_of (run_mock qs b).1 ≡ (run_spec qs (store_of b)).1)
unfolding run_mock run_spec
run_mock-refines [] b = (refl, refl)
run_mock-refines (read conn s c ∷ qs) b =
    let step = gatt_read-refines conn s c b in
    let (h1, h2) = run_mock-refines qs b in
    (
      rw (run_mock, step) (ap (λ rs. value (spec_read conn s c (store_of b)) ∷ rs) h1),
      rw (run_mock, step) h2,
    )
run_mock-refines (write conn s c v response ∷ qs) b =
    let (answer, store) = gatt_write-refines conn s c v response b in
    let (h1, h2) = run_mock-refines qs (gatt_write conn s c v response b).1 in
    (
      rw (run_mock, answer)
          (ap (λ rs. written (spec_write conn (store_of b)) ∷ rs)
            (h1 ∙ ap (λ st. (run_spec qs st).0) store)),
      h2 ∙ ap (λ st. (run_spec qs st).1) store,
    )
