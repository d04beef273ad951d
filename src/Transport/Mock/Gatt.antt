-- ===== src/Transport/Mock/Gatt.antt =====
-- The GATT operations of the mock, on the values scripted for a device.
pub mod Values
pub mod Store
pub mod Refines
use pax.Prelude.{ℕ, Bool, ◌&&◌, Option, none, some, List, [], ◌∷◌, ◌++◌, map, if◌then◌else◌, is_yes}
use pax.Str.{Str, codes}
use pax.Core.Device.{DeviceId, DeviceId-discrete, display_id}
use pax.Core.Uuid.{Uuid, Uuid-discrete}
use pax.Core.Uuid
use pax.Transport.Error.{device_not_found, backend, ok, err, Op}
use pax.Transport.Backend.{Connection}
use pax.Transport.Mock.{MockDevice, MockBackend, lookup}

abbrev pub same_key : Uuid × Uuid → Uuid × Uuid → Bool
same_key a b = is_yes (Uuid-discrete a.0 b.0) && is_yes (Uuid-discrete a.1 b.1)

module _ {ℓ} {V : Type ℓ} where
  -- `HashMap::get`.
  unfoldable pub get : Uuid × Uuid → List ((Uuid × Uuid) × V) → Option V
  get k [] = none
  get k (e ∷ es) = if same_key e.0 k then some e.1 else get k es

  -- `HashMap::insert`.
  unfoldable pub insert : Uuid × Uuid → V → List ((Uuid × Uuid) × V) → List ((Uuid × Uuid) × V)
  insert k v [] = (k, v) ∷ []
  insert k v (e ∷ es) = if same_key e.0 k then (k, v) ∷ es else e ∷ insert k v es

abbrev pub no_characteristic : Uuid → DeviceId → Str
no_characteristic c peer =
    codes "no characteristic " ++ Uuid.display c ++ codes " on " ++ display_id peer

unfoldable pub gatt_read : Connection → Uuid → Uuid → Op MockBackend (List ℕ)
unfolding get
gatt_read conn service characteristic b = elim (lookup b conn.peer) [
  | none ↦ (err (device_not_found conn.peer), b)
  | some dev ↦ elim (get (service, characteristic) dev.gatt) [
    | none ↦ (err (backend (no_characteristic characteristic conn.peer)), b)
    | some v ↦ (ok v, b)
  ]
]

-- `iter_mut().find(..)` and the write to what it found.
unfoldable pub write_first : DeviceId → Uuid × Uuid → List ℕ → List MockDevice → List MockDevice
unfolding insert
write_first id k v [] = []
write_first id k v (d ∷ ds) =
    if is_yes (DeviceId-discrete d.info.id id)
    then record d { gatt = insert k v d.gatt } ∷ ds
    else d ∷ write_first id k v ds

unfoldable pub gatt_write : Connection → Uuid → Uuid → List ℕ → Bool → Op MockBackend (Unit {0})
unfolding write_first
gatt_write conn service characteristic bytes with_response b = elim (lookup b conn.peer) [
  | none ↦ (err (device_not_found conn.peer), b)
  | some dev ↦ (
    ok tt,
    record b {
      state = record (b.state) {
        devices = write_first conn.peer (service, characteristic) bytes b.state.devices;
      };
    },
  )
]

abbrev or_empty : Option (List (List ℕ)) → List (List ℕ)
or_empty none = []
or_empty (some vs) = vs

-- The stream, as the list of what it yields.
unfoldable pub gatt_subscribe : Connection → Uuid → Uuid → Op MockBackend (List (Uuid × List ℕ))
unfolding get
gatt_subscribe conn service characteristic b = elim (lookup b conn.peer) [
  | none ↦ (err (device_not_found conn.peer), b)
  | some dev ↦ (
    ok (
        map (λ v. (characteristic, v))
          (or_empty (get (service, characteristic) dev.gatt_notifications))),
    b,
  )
]
