-- ===== src/Transport/Mock/Gatt/Store.antt =====
-- The GATT values of the mock as an abstract store: for each known device a value for each
-- characteristic.
use pax.Prelude.{ℕ, Bool, Option, none, some, List, [], ◌∷◌, is_yes, if◌then◌else◌}
use pax.Core.Device.{DeviceId, DeviceId-discrete}
use pax.Core.Uuid.{Uuid}
use pax.Transport.Error.{device_not_found, backend, Result, ok, err}
use pax.Transport.Backend.{Connection}
use pax.Transport.Mock.{MockDevice, MockBackend, find_device}
use pax.Transport.Mock.Gatt.{same_key, get, gatt_read, gatt_write, no_characteristic}

-- The values of one device.
abbrev pub Values : Type 0
Values = Uuid × Uuid → Option (List ℕ)

-- `none` for a device that is not known.
abbrev pub Store : Type 0
Store = DeviceId → Option Values

unfoldable pub values_of : Option MockDevice → Option Values
unfolding get
values_of none = none
values_of (some d) = some (λ k. get k d.gatt)

abbrev pub store_of : MockBackend → Store
store_of b id = values_of (find_device id b.state.devices)

abbrev pub update : Uuid × Uuid → List ℕ → Values → Values
update k v vals j = if same_key k j then some v else vals j

abbrev pub update_known : Uuid × Uuid → List ℕ → Option Values → Option Values
update_known k v none = none
update_known k v (some vals) = some (update k v vals)

-- A call with its arguments, and the two kinds of answers.
pub data Request : Type 0 where
  read : Connection → Uuid → Uuid → Request
  write : Connection → Uuid → Uuid → List ℕ → Bool → Request

pub data Reply : Type 0 where
  value : Result (List ℕ) → Reply
  written : Result (Unit {0}) → Reply

-- A write to the store; one to an unknown device changes nothing.
abbrev pub write_store : DeviceId → Uuid × Uuid → List ℕ → Store → Store
write_store peer k v st id =
    if is_yes (DeviceId-discrete peer id) then update_known k v (st id) else st id

abbrev pub spec_read : Connection → Uuid → Uuid → Store → Result (List ℕ)
spec_read conn s c st = elim (st conn.peer) [
  | none ↦ err (device_not_found conn.peer)
  | some vals ↦ elim (vals (s, c)) [
    | none ↦ err (backend (no_characteristic c conn.peer))
    | some v ↦ ok v
  ]
]

abbrev pub spec_write : Connection → Store → Result (Unit {0})
spec_write conn st = elim (st conn.peer) [
  | none ↦ err (device_not_found conn.peer)
  | some vals ↦ ok tt
]

unfoldable pub run_mock : List Request → MockBackend → List Reply × MockBackend
run_mock [] b = ([], b)
run_mock (read conn s c ∷ qs) b =
    let (r, b1) = gatt_read conn s c b in let (rs, b2) = run_mock qs b1 in (value r ∷ rs, b2)
run_mock (write conn s c bytes response ∷ qs) b =
    let (r, b1) = gatt_write conn s c bytes response b in
    let (rs, b2) = run_mock qs b1 in (written r ∷ rs, b2)

unfoldable pub run_spec : List Request → Store → List Reply × Store
run_spec [] st = ([], st)
run_spec (read conn s c ∷ qs) st =
    let (rs, st2) = run_spec qs st in (value (spec_read conn s c st) ∷ rs, st2)
run_spec (write conn s c bytes response ∷ qs) st =
    let (rs, st2) = run_spec qs (write_store conn.peer (s, c) bytes st) in
    (written (spec_write conn st) ∷ rs, st2)
