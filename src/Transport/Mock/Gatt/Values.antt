-- ===== src/Transport/Mock/Gatt/Values.antt =====
-- What is read of a GATT characteristic after a write.
use pax.Prelude.{
  ℕ, ◌≡◌, refl, ap, Bool, true, some, List, [], ◌∷◌, Bool-cases, inl, inr, is_yes, arith,
}
use pax.Core.Device.{DeviceId, DeviceId-discrete}
use pax.Core.Uuid.{Uuid, Uuid-discrete}
use pax.Transport.Error.{ok}
use pax.Transport.Backend.{Connection}
use pax.Transport.Mock.{MockDevice, MockBackend, find_device}
use pax.Transport.Mock.Gatt.{same_key, get, insert, gatt_read, write_first, gatt_write}

pub same_key_refl : (k : Uuid × Uuid) → same_key k k ≡ true
same_key_refl k =
    let e : is_yes (Uuid-discrete k.0 k.0) ≡ true = ground arith in
    let f : is_yes (Uuid-discrete k.1 k.1) ≡ true = ground arith in rw (e, f) refl

get-insert :
    (k : Uuid × Uuid) (v : List ℕ) (es : List ((Uuid × Uuid) × List ℕ))
    → get k (insert k v es) ≡ some v
unfolding get insert
get-insert k v [] = rw (same_key_refl k) refl
get-insert k v (e ∷ es) = elim (Bool-cases (same_key e.0 k)) [
  | inl hit ↦ rw hit (rw (same_key_refl k) refl)
  | inr miss ↦ rw miss (rw miss (get-insert k v es))
]

find-write_first :
    (id : DeviceId) (k : Uuid × Uuid) (v : List ℕ) (ds : List MockDevice) (d : MockDevice)
    → find_device id ds ≡ some d
    → find_device id (write_first id k v ds) ≡ some (record d { gatt = insert k v d.gatt })
unfolding find_device write_first
find-write_first id k v [] d h = ground arith
find-write_first id k v (x ∷ ds) d h = elim (Bool-cases (is_yes (DeviceId-discrete x.info.id id))) [
  | inl hit ↦
      let same : some x ≡ some d = rw hit at h in
      let eq : x ≡ d = cc in
      rw hit (rw hit (ap (λ (y : MockDevice). some (record y { gatt = insert k v y.gatt })) eq))
  | inr miss ↦ rw miss (rw miss (find-write_first id k v ds d (rw miss at h)))
]

-- A characteristic of a known device reads as the value that was last written to it, whether or
-- not the write asked for a response.
pub gatt_read-write :
    (conn : Connection) (s c : Uuid) (v : List ℕ) (with_response : Bool) (b : MockBackend)
    (d : MockDevice)
    → find_device conn.peer b.state.devices ≡ some d
    → gatt_read conn s c (gatt_write conn s c v with_response b).1
      ≡ (ok v, (gatt_write conn s c v with_response b).1)
unfolding gatt_read gatt_write
gatt_read-write conn s c v r b d known =
    let found = find-write_first conn.peer (s, c) v b.state.devices d known in
    let value = get-insert (s, c) v d.gatt in
    rw (known, gatt_write) (rw (found, value, gatt_read) refl)
