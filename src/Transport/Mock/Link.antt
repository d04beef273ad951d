-- ===== src/Transport/Mock/Link.antt =====
-- The adapter and the links of the mock: `adapter`, `set_powered`, `set_local_address`,
-- `connect`, `disconnect` and the capabilities.
pub mod Tokens
use pax.Prelude.{
  ℕ, ◌+◌, ◌-◌, ◌^◌, Bool, true, false, Option, none, some, List, [], ◌∷◌, ◌==◌, if◌then◌else◌, any,
}
use pax.Core.Address.{BdAddr}
use pax.Core.Time.{Duration}
use pax.Core.Spec.{br_edr, le, dual}
use pax.Core.Device.{DeviceId}
use pax.Core.Event.{connected, disconnected}
use pax.Transport.Error.{device_not_found, not_connected, Result, ok, err, Op}
use pax.Transport.Backend.{Capabilities, mock, AdapterInfo, Connection, origin_of}
use pax.Transport.Mock.{MockBackend, device_origin, emit, lookup, step}

-- `usize::MAX`, on a 64-bit target.
abbrev pub capabilities : MockBackend → Capabilities
capabilities b = record {
  kind = mock;
  transports = br_edr ∷ le ∷ dual ∷ [];
  can_pair = true;
  can_push_files = true;
  max_concurrent_pairings = 2 ^ 64 - 1;
  can_accept_pairings = true;
  can_gatt = true;
  can_spoof_address = true;
}

abbrev pub adapter : Op MockBackend AdapterInfo
adapter b = (
  ok (record {
    address = b.adapter_address;
    name = b.adapter_name;
    controller = b.controller;
    spec = b.spec;
    powered = b.powered;
  }),
  b,
)

abbrev pub set_powered : Bool → Op MockBackend (Unit {0})
set_powered on b = (ok tt, record b { powered = on })

abbrev pub set_local_address : BdAddr → Op MockBackend (Unit {0})
set_local_address addr b = (ok tt, record b { adapter_address = addr })

-- The mock has no radio to toggle.
abbrev pub set_discoverable : Bool → Option Duration → Op MockBackend (Unit {0})
set_discoverable on timeout b = (ok tt, b)

abbrev pub set_pairable : Bool → Option Duration → Op MockBackend (Unit {0})
set_pairable on timeout b = (ok tt, b)

unfoldable pub has_token : ℕ → List (ℕ × DeviceId) → Bool
has_token t = any (λ e. e.0 == t)

unfoldable pub remove_token : ℕ → List (ℕ × DeviceId) → List (ℕ × DeviceId)
remove_token t [] = []
remove_token t (e ∷ es) = if e.0 == t then remove_token t es else e ∷ remove_token t es

-- `HashMap::insert`.
unfoldable pub insert_token : ℕ → DeviceId → List (ℕ × DeviceId) → List (ℕ × DeviceId)
unfolding remove_token
insert_token t d es = (t, d) ∷ remove_token t es

-- The block that takes the next token.
abbrev pub open_link : DeviceId → MockBackend → MockBackend
open_link target b = record b {
  state = record (b.state) {
    next_token = b.state.next_token + 1;
    connections = insert_token b.state.next_token target b.state.connections;
  };
}

unfoldable pub connect : DeviceId → Op MockBackend Connection
connect target b = elim (lookup b target) [
  | none ↦ (err (device_not_found target), b)
  | some device ↦ (
    ok (record {
      peer = target;
      local = b.controller;
      spec = device.spec;
      standards = device.standards;
      token = b.state.next_token;
    }),
    emit (device_origin device b.controller) connected step (open_link target b),
  )
]

abbrev pub close_link : ℕ → MockBackend → MockBackend
close_link t b = record b {
  state = record (b.state) { connections = remove_token t b.state.connections };
}

unfoldable pub disconnect : Connection → Op MockBackend (Unit {0})
disconnect conn b =
    if has_token conn.token b.state.connections
    then (ok tt, emit (origin_of conn) (disconnected none) step (close_link conn.token b))
    else (err (not_connected conn.peer), b)
