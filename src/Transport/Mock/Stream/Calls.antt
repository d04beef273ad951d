-- ===== src/Transport/Mock/Stream/Calls.antt =====
-- Every sequence of calls on a mock that was just built keeps its stream in order.
use pax.Prelude.{ℕ, refl, Bool, Bool-cases, Option-cases, inl, inr, List, [], ◌∷◌, arith}
use pax.Str.{Str}
use pax.Core.Address.{BdAddr}
use pax.Core.Uuid.{Uuid}
use pax.Core.Device.{DeviceId}
use pax.Core.Event.{pairing_started, pairing_failed, pairing_completed}
use pax.Transport.Pairing.{PairingAgent}
use pax.Transport.Transfer.{OutboundFile}
use pax.Transport.Backend.{Connection, DiscoveryFilter, InboundPairing}
use pax.Transport.Mock.{
  MockDevice, MockBackend, MockBackendBuilder, build, device_origin, find_device, step,
}
use pax.Transport.Mock.Pair.{
  pair, pair_found, add_paired, rejected, request_for, declined, accept_one, accept_loop, limited,
  accept_pairings,
}
use pax.Transport.Mock.Gatt.{get, gatt_read as read, gatt_write}
use pax.Transport.Mock.Instance.{mock_backend}
use pax.Transport.Mock.Stream.{From, From-later, IsStream}
use pax.Transport.Mock.Stream.Kept.{
  IsOrdered, emit-IsOrdered, discover-IsOrdered, connect-IsOrdered, disconnect-IsOrdered,
  push_file-IsOrdered,
}

add_paired-IsOrdered : (id : DeviceId) (b : MockBackend) → IsOrdered b → IsOrdered (add_paired id b)
unfolding IsOrdered IsStream
add_paired-IsOrdered id b h = h

build-IsOrdered : (b : MockBackendBuilder) → IsOrdered (build b)
unfolding IsOrdered IsStream From build
build-IsOrdered b = ((refl, omega arith), tt)

gatt_write-IsOrdered :
    (c : Connection) (s k : Uuid) (v : List ℕ) (r : Bool) (b : MockBackend)
    → IsOrdered b
    → IsOrdered (gatt_write c s k v r b).1
unfolding IsOrdered IsStream gatt_write
gatt_write-IsOrdered c s k v r b h = elim (Option-cases (find_device c.peer b.state.devices)) [
  | inl e ↦ rw (e, gatt_write) h
  | inr (d, e) ↦ rw (e, gatt_write) h
]

gatt_read-IsOrdered :
    (c : Connection) (s k : Uuid) (b : MockBackend) → IsOrdered b → IsOrdered (read c s k b).1
unfolding read
gatt_read-IsOrdered c s k b h = elim (Option-cases (find_device c.peer b.state.devices)) [
  | inl e ↦ rw (e, read) h
  | inr (d, e) ↦ elim (Option-cases (get (s, k) d.gatt)) [
    | inl e' ↦ rw (e, e', read) h
    | inr (v, e') ↦ rw (e, e', read) h
  ]
]

module _ {W : Type 0} (agent : PairingAgent W) where
  accept_one-IsOrdered :
      (d : MockDevice) (b : MockBackend) (w : W)
      → IsOrdered b
      → IsOrdered (accept_one agent d (b, w)).1
  unfolding accept_one
  accept_one-IsOrdered d b w h =
      let o = device_origin d b.controller in
      let started = emit-IsOrdered o (pairing_started d.pairing_method) step b h in
      elim (Bool-cases (rejected (agent (request_for d.pairing_method) w).0)) [
        | inl e ↦ rw e (emit-IsOrdered o (pairing_failed declined) step _ started)
        | inr e ↦ elim (Option-cases d.pairing_failure) [
          | inl e' ↦
              rw (e, e', accept_one)
                (emit-IsOrdered o pairing_completed step _
                  (add_paired-IsOrdered d.info.id _ started))
          | inr (reason, e') ↦
              rw (e, e', accept_one) (emit-IsOrdered o (pairing_failed reason) step _ started)
        ]
      ]

  pair-IsOrdered :
      (id : DeviceId) (b : MockBackend) (w : W) → IsOrdered b → IsOrdered (pair agent id (b, w)).1.0
  unfolding pair pair_found
  pair-IsOrdered id b w h = elim (Option-cases (find_device id b.state.devices)) [
    | inl e ↦ rw (e, pair) h
    | inr (d, e) ↦
        let o = device_origin d b.controller in
        let started = emit-IsOrdered o (pairing_started d.pairing_method) step b h in
        elim (Bool-cases (rejected (agent (request_for d.pairing_method) w).0)) [
          | inl e1 ↦ rw (e, e1, pair) (emit-IsOrdered o (pairing_failed declined) step _ started)
          | inr e1 ↦ elim (Option-cases d.pairing_failure) [
            | inl e2 ↦
                rw (e, e1, e2, pair)
                  (emit-IsOrdered o pairing_completed step _ (add_paired-IsOrdered id _ started))
            | inr (reason, e2) ↦
                rw (e, e1, e2, pair) (emit-IsOrdered o (pairing_failed reason) step _ started)
          ]
        ]
  ]

  accept_loop-IsOrdered :
      (ds : List MockDevice) (out : List DeviceId) (b : MockBackend) (w : W)
      → IsOrdered b
      → IsOrdered (accept_loop agent ds out (b, w)).1
  unfolding accept_loop
  accept_loop-IsOrdered [] out b w h = h
  accept_loop-IsOrdered (d ∷ ds) out b w h =
      accept_loop-IsOrdered ds _ _ _ (accept_one-IsOrdered d b w h)

  accept_pairings-IsOrdered :
      (o : InboundPairing) (b : MockBackend) (w : W)
      → IsOrdered b
      → IsOrdered (accept_pairings agent o (b, w)).1.0
  unfolding accept_pairings IsOrdered IsStream
  accept_pairings-IsOrdered o b w h =
      let (stream, fresh) = accept_loop-IsOrdered (limited o.max_devices b.incoming) [] b w h in
      (From-later _ _ _ _ _ _ stream, fresh)

-- A call of one of the backend's operations.
pub data Call (W : Type 0) : Type 0 where
  set_powered : Bool → Call W
  set_local_address : BdAddr → Call W
  discover : DiscoveryFilter → Call W
  pair_with : DeviceId → PairingAgent W → Call W
  connect : DeviceId → Call W
  disconnect : Connection → Call W
  push_file : Connection → OutboundFile → Call W
  accept : PairingAgent W → InboundPairing → Call W
  gatt_read : Connection → Uuid → Uuid → Call W
  gatt_write_to : Connection → Uuid → Uuid → List ℕ → Bool → Call W

module _ (to_lowercase : Str → Str) {W : Type 0} where
  -- The state that a call leaves.
  unfoldable pub run : Call W → MockBackend × W → MockBackend × W
  run (set_powered on) s = ((mock_backend to_lowercase).set_powered on s).1
  run (set_local_address a) s = ((mock_backend to_lowercase).set_local_address a s).1
  run (discover f) s = ((mock_backend to_lowercase).discover f s).1
  run (pair_with id agent) s = ((mock_backend to_lowercase).pair id agent s).1
  run (connect id) s = ((mock_backend to_lowercase).connect id s).1
  run (disconnect c) s = ((mock_backend to_lowercase).disconnect c s).1
  run (push_file c f) s = ((mock_backend to_lowercase).push_file c f s).1
  run (accept agent o) s = ((mock_backend to_lowercase).accept_pairings agent o s).1
  run (gatt_read c s k) b = ((mock_backend to_lowercase).gatt_read c s k b).1
  run (gatt_write_to c s k v r) b = ((mock_backend to_lowercase).gatt_write c s k v r b).1

  unfoldable pub run_all : List (Call W) → MockBackend × W → MockBackend × W
  unfolding run
  run_all [] s = s
  run_all (c ∷ cs) s = run_all cs (run c s)

  run-IsOrdered : (c : Call W) (s : MockBackend × W) → IsOrdered s.0 → IsOrdered (run c s).0
  unfolding run IsOrdered IsStream
  run-IsOrdered (set_powered on) s h = h
  run-IsOrdered (set_local_address a) s h = h
  run-IsOrdered (discover f) s h = discover-IsOrdered to_lowercase f s.0 h
  run-IsOrdered (pair_with id agent) s h = pair-IsOrdered agent id s.0 s.1 h
  run-IsOrdered (connect id) s h = connect-IsOrdered id s.0 h
  run-IsOrdered (disconnect c) s h = disconnect-IsOrdered c s.0 h
  run-IsOrdered (push_file c f) s h = push_file-IsOrdered c f s.0 h
  run-IsOrdered (accept agent o) s h = accept_pairings-IsOrdered agent o s.0 s.1 h
  run-IsOrdered (gatt_read c sv k) s h = gatt_read-IsOrdered c sv k s.0 h
  run-IsOrdered (gatt_write_to c sv k v r) s h = gatt_write-IsOrdered c sv k v r s.0 h

  run_all-IsOrdered :
      (cs : List (Call W)) (s : MockBackend × W) → IsOrdered s.0 → IsOrdered (run_all cs s).0
  unfolding run_all
  run_all-IsOrdered [] s h = h
  run_all-IsOrdered (c ∷ cs) s h = run_all-IsOrdered cs _ (run-IsOrdered c s h)

  -- After any calls on a mock that was just built, the events that it has emitted are numbered
  -- from 0 without a gap up to the next number, their times never decrease and do not pass the
  -- clock, and every token in use is below the next one.
  pub run_all-build :
      (builder : MockBackendBuilder) (w : W) (cs : List (Call W))
      → IsOrdered (run_all cs (build builder, w)).0
  run_all-build builder w cs = run_all-IsOrdered cs _ (build-IsOrdered builder)
