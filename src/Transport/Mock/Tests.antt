-- ===== src/Transport/Mock/Tests.antt =====
-- The mock on a small network: a speaker that takes chunks of four bytes, and a sensor that fails
-- transfers after ten bytes and pairing always.
use pax.Prelude.{
  ℕ, ◌+◌, ◌*◌, ◌≤◌, ◌<◌, ◌≡◌, ◌≢◌, refl, true, false, ◌||◌, ◌&&◌, some, List, [], ◌∷◌, replicate,
  arith, is_yes, length, ℕ_discrete,
}
use pax.Str.{Str, codes}
use pax.Core.Time.{from_millis}
use pax.Core.Uuid.{Uuid, from_u16}
use pax.Transport.Mock.Gatt.Store.{Request, read, write, run_mock, run_spec, store_of}
use pax.Transport.Mock.Gatt.Refines.{run_mock-refines}
use pax.Core.Device.{DeviceId, DeviceId-discrete, public_id}
use pax.Transport.Error.{transfer_failed, not_connected, ok, err, is_ok}
use pax.Transport.Pairing.{PairingAgent, confirm}
use pax.Transport.Transfer.{OutboundFile, new_file}
use pax.Transport.Backend.{Connection, new_filter, for_window}
use pax.Transport.Mock.{
  MockDevice, MockBackend, MockBackendBuilder, new_device, failing_pairing, with_transfer_profile,
  failing_transfer_after, new_builder, add_device, add_incoming, build, emit, find_device,
}
use pax.Transport.Mock.Discover.{discover}
use pax.Transport.Mock.Discover.Results.{matching, discover-matching}
use pax.Transport.Mock.Pair.{pair, contains_id}
use pax.Transport.Mock.Pair.Outcomes.{Ends, pair-Ends}
use pax.Transport.Mock.Link.{connect, disconnect, has_token, remove_token, insert_token}
use pax.Transport.Mock.Link.Tokens.{connect-live, disconnect-closed, disconnect-refused}
use pax.Transport.Mock.Push.{push_file, failure_reason}
use pax.Transport.Mock.Push.Loop.{carried}
use pax.Transport.Mock.Push.Receipts.{push_file-ok, push_file-err}
use pax.Transport.Mock.Stream.Kept.{IsOrdered}
use pax.Transport.Mock.Stream.Calls.{
  Call, run_all, run_all-build, set_powered, discover as discover_call, pair_with,
  connect as connect_call, push_file as push_call, accept, disconnect as disconnect_call,
}

abbrev pub speaker_id : DeviceId
speaker_id = public_id (record { octets = 0x00 ∷ 0x1A ∷ 0x7D ∷ 0xDA ∷ 0x71 ∷ 0x13 ∷ [] })

abbrev pub sensor_id : DeviceId
sensor_id = public_id (record { octets = 0x00 ∷ 0x1A ∷ 0x7D ∷ 0xDA ∷ 0x71 ∷ 0x14 ∷ [] })

abbrev pub speaker : MockDevice
speaker = with_transfer_profile (new_device speaker_id (codes "speaker")) 4 (from_millis 2)

abbrev pub sensor : MockDevice
sensor =
    failing_transfer_after
      (with_transfer_profile (failing_pairing (new_device sensor_id (codes "sensor")) (codes "no"))
        4 (from_millis 2))
      10

abbrev pub network : MockBackendBuilder
network = add_incoming (add_device (add_device new_builder speaker) sensor) sensor

-- The texts of these tests have no capitals.
abbrev pub unchanged : Str → Str
unchanged s = s

abbrev pub agree : PairingAgent (Unit {0})
agree request w = (confirm true, w)

-- The first link to a device.
abbrev pub link : MockDevice → DeviceId → Connection
link d id = record {
  peer = id;
  local = network.controller;
  spec = d.spec;
  standards = d.standards;
  token = 1;
}

abbrev pub photo : OutboundFile
photo = new_file (codes "photo") (replicate 11 7)

abbrev pub linked : DeviceId → MockBackend
linked id = (connect id (build network)).1

connects : (connect speaker_id (build network)).0 ≡ ok (link speaker speaker_id)
unfolding connect build find_device DeviceId-discrete ℕ_discrete
connects = refl

abbrev pub calls : List (Call (Unit {0}))
calls =
    set_powered true
    ∷ discover_call new_filter
    ∷ pair_with speaker_id agree
    ∷ connect_call sensor_id
    ∷ push_call (link sensor sensor_id) photo
    ∷ accept agree (for_window (from_millis 5))
    ∷ disconnect_call (link sensor sensor_id)
    ∷ []

run_all-build_example : IsOrdered (run_all unchanged calls (build network, tt)).0
run_all-build_example = run_all-build unchanged network tt calls

discover-matching_example :
    ((discover unchanged new_filter (build network)).0
      ≡ ok (matching unchanged new_filter 0 (build network).state.devices))
    × ((discover unchanged new_filter (build network)).1.state.seq
        ≡ (build network).state.seq
          + 1
          + length (matching unchanged new_filter 0 (build network).state.devices))
discover-matching_example = discover-matching unchanged new_filter (build network)

pair-Ends_example :
    Ends agree speaker_id (build network) tt (pair agree speaker_id (build network, tt)).0
    × ((x : DeviceId)
        → contains_id x (pair agree speaker_id (build network, tt)).1.0.state.paired ≡ (
            contains_id x (build network).state.paired
            || (is_ok (pair agree speaker_id (build network, tt)).0
                && is_yes (DeviceId-discrete speaker_id x))))
pair-Ends_example = pair-Ends agree speaker_id (build network) tt

connect-live_example :
    (conn : Connection) × ((connect speaker_id (build network)).0 ≡ ok conn)
    × (conn.peer ≡ speaker_id)
    × (has_token conn.token (connect speaker_id (build network)).1.state.connections ≡ true)
    × ((t : ℕ)
        → (build network).state.next_token ≢ t
        → has_token t (connect speaker_id (build network)).1.state.connections
          ≡ has_token t (build network).state.connections)
unfolding find_device DeviceId-discrete build ℕ_discrete
connect-live_example = connect-live speaker_id (build network) speaker refl

disconnect-closed_example :
    (has_token 1 (disconnect (link speaker speaker_id) (linked speaker_id)).1.state.connections
      ≡ false)
    × ((t : ℕ)
        → 1 ≢ t
        → has_token t (disconnect (link speaker speaker_id) (linked speaker_id)).1.state.connections
          ≡ has_token t (linked speaker_id).state.connections)
disconnect-closed_example = disconnect-closed (link speaker speaker_id) (linked speaker_id)

abbrev hung_up : MockBackend
hung_up = (disconnect (link speaker speaker_id) (linked speaker_id)).1

disconnect-refused_example :
    (push_file (link speaker speaker_id) photo hung_up ≡ (err (not_connected speaker_id), hung_up))
    × (disconnect (link speaker speaker_id) hung_up ≡ (err (not_connected speaker_id), hung_up))
disconnect-refused_example = disconnect-refused (link speaker speaker_id) photo (linked speaker_id)

push_file-ok_example :
    (k : ℕ) × (11 ≤ k * 4)
    × (k * 4 < 11 + 4)
    × ((push_file (link speaker speaker_id) photo (linked speaker_id)).0
        ≡ ok (record {
          object_name = codes "photo";
          bytes = 11;
          chunks = k;
          duration = record { nanos = 1_000_000 + k * 2_000_000 };
        }))
    × (carried (push_file (link speaker speaker_id) photo (linked speaker_id)).1.emitted
        ≡ carried (linked speaker_id).emitted + 11)
unfolding find_device DeviceId-discrete build connect has_token insert_token remove_token ℕ_discrete
    emit
push_file-ok_example =
    push_file-ok (link speaker speaker_id) photo (linked speaker_id) speaker refl refl refl

push_file-err_example :
    (j : ℕ) × (j * 4 ≤ 10)
    × (10 < (j + 1) * 4)
    × ((push_file (link sensor sensor_id) photo (linked sensor_id)).0
        ≡ err (transfer_failed (j * 4) (failure_reason (some 10))))
    × (carried (push_file (link sensor sensor_id) photo (linked sensor_id)).1.emitted
        ≡ carried (linked sensor_id).emitted + j * 4)
unfolding find_device DeviceId-discrete build connect has_token insert_token remove_token ℕ_discrete
    emit
push_file-err_example =
    push_file-err (link sensor sensor_id) photo (linked sensor_id) sensor 10 refl refl refl
      (omega arith)

abbrev battery : Uuid
battery = from_u16 0x180F

-- A value is written and read, and another characteristic is not there.
abbrev requests : List Request
requests =
    write (link speaker speaker_id) battery battery (9 ∷ []) true
    ∷ read (link speaker speaker_id) battery battery
    ∷ read (link speaker speaker_id) battery (from_u16 0x2A19)
    ∷ []

run_mock-refines_example :
    ((run_mock requests (build network)).0 ≡ (run_spec requests (store_of (build network))).0)
    × (store_of (run_mock requests (build network)).1
        ≡ (run_spec requests (store_of (build network))).1)
run_mock-refines_example = run_mock-refines requests (build network)
