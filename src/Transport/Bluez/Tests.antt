-- ===== src/Transport/Bluez/Tests.antt =====
-- The backend over BlueZ on a small host, whose state is a clock in nanoseconds.
use pax.Prelude.{ℕ, ◌+◌, ◌≡◌, refl, true, false, none, some, List, [], ◌∷◌, ◌++◌, arith, map, ◌||◌}
use pax.Str.{codes}
use pax.Core.Device.{DeviceId, public_id}
use pax.Core.Standards.{bredr_default, authenticated, not_applicable}
use pax.Core.Spec.{v5_2, dual}
use pax.Core.Hardware.{virtual_model}
use pax.Diagnostics.Metrics.Sums.{payload}
use pax.Transport.Error.{Result, ok}
use pax.Transport.Pairing.{PairingAgent, confirm}
use pax.Transport.Backend.{Connection}
use pax.Transport.Transfer.{TransferReceipt, new_file}
use pax.Transport.Radio.{Radio, done, default_standards}
use pax.Transport.Bluez.{Bluer, from_bluer_addr, hci_index}
use pax.Transport.Bluez.Agent.{
  Agents, Cells, no_cells, Prompt, confirmation, pin_prompt, authorization, on_prompt,
}
use pax.Transport.Bluez.Agent.Accept.{window_loop}
use pax.Transport.Bluez.Agent.Bonds.{Over, window_loop-Over}
use pax.Transport.Bluez.Agent.Prompts.{
  run_prompts, is_granted, decisions, agreed, last_method, run_prompts-agreed,
}
use pax.Pairing.Batch.Panics.{IsDistinct}
use pax.Pairing.Batch.Dedup.{lists}
use pax.Transport.Bluez.Obex.{Obexd, object_push}
use pax.Transport.Bluez.Obex.Sessions.{object_push-removes}
use pax.Transport.Bluez.Push.{Files, push_file}
use pax.Transport.Bluez.Push.Payload.{Accounted, push_file-Ends}
use pax.Transport.Bluez.Wpa.{Supplicant, WpaSupplicantStandards, refresh}
use pax.Transport.Bluez.Wpa.Best.{IsBest, states, refresh-IsBest}

hci_index_runs : hci_index (codes "hci12") ≡ some 12
unfolding hci_index
hci_index_runs = refl

hci_index_other : hci_index (codes "hci70000") ≡ none
unfolding hci_index
hci_index_other = refl

-- Two interfaces: one scans, the other is authenticated.
abbrev supplicant : Supplicant (Unit {0})
supplicant = record {
  system_bus = λ w. (done tt, w);
  root_proxy = λ w. (done tt, w);
  interfaces = λ w. (done (codes "scanning" ∷ codes "completed" ∷ []), w);
  iface_proxy = λ path w. (done tt, w);
  ifname = λ path w. (done path, w);
  state = λ path w. (done path, w);
}

abbrev resolver : WpaSupplicantStandards (Unit {0})
resolver = record { world = tt; ifname = none; state = not_applicable }

refresh_runs : (refresh supplicant resolver).1.state ≡ authenticated
unfolding refresh
refresh_runs = refl

refresh-IsBest_example :
    ((refresh supplicant resolver).0 ≡ ok tt)
    × IsBest not_applicable
        (states supplicant none (codes "scanning" ∷ codes "completed" ∷ []) tt)
        (refresh supplicant resolver).1.state
refresh-IsBest_example =
    refresh-IsBest supplicant resolver (codes "scanning" ∷ codes "completed" ∷ []) refl refl

abbrev agent : PairingAgent ℕ
agent request w = (confirm true, w)

abbrev phone : List ℕ
phone = 1 ∷ 2 ∷ 3 ∷ 4 ∷ 5 ∷ 6 ∷ []

abbrev prompts : List Prompt
prompts = pin_prompt phone ∷ confirmation phone 7 ∷ authorization phone ∷ []

run_prompts-agreed_example :
    let (replies, w, after) = run_prompts agent prompts (0, no_cells) in
    (map is_granted replies ≡ decisions agent prompts 0)
    × IsDistinct after.bonded
    × ((j : DeviceId) → lists j after.bonded ≡ (lists j [] || lists j (agreed agent prompts 0)))
    × (after.method_seen ≡ last_method agent prompts none)
unfolding IsDistinct
run_prompts-agreed_example = run_prompts-agreed agent prompts 0 no_cells tt

-- A sleep takes its time, and the phone asks for a bond in each.
abbrev agents : Agents ℕ (Unit {0})
agents = record {
  register = λ w. (done tt, w);
  unregister = λ w. w;
  pair = λ d callback st.
      let (reply, w, cells) = callback (confirmation phone 7) st in (done tt, w, cells);
  sleep = λ nanos callback st.
      let (reply, w, cells) = callback (confirmation phone 7) st in (w + nanos, cells);
  instant = λ w. w;
}

window_loop-Over_example :
    (end : ℕ × Cells) × (window_loop agents agent 5 (some 2) 1_000_000_000 (0, no_cells) ≡ some end)
    × Over agents agent (some 2) 1_000_000_000 end
unfolding on_prompt
window_loop-Over_example =
    window_loop-Over agents agent (λ nanos st. omega arith) 5 (some 2) 1_000_000_000 (0, no_cells)
      (omega arith)

-- The service: each look at the status takes a nanosecond, and the first finds the push complete.
abbrev obexd : Obexd ℕ
obexd = record {
  session_bus = λ w. (done tt, w);
  client_proxy = λ w. (done tt, w);
  create_session = λ dest w. (done (codes "/session0"), w);
  remove_session = λ session w. (done tt, w + 1_000);
  push_proxy = λ session w. (done tt, w);
  send_file = λ session source w. (done (codes "/transfer0", none), w);
  transfer_proxy = λ path w. (done tt, w);
  properties_proxy = λ path w. (done tt, w);
  receive_changes = λ path w. (done tt, w);
  current_status = λ path w. (some (codes "complete"), w + 1);
  next_change = λ timeout path w. (none, w + timeout);
  instant = λ w. w;
}

object_push-removes_example :
    (end : Result ℕ × ℕ × ℕ) × (last : ℕ) × (object_push obexd
        (λ n w c. n)
        300_000_000_001
        (codes "AA")
        (codes "/tmp/a")
        0
        0
      ≡ some end)
    × (end.1 ≡ last + 1_000)
object_push-removes_example =
    object_push-removes obexd (λ n w c. n)
      ((λ path w. omega arith), (λ timeout path w. omega arith)) 300_000_000_001 (omega arith)
      (codes "/tmp/a") (codes "AA") (codes "/session0") 0 0 refl refl refl

abbrev bluer : Bluer ℕ (Unit {0}) (Unit {0})
bluer = record {
  now = λ w. record { nanos = w };
  new_session = λ w. (done tt, w);
  default_adapter = λ w. (done tt, w);
  adapter_name = λ w. codes "hci0";
  alias = λ w. (done (codes "desk"), w);
  address = λ w. (done phone, w);
  modalias_vendor = λ w. (done none, w);
  is_powered = λ w. (done true, w);
  set_powered = λ on w. (done tt, w);
  set_discoverable = λ on w. (done tt, w);
  set_pairable = λ on w. (done tt, w);
  set_discoverable_timeout = λ secs w. (done tt, w);
  set_pairable_timeout = λ secs w. (done tt, w);
  device = λ addr w. (done tt, w);
  device_name = λ d w. (done none, w);
  rssi = λ d w. (done none, w);
  is_paired = λ d w. (done false, w);
  is_connected = λ d w. (done false, w);
  class = λ d w. (done none, w);
  uuids = λ d w. (done none, w);
  connect = λ d w. (done tt, w);
  disconnect = λ d w. (done tt, w);
  spawn_blocking = λ task w. let (result, w1) = task w in (done result, w1);
}

abbrev files : Files ℕ
files = record {
  temp_dir = λ w. codes "/tmp";
  process_id = λ w. 7;
  create = λ path w. (done tt, w);
  write_all = λ path bytes w. (done tt, w);
  flush = λ path w. (done tt, w);
  remove_file = λ path w. w;
  join_path = λ dir name. dir ++ codes "/" ++ name;
  to_string_lossy = λ path. path;
  chars = λ s. [];
  is_alphanumeric = λ c. true;
}

abbrev radio : Radio ℕ
radio = record {
  world = 0;
  controller = virtual_model (codes "desk");
  spec = record { version = v5_2; transport = dual };
  standards = default_standards;
  seq = 0;
  discovery_window = record { nanos = 0 };
  emitted = [];
}

abbrev conn : Connection
conn = record {
  peer = public_id (from_bluer_addr phone);
  local = virtual_model (codes "desk");
  spec = record { version = v5_2; transport = dual };
  standards = bredr_default;
  token = 0;
}

push_file-Ends_example :
    (end : Result TransferReceipt × Radio ℕ) × (push_file bluer files obexd 300_000_000_001 conn
        (new_file (codes "a") (1 ∷ 2 ∷ []))
        radio
      ≡ some end)
    × Accounted bluer 0 (some end)
unfolding payload
push_file-Ends_example =
    push_file-Ends bluer files obexd 300_000_000_001 conn (new_file (codes "a") (1 ∷ 2 ∷ []))
      ((λ path w. omega arith), (λ timeout path w. omega arith)) (omega arith) radio
