-- ===== src/Transport/Android/Tests.antt =====
-- An inquiry that meets a bonded device and another one.
use pax.Prelude.{
  ℕ, zero, suc, ◌<◌, ◌-◌, ◌≡◌, refl, Bool, true, false, Option, none, some, List, [], ◌∷◌, ltb,
}
use pax.Str.{Str, codes}
use pax.Core.Device.{DeviceId, DeviceInfo, default_id, public_id}
use pax.Core.Event.{just_works, discovery_started}
use pax.Transport.Error.{Result, ok, err}
use pax.Transport.Pairing.{bonded_by}
use pax.Transport.Backend.{new_filter}
use pax.Transport.Radio.{done, failed, Radio, emit}
use pax.Transport.Android.{Jni, new_backend}
use pax.Transport.Android.Link.{pair}
use pax.Transport.Android.Scan.{discover}
use pax.Transport.Android.Merged.{ids}

abbrev line : ℕ → Option Str
line zero = some (codes "00:00:00:00:00:01|watch|-60")
line (suc zero) = none
line (suc (suc i)) = some (codes "00:00:00:00:00:02||-32768")

-- The state is the number of bonded devices that the iterator is past.
abbrev env : Jni ℕ ℕ
env = record {
  now = λ w. record { nanos = w };
  sleep = λ d w. w;
  attach = λ w. (done tt, w);
  default_adapter = λ w. (done true, w);
  hold_adapter = λ w. (done tt, w);
  adapter_name = λ w. (done none, w);
  is_enabled = λ w. (done true, w);
  bonded_devices = λ w. (done true, w);
  iterator = λ w. (done tt, w);
  has_next = λ w. (done (ltb w 1), w);
  next = λ w. (done w, suc w);
  address = λ d w. (done (some (codes "00:00:00:00:00:01")), w);
  device_name = λ d w. (done none, w);
  device_class = λ d w. (failed (codes "no class"), w);
  find_companion = λ w. (done tt, w);
  start_discovery = λ w. (done tt, w);
  stop_discovery = λ w. (failed (codes "busy"), w);
  drain = λ w. (done tt, w);
  array_length = λ w. (done 3, w);
  array_element = λ i w. (done (line i), w);
  remote_device = λ text w. (done 0, w);
  create_bond = λ d w. (done true, w);
}

abbrev id : ℕ → DeviceId
id n = public_id (record { octets = 0 ∷ 0 ∷ 0 ∷ 0 ∷ 0 ∷ n ∷ [] })

abbrev result_ids : {W : Type 0} → Option (Result (List DeviceInfo) × W) → List DeviceId
result_ids none = []
result_ids (some (err e, w)) = []
result_ids (some (ok infos, w)) = ids infos

discover_both :
    result_ids (discover env (λ s. s) new_filter true 3 (new_backend 0)) ≡ id 1 ∷ id 2 ∷ []
unfolding discover pax.Core.Device.DeviceId-discrete pax.Prelude.ℕ_discrete
discover_both = refl

pair_bonds : (pair env (id 1) tt (new_backend 0)).0 ≡ ok (bonded_by just_works)
unfolding pair
pair_bonds = refl

abbrev started : Radio ℕ
started = emit env.now default_id discovery_started (new_backend 0)

-- The devices that the iterator has yet to give.
abbrev remaining : ℕ → ℕ
remaining w = 1 - w
