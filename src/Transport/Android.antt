-- ===== src/Transport/Android.antt =====
-- crates/pax-transport/src/android.rs: the backend over `android.bluetooth`, by calls of the JNI on
-- devices `D`. The push over an RFCOMM socket is not here.
pub mod Devices
pub mod Bonded
pub mod Found
pub mod Link
pub mod Merged
mod Tests
pub mod Scan
use pax.Prelude.{ℕ, Bool, true, false, Option, none, some, List, [], ◌∷◌, ◌++◌}
use pax.Str.{Str, codes}
use pax.Core.Time.{Duration, Timestamp, from_secs}
use pax.Core.Spec.{br_edr, le, dual, v5_0}
use pax.Core.Hardware.{CompanyId, unknown}
use pax.Core.Address.{nil}
use pax.Transport.Error.{backend, unavailable, Result, ok, err, Op, ◌>>=◌, ◌>>◌}
use pax.Transport.Backend.{Capabilities, AdapterInfo, android}
use pax.Transport.Radio.{Answer, done, failed, Call, Radio, moved, default_standards}

-- The calls of the JNI in a state `W` of the app: each is one call of a method, with the class or
-- the arguments looked up for it and the conversion of its value. A Java string is `none` when it
-- is null or cannot be read.
pub record Jni (W D : Type 0) : Type 0 where
  pub now : W → Timestamp
  pub sleep : Duration → W → W
  pub attach : Call W (Unit {0})
  -- whether there is a default adapter
  pub default_adapter : Call W Bool
  -- a global reference to that adapter
  pub hold_adapter : Call W (Unit {0})
  pub adapter_name : Call W (Option Str)
  pub is_enabled : Call W Bool
  -- whether there is a set of bonded devices, and its iterator
  pub bonded_devices : Call W Bool
  pub iterator : Call W (Unit {0})
  pub has_next : Call W Bool
  pub next : Call W D
  pub address : D → Call W (Option Str)
  pub device_name : D → Call W (Option Str)
  -- the class, when its object is there and not null
  pub device_class : D → Call W (Option ℕ)
  -- the companion class and its array of lines
  pub find_companion : Call W (Unit {0})
  pub start_discovery : Call W (Unit {0})
  pub stop_discovery : Call W (Unit {0})
  pub drain : Call W (Unit {0})
  pub array_length : Call W ℕ
  pub array_element : ℕ → Call W (Option Str)
  -- by the text of an address
  pub remote_device : Str → Call W D
  pub create_bond : D → Call W Bool

-- A call, its error mapped by `jerr`.
abbrev pub jni {ℓ} : {W : Type 0} {A : Type ℓ} → Call W A → Op (Radio W) A
jni call r =
    let (a, w) = call r.world in
    elim a [
      | done x ↦ (ok x, moved r w)
      | failed e ↦ (err (backend (codes "jni: " ++ e)), moved r w)
    ]

-- The fields of a backend in the app `w`.
abbrev pub new_backend : {W : Type 0} → W → Radio W
new_backend w = record {
  world = w;
  controller = record {
    manufacturer = record { id = 0xFFFF };
    family = unknown;
    model = codes "android-adapter";
  };
  spec = record { version = v5_0; transport = dual };
  standards = default_standards;
  seq = 0;
  discovery_window = from_secs 8;
  emitted = [];
}

abbrev pub capabilities : Capabilities
capabilities = record {
  kind = android;
  transports = br_edr ∷ le ∷ dual ∷ [];
  can_pair = true;
  can_push_files = true;
  max_concurrent_pairings = 1;
  can_accept_pairings = false;
  can_gatt = false;
  can_spoof_address = false;
}

abbrev or_android : Option Str → Str
or_android none = codes "android"
or_android (some s) = s

module _ {W D : Type 0} (env : Jni W D) where
  -- `new`: the fields, once there is an adapter.
  abbrev pub when_present : Bool → Op (Radio W) (Unit {0})
  when_present true r = jni env.hold_adapter r
  when_present false r = (err (unavailable (codes "no Bluetooth adapter on this device")), r)

  unfoldable pub open_adapter : Op (Radio W) (Unit {0})
  open_adapter = do jni env.attach; present ← jni env.default_adapter; when_present present

  unfoldable pub adapter : Op (Radio W) AdapterInfo
  adapter = do
    jni env.attach
    name ← jni env.adapter_name
    powered ← jni env.is_enabled
    λ r. (
      ok (record {
        address = nil;
        name = or_android name;
        controller = r.controller;
        spec = r.spec;
        powered = powered;
      }),
      r,
    )

  abbrev pub set_powered : Bool → Op (Radio W) (Unit {0})
  set_powered on r = (ok tt, r)
