-- ===== src/Transport/Bluez/PortAuth.antt =====
-- crates/pax-transport/src/bluez/port_auth.rs: the port-auth states that NetworkManager knows of
-- Bluetooth devices.
use pax.Prelude.{
  ℕ, true, false, Option, none, some, List, [], ◌∷◌, ◌++◌, ◌==◌, is_yes, if◌then◌else◌,
}
use pax.Str.{Str, codes}
use pax.Core.Error
use pax.Core.Address
use pax.Core.Device.{DeviceId, DeviceId-discrete, public_id}
use pax.Core.Standards.{
  PortAuthState, not_applicable, unauthenticated, authenticating, authenticated, auth_failed,
  StandardsProfile, bredr_default, with_port_auth,
}
use pax.Transport.Error.{TransportError, backend, ok, err, Op}
use pax.Transport.Radio.{Answer, done, failed, Call}

abbrev pub nm_device_type_bt : ℕ
nm_device_type_bt = 5

unfoldable pub map_state : ℕ → PortAuthState
map_state nm_state =
    if nm_state == 60
    then authenticating
    else if nm_state == 100
    then authenticated
    else if nm_state == 120
    then auth_failed
    else unauthenticated

-- The D-Bus calls in a state `W` of the host, on devices by their object path.
pub record Manager (W : Type 0) : Type 0 where
  pub nm_proxy : Call W (Unit {0})
  pub get_devices : Call W (List Str)
  pub device_proxy : Str → Call W (Unit {0})
  pub device_type : Str → Call W ℕ
  pub hw_address : Str → Call W Str
  pub state : Str → Call W ℕ

-- The resolver; its map is a list with one entry for each device.
pub record NetworkManagerStandards (W : Type 0) : Type 0 where
  pub world : W
  pub cache : List (DeviceId × PortAuthState)

-- `HashMap::insert`.
unfoldable pub insert :
    DeviceId → PortAuthState → List (DeviceId × PortAuthState) → List (DeviceId × PortAuthState)
insert id s [] = (id, s) ∷ []
insert id s (e ∷ es) =
    let rest = insert id s es in
    if is_yes (DeviceId-discrete e.0 id) then (id, s) ∷ es else e ∷ rest

unfoldable pub get : DeviceId → List (DeviceId × PortAuthState) → Option PortAuthState
get id [] = none
get id (e ∷ es) =
    let rest = get id es in if is_yes (DeviceId-discrete e.0 id) then some e.1 else rest

abbrev pub zerr : Str → TransportError
zerr e = backend (codes "networkmanager: " ++ e)

-- `unwrap_or(0)`.
abbrev or_zero : Answer ℕ → ℕ
or_zero (done n) = n
or_zero (failed e) = 0

-- The end of a round of `refresh`: an address that does not parse adds nothing.
unfoldable pub record_state :
    Str → ℕ → List (DeviceId × PortAuthState) → List (DeviceId × PortAuthState)
unfolding Address.parse insert map_state
record_state hw nm_state fresh = elim (Address.parse hw) [
  | pax.Core.Error.err e ↦ fresh
  | pax.Core.Error.ok addr ↦ insert (public_id addr) (map_state nm_state) fresh
]

unfoldable pub resolve : {W : Type 0} → NetworkManagerStandards W → DeviceId → StandardsProfile
unfolding get
resolve s peer =
    with_port_auth bredr_default (elim (get peer s.cache) [ none ↦ not_applicable | some p ↦ p ])

module _ {W : Type 0} (nm : Manager W) where
  -- A device of the list: one without a proxy, of another type or without an address is skipped.
  unfoldable pub read_device :
      Str → List (DeviceId × PortAuthState) → W → List (DeviceId × PortAuthState) × W
  unfolding record_state
  read_device path fresh w =
      let (proxy, w1) = nm.device_proxy path w in
      elim proxy [
        | failed e ↦ (fresh, w1)
        | done u ↦
            let (dtype, w2) = nm.device_type path w1 in
            elim (or_zero dtype == nm_device_type_bt) [
              | false ↦ (fresh, w2)
              | true ↦
                  let (hw, w3) = nm.hw_address path w2 in
                  elim hw [
                    | failed e ↦ (fresh, w3)
                    | done text ↦
                        let (state, w4) = nm.state path w3 in
                        (record_state text (or_zero state) fresh, w4)
                  ]
            ]
      ]

  unfoldable pub refresh_loop :
      List Str → List (DeviceId × PortAuthState) → W → List (DeviceId × PortAuthState) × W
  unfolding read_device
  refresh_loop [] fresh w = (fresh, w)
  refresh_loop (path ∷ paths) fresh w =
      let (fresh1, w1) = read_device path fresh w in refresh_loop paths fresh1 w1

  -- The part of `refresh` behind the list of the devices.
  unfoldable pub store_fresh : List Str → Op (NetworkManagerStandards W) (Unit {0})
  unfolding refresh_loop
  store_fresh paths s =
      let (fresh, w) = refresh_loop paths [] s.world in (ok tt, record { world = w; cache = fresh })

  unfoldable pub refresh : Op (NetworkManagerStandards W) (Unit {0})
  unfolding store_fresh
  refresh s =
      let (proxy, w) = nm.nm_proxy s.world in
      elim proxy [
        | failed e ↦ (err (zerr e), record s { world = w })
        | done u ↦
            let (paths, w1) = nm.get_devices w in
            elim paths [
              | failed e ↦ (err (zerr e), record s { world = w1 })
              | done list ↦ store_fresh list (record s { world = w1 })
            ]
      ]
