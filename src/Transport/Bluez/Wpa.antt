-- ===== src/Transport/Bluez/Wpa.antt =====
-- crates/pax-transport/src/bluez/wpa.rs: the port-auth state of wpa_supplicant's interfaces.
pub mod Best
use pax.Prelude.{
  ℕ, Bool, true, false, Option, none, some, List, [], ◌∷◌, ◌++◌, ltb, not, is_yes, if◌then◌else◌,
}
use pax.Str.{Str, codes, Str-discrete}
use pax.Core.Standards.{
  PortAuthState, not_applicable, unauthenticated, authenticating, authenticated, auth_failed,
  StandardsProfile, bredr_default, with_port_auth,
}
use pax.Core.Device.{DeviceId}
use pax.Transport.Error.{TransportError, backend, Result, ok, err, Op}
use pax.Transport.Radio.{Answer, done, failed, Call}

abbrev is_text : Str → Str → Bool
is_text s t = is_yes (Str-discrete s t)

unfoldable pub map_state : Str → PortAuthState
unfolding Str-discrete
map_state s =
    if is_text s (codes "completed")
    then authenticated
    else if is_text s (codes "authenticating")
    then authenticating
    else if is_text s (codes "associating")
    then authenticating
    else if is_text s (codes "associated")
    then authenticating
    else if is_text s (codes "4way_handshake")
    then authenticating
    else if is_text s (codes "group_handshake")
    then authenticating
    else unauthenticated

unfoldable pub rank : PortAuthState → ℕ
rank authenticated = 4
rank authenticating = 3
rank auth_failed = 2
rank unauthenticated = 1
rank not_applicable = 0

-- The D-Bus calls in a state `W` of the host, on interfaces by their object path.
pub record Supplicant (W : Type 0) : Type 0 where
  pub system_bus : Call W (Unit {0})
  pub root_proxy : Call W (Unit {0})
  pub interfaces : Call W (List Str)
  pub iface_proxy : Str → Call W (Unit {0})
  pub ifname : Str → Call W Str
  pub state : Str → Call W Str

-- The resolver: `world` is the host behind its connection.
pub record WpaSupplicantStandards (W : Type 0) : Type 0 where
  pub world : W
  pub ifname : Option Str
  pub state : PortAuthState

abbrev pub zerr : Str → TransportError
zerr e = backend (codes "wpa_supplicant: " ++ e)

-- `unwrap_or_default` of a text.
abbrev or_empty : Answer Str → Str
or_empty (done s) = s
or_empty (failed e) = []

unfoldable pub for_interface :
    {W : Type 0} → WpaSupplicantStandards W → Str → WpaSupplicantStandards W
for_interface s name = record s { ifname = some name }

-- `resolve` applies the one state to every peer.
unfoldable pub resolve : {W : Type 0} → WpaSupplicantStandards W → DeviceId → StandardsProfile
resolve s peer = with_port_auth bredr_default s.state

-- The better of an interface's state, where there is one, and the best so far.
unfoldable pub better : Option PortAuthState → PortAuthState → PortAuthState
unfolding rank
better none best = best
better (some mapped) best = if ltb (rank best) (rank mapped) then mapped else best

module _ {W : Type 0} (wpa : Supplicant W) where
  unfoldable pub connect : W → Result (WpaSupplicantStandards W) × W
  connect w =
      let (a, w1) = wpa.system_bus w in
      elim a [
        | failed e ↦ (err (zerr e), w1)
        | done u ↦ (ok (record { world = w1; ifname = none; state = not_applicable }), w1)
      ]

  -- Whether an interface is the wanted one; its name is read only when one is wanted.
  unfoldable pub is_wanted : Option Str → Str → W → Bool × W
  unfolding Str-discrete
  is_wanted none path w = (true, w)
  is_wanted (some want) path w =
      let (name, w1) = wpa.ifname path w in (is_text (or_empty name) want, w1)

  -- The mapped state of an interface that counts: it has a proxy, it is wanted, and its state can
  -- be read.
  unfoldable pub read_iface : Option Str → Str → W → Option PortAuthState × W
  unfolding is_wanted map_state
  read_iface want path w =
      let (proxy, w1) = wpa.iface_proxy path w in
      elim proxy [
        | failed e ↦ (none, w1)
        | done u ↦
            let (wanted, w2) = is_wanted want path w1 in
            elim wanted [
              | false ↦ (none, w2)
              | true ↦
                  let (state, w3) = wpa.state path w2 in
                  (elim state [ failed e ↦ none | done s ↦ some (map_state s) ], w3)
            ]
      ]

  -- The loop of `refresh`.
  unfoldable pub refresh_loop : Option Str → List Str → PortAuthState → W → PortAuthState × W
  unfolding read_iface better
  refresh_loop want [] best w = (best, w)
  refresh_loop want (path ∷ paths) best w =
      let (got, w1) = read_iface want path w in refresh_loop want paths (better got best) w1

  -- The part of `refresh` behind the list of the interfaces.
  unfoldable pub store_best : List Str → Op (WpaSupplicantStandards W) (Unit {0})
  unfolding refresh_loop
  store_best paths s =
      let (best, w) = refresh_loop s.ifname paths not_applicable s.world in
      (ok tt, record s { world = w; state = best })

  unfoldable pub refresh : Op (WpaSupplicantStandards W) (Unit {0})
  unfolding store_best
  refresh s =
      let (root, w) = wpa.root_proxy s.world in
      elim root [
        | failed e ↦ (err (zerr e), record s { world = w })
        | done u ↦
            let (paths, w1) = wpa.interfaces w in
            elim paths [
              | failed e ↦ (err (zerr e), record s { world = w1 })
              | done list ↦ store_best list (record s { world = w1 })
            ]
      ]
