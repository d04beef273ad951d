-- ===== src/Transport/Bluez/Adapter.antt =====
-- What the backend does with the adapter: its details, power, visibility and address.
use pax.Prelude.{ℕ, ◌/◌, ◌%◌, ◌^◌, Bool, true, Option, none, some, List, ◌++◌}
use pax.Str.{Str, codes}
use pax.Core.Address.{BdAddr}
use pax.Core.Time.{Duration, as_millis}
use pax.Hci.{ControllerInfo, SetAddressError, IoError}
use pax.Hci
use pax.Hci.Mgmt.{Libc, spoof_public_address}
use pax.Transport.Error.{local_address, ok, err, Op, ◌>>=◌, ◌>>◌}
use pax.Transport.Backend.{AdapterInfo}
use pax.Transport.Radio.{done, failed, Call, Radio, moved, lift, return}
use pax.Transport.Bluez.{Bluer, from_bluer_addr, hci_index}

module _ {W D E : Type 0} (bluer : Bluer W D E) (libc : Libc W E) where
  unfoldable pub adapter : Op (Radio W) AdapterInfo
  unfolding from_bluer_addr
  adapter = do
    address ← lift bluer.address
    name ← lift bluer.alias
    powered ← lift bluer.is_powered
    λ r. (
      ok (record {
        address = from_bluer_addr address;
        name = name;
        controller = r.controller;
        spec = r.spec;
        powered = powered;
      }),
      r,
    )

  abbrev pub set_powered : Bool → Op (Radio W) (Unit {0})
  set_powered on = lift (bluer.set_powered on)

  -- A timeout in whole seconds, as `u32`, where there is one.
  abbrev pub with_timeout : (ℕ → Call W (Unit {0})) → Option Duration → Op (Radio W) (Unit {0})
  with_timeout call none = return tt
  with_timeout call (some t) = lift (call (as_millis t / 1000 % 2 ^ 32))

  unfoldable pub set_discoverable : Bool → Option Duration → Op (Radio W) (Unit {0})
  unfolding as_millis
  set_discoverable on timeout = do
    with_timeout bluer.set_discoverable_timeout timeout
    lift (bluer.set_discoverable on)

  unfoldable pub set_pairable : Bool → Option Duration → Op (Radio W) (Unit {0})
  unfolding as_millis
  set_pairable on timeout = do
    with_timeout bluer.set_pairable_timeout timeout
    lift (bluer.set_pairable on)

  -- `{:?}` of a text, and the text of an `io::Error`, are the standard library's.
  module _ (debug : Str → Str) (display_io : IoError E → Str) where
    -- The two `map_err` behind the task, then `set_powered(true)`.
    unfoldable pub spoof_on : List ℕ → ℕ → Op (Radio W) (Unit {0})
    unfolding Hci.display
    spoof_on octets index r =
        let (task, w) = bluer.spawn_blocking (spoof_public_address libc index octets) r.world in
        elim task [
          | failed e ↦ (err (local_address (codes "spoof task failed: " ++ e)), moved r w)
          | done result ↦ elim result [
            | Hci.err e ↦ (err (local_address (Hci.display display_io e)), moved r w)
            | Hci.ok u ↦ lift (bluer.set_powered true) (moved r w)
          ]
        ]

    unfoldable pub set_local_address : BdAddr → Op (Radio W) (Unit {0})
    unfolding spoof_on
    set_local_address addr r =
        let name = bluer.adapter_name r.world in
        elim (hci_index name) [
          | none ↦ (
            err (
                local_address
                  (codes "cannot derive an HCI index from adapter name " ++ debug name)),
            r,
          )
          | some index ↦ spoof_on addr.octets index r
        ]
