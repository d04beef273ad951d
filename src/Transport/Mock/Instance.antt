-- ===== src/Transport/Mock/Instance.antt =====
-- The mock as a backend: an operation that consults no agent leaves what stands behind agents.
use pax.Str.{Str}
use pax.Transport.Error.{Op}
use pax.Transport.Pairing.{PairingAgent}
use pax.Transport.Backend.{Backend}
use pax.Transport.Mock.{MockBackend}
use pax.Transport.Mock.Link.{
  capabilities, adapter, set_powered, set_local_address, set_discoverable, set_pairable, connect,
  disconnect,
}
use pax.Transport.Mock.Discover.{discover}
use pax.Transport.Mock.Pair.{pair, accept_pairings}
use pax.Transport.Mock.Push.{push_file}
use pax.Transport.Mock.Gatt.{gatt_read, gatt_write, gatt_subscribe}

-- An operation on the backend alone.
abbrev pub alone {ℓ} : {W : Type 0} {A : Type ℓ} → Op MockBackend A → Op (MockBackend × W) A
alone op (b, w) = let (r, b') = op b in (r, (b', w))

abbrev pub mock_backend : (Str → Str) → {W : Type 0} → Backend (MockBackend × W) (PairingAgent W)
mock_backend to_lowercase = record {
  name = λ s. s.0.name;
  capabilities = λ s. capabilities s.0;
  adapter = alone adapter;
  set_powered = λ on. alone (set_powered on);
  set_local_address = λ addr. alone (set_local_address addr);
  discover = λ f. alone (discover to_lowercase f);
  pair = λ target agent. pair agent target;
  connect = λ target. alone (connect target);
  disconnect = λ conn. alone (disconnect conn);
  push_file = λ conn file. alone (push_file conn file);
  set_discoverable = λ on timeout. alone (set_discoverable on timeout);
  set_pairable = λ on timeout. alone (set_pairable on timeout);
  accept_pairings = λ agent opts. accept_pairings agent opts;
  gatt_read = λ conn s c. alone (gatt_read conn s c);
  gatt_write = λ conn s c v r. alone (gatt_write conn s c v r);
  gatt_subscribe = λ conn s c. alone (gatt_subscribe conn s c);
}
