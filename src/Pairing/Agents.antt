-- ===== src/Pairing/Agents.antt =====
-- crates/pax-pairing/src/agents.rs: ready-made pairing agents. None of them keeps state.
use pax.Prelude.{ℕ, true, false}
use pax.Str.{Str, codes}
use pax.Transport.Pairing.{
  PairingRequest, confirm_just_works, confirm_passkey, request_pin_code, request_passkey,
  display_passkey, PairingResponse, confirm, pin, passkey, acknowledged, cancel, PairingAgent,
}

pub record AcceptAllAgent : Type 0 where
  pub own_pin : Str
  pub own_passkey : ℕ

abbrev pub new_accept_all : AcceptAllAgent
new_accept_all = record { own_pin = codes "0000"; own_passkey = 0 }

abbrev pub with_pin : AcceptAllAgent → Str → AcceptAllAgent
with_pin a p = record a { own_pin = p }

abbrev pub with_passkey : AcceptAllAgent → ℕ → AcceptAllAgent
with_passkey a k = record a { own_passkey = k }

unfoldable pub accept_all : AcceptAllAgent → PairingRequest → PairingResponse
accept_all a confirm_just_works = confirm true
accept_all a (confirm_passkey k) = confirm true
accept_all a request_pin_code = pin a.own_pin
accept_all a request_passkey = passkey a.own_passkey
accept_all a (display_passkey k) = acknowledged

unfoldable pub reject_all : PairingRequest → PairingResponse
reject_all confirm_just_works = confirm false
reject_all (confirm_passkey k) = confirm false
reject_all _ = cancel

unfoldable pub fixed_pin : Str → PairingRequest → PairingResponse
fixed_pin p request_pin_code = pin p
fixed_pin p confirm_just_works = confirm true
fixed_pin p (confirm_passkey k) = confirm true
fixed_pin p (display_passkey k) = acknowledged
fixed_pin p request_passkey = cancel

-- `CallbackAgent`: a closure of the request alone.
abbrev pub callback : {W : Type 0} → (PairingRequest → PairingResponse) → PairingAgent W
callback f request w = (f request, w)
