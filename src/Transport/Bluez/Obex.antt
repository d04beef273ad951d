-- ===== src/Transport/Bluez/Obex.antt =====
-- crates/pax-transport/src/bluez/obex.rs: Object Push through the `obexd` service over D-Bus.
pub mod Sessions
pub mod Keeps
use pax.Prelude.{
  ℕ, zero, suc, ◌-◌, max, Bool, true, false, Option, none, some, List, ◌++◌, leb, is_yes,
  if◌then◌else◌,
}
use pax.Str.{Str, codes, decimal, Str-discrete}
use pax.Transport.Error.{TransportError, backend, transfer_failed, timeout, Result, ok, err}
use pax.Transport.Radio.{Answer, done, failed, Call}

-- `zbus` values, as far as the code tells them apart.
pub data Value : Type 0 where
  u64_value : ℕ → Value
  u32_value : ℕ → Value
  str_value : Str → Value
  other_value : Value

unfoldable pub as_u64 : Value → Option ℕ
as_u64 (u64_value n) = some n
as_u64 (u32_value n) = some n
as_u64 (str_value s) = none
as_u64 other_value = none

-- A `PropertiesChanged` signal: its entries `Transferred` and `Status`.
pub record Change : Type 0 where
  pub transferred : Option Value
  pub status : Option Value

-- The D-Bus calls in a state `W` of the host; times are in nanoseconds. `next_change` waits for a
-- signal that can be read, and gives `none` at its timeout, at the end of the stream and for a
-- signal without arguments.
pub record Obexd (W : Type 0) : Type 0 where
  pub session_bus : Call W (Unit {0})
  pub client_proxy : Call W (Unit {0})
  pub create_session : Str → Call W Str
  pub remove_session : Str → Call W (Unit {0})
  pub push_proxy : Str → Call W (Unit {0})
  pub send_file : Str → Str → Call W (Str × Option Value)
  pub transfer_proxy : Str → Call W (Unit {0})
  pub properties_proxy : Str → Call W (Unit {0})
  pub receive_changes : Str → Call W (Unit {0})
  pub current_status : Str → W → Option Str × W
  pub next_change : ℕ → Str → W → Option Change × W
  pub instant : W → ℕ

abbrev pub overall_deadline : ℕ
overall_deadline = 300_000_000_000

abbrev pub poll_interval : ℕ
poll_interval = 15_000_000_000

abbrev pub obex_error : Str → TransportError
obex_error e = backend (codes "obex: " ++ e)

-- What a status says of a transfer.
pub data Stage : Type 0 where
  completed broken running : Stage

unfoldable pub stage_of : Str → Stage
unfolding Str-discrete
stage_of s =
    if is_yes (Str-discrete s (codes "complete"))
    then completed
    else if is_yes (Str-discrete s (codes "error"))
    then broken
    else running

unfoldable pub stage : Option Str → Stage
unfolding stage_of
stage none = running
stage (some s) = stage_of s

unfoldable pub value_stage : Option Value → Stage
unfolding stage_of
value_stage (some (str_value s)) = stage_of s
value_stage _ = running

-- `changed.get("Transferred").and_then(as_u64)`.
unfoldable pub reported : Option Value → Option ℕ
unfolding as_u64
reported none = none
reported (some v) = as_u64 v

abbrev pub size_of : Option Value → ℕ
unfolding reported
size_of v = elim (reported v) [ none ↦ 0 | some n ↦ n ]

abbrev pub broken_after : ℕ → TransportError
broken_after transferred = transfer_failed transferred (codes "obexd reported transfer error")

-- `on_progress` acts on a state `C` of the caller, and can read the time.
module _ {W C : Type 0} (obexd : Obexd W) (on_progress : ℕ → W → C → C) where
  abbrev pub Ran : Type 0
  Ran = Result ℕ × W × C

  -- The end of a transfer that completed.
  abbrev pub complete : ℕ → ℕ → W → C → Ran
  complete total transferred w c =
      (ok (max total transferred), w, on_progress (max total transferred) w c)

  -- The bytes and the caller's state behind the `Transferred` entry of a signal.
  unfoldable pub note_progress : Option ℕ → ℕ → W → C → ℕ × C
  note_progress none transferred w c = (transferred, c)
  note_progress (some n) transferred w c = (n, on_progress n w c)

  module _ (path : Str) (total started : ℕ) where
    -- The loop of `run_transfer`, on fuel: `none` says that the fuel ran out.
    unfoldable pub transfer_loop : ℕ → ℕ → W → C → Option Ran
    unfolding stage value_stage reported note_progress
    transfer_loop zero transferred w c = none
    transfer_loop (suc fuel) transferred w c =
        let (status, w1) = obexd.current_status path w in
        elim (stage status) [
          | completed ↦ some (complete total transferred w1 c)
          | broken ↦ some (err (broken_after transferred), w1, c)
          | running ↦ elim (leb overall_deadline (obexd.instant w1 - started)) [
            | true ↦
                some
                  (err (timeout (codes "obex push exceeded " ++ decimal 300 ++ codes "s")), w1, c)
            | false ↦
                let (change, w2) = obexd.next_change poll_interval path w1 in
                elim change [
                  | none ↦ transfer_loop fuel transferred w2 c
                  | some ch ↦
                      let (sent, c1) = note_progress (reported ch.transferred) transferred w2 c in
                      elim (value_stage ch.status) [
                        | completed ↦ some (complete total sent w2 c1)
                        | broken ↦ some (err (broken_after sent), w2, c1)
                        | running ↦ transfer_loop fuel sent w2 c1
                      ]
                ]
          ]
        ]

  -- A D-Bus call whose error ends the push.
  abbrev pub bus : {A : Type 0} → Call W A → (A → W → C → Option Ran) → W → C → Option Ran
  bus call next w c =
      let (a, w1) = call w in
      elim a [ done x ↦ next x w1 c | failed e ↦ some (err (obex_error e), w1, c) ]

  unfoldable pub run_transfer : ℕ → Str → Str → W → C → Option Ran
  unfolding transfer_loop
  run_transfer fuel session source = bus (obexd.push_proxy session) (λ u.
      bus (obexd.send_file session source) (λ sent. bus (obexd.transfer_proxy sent.0) (λ u.
        bus (obexd.properties_proxy sent.0) (λ u.
          bus (obexd.receive_changes sent.0)
            (λ u w c. transfer_loop sent.0 (size_of sent.1) (obexd.instant w) fuel 0 w c)))))

  -- The session is removed however the transfer ended.
  abbrev pub torn_down : Str → Option Ran → Option Ran
  torn_down session none = none
  torn_down session (some (r, w, c)) = some (r, (obexd.remove_session session w).1, c)

  unfoldable pub object_push : ℕ → Str → Str → W → C → Option Ran
  unfolding run_transfer
  object_push fuel dest source = bus obexd.session_bus (λ u. bus obexd.client_proxy (λ u.
      bus (obexd.create_session dest)
        (λ session w c. torn_down session (run_transfer fuel session source w c))))
