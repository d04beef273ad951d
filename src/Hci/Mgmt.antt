-- ===== src/Hci/Mgmt.antt =====
-- The commands of the crate on Linux, over the calls of `libc` in a state `S` of the system with
-- its errors `E`. A descriptor is closed when its guard is dropped, on every return.
use pax.Prelude.{
  ℕ, zero, suc, Bool, true, false, Option, none, some, List, [], ◌∷◌, length, ltb, if◌then◌else◌,
}
use pax.Str.{codes}
use pax.Hci.{
  ControllerInfo, IoError, os, new, unexpected_eof, timed_out, SetAddressError, io, Result, ok, err,
}
use pax.Hci.Wire.{
  MgmtEvent, parse_event, encode_command, bdaddr_le, command_done, info_done, op_read_info,
  op_set_powered, op_set_public_address,
}

pub record SockaddrHci : Type 0 where
  pub hci_family : ℕ
  pub hci_dev : ℕ
  pub hci_channel : ℕ

-- AF_BLUETOOTH, HCI_DEV_NONE and HCI_CHANNEL_CONTROL.
abbrev pub control_addr : SockaddrHci
control_addr = record { hci_family = 31; hci_dev = 0xffff; hci_channel = 3 }

-- The calls of `libc`: `none` and `false` stand for a negative result, `socket` has the family
-- and the protocol (the type is raw and closed on exec), `set_timeout` is `setsockopt` for
-- SO_RCVTIMEO, and `read` has the size of the buffer and gives the bytes that it read.
pub record Libc (S E : Type 0) : Type 0 where
  pub socket : ℕ → ℕ → S → Option ℕ × S
  pub set_timeout : ℕ → ℕ → S → S
  pub bind : ℕ → SockaddrHci → S → Bool × S
  pub write : ℕ → List ℕ → S → Bool × S
  pub read : ℕ → ℕ → S → Option (List ℕ) × S
  pub close : ℕ → S → S
  pub last_os_error : S → E

-- What one `read` says: a short one ends the loop, and so does an event that answers.
unfoldable pub verdict : {A : Type 0} → A → (MgmtEvent → Option A) → Option (List ℕ) → Option A
unfolding parse_event
verdict short event_done none = some short
verdict short event_done (some bytes) =
    if ltb (length bytes) 6
    then some short
    else elim (parse_event bytes) [ none ↦ none | some ev ↦ event_done ev ]

abbrev pub no_reply : {E : Type 0} → Result (SetAddressError E) (Unit {0})
no_reply = err (io (new unexpected_eof (codes "short or timed-out mgmt reply")))

abbrev pub too_late : {E : Type 0} → Result (SetAddressError E) (Unit {0})
too_late = err (io (new timed_out (codes "no mgmt command-complete for the requested opcode")))

module _ {S E : Type 0} (libc : Libc S E) where
  -- The rest of `open_control`, behind the socket.
  unfoldable pub bind_control : ℕ → S → Result (IoError E) ℕ × S
  bind_control fd s =
      let (bound, s1) = libc.bind fd control_addr s in
      elim bound [
        | true ↦ (ok fd, s1)
        | false ↦ (err (os (libc.last_os_error s1)), libc.close fd s1)
      ]

  unfoldable pub open_control : ℕ → S → Result (IoError E) ℕ × S
  unfolding bind_control
  open_control secs s =
      let (made, s1) = libc.socket 31 1 s in
      elim made [
        | none ↦ (err (os (libc.last_os_error s1)), s1)
        | some fd ↦ bind_control fd (libc.set_timeout fd secs s1)
      ]

  unfoldable pub write_command : ℕ → ℕ → ℕ → List ℕ → S → Result (IoError E) (Unit {0}) × S
  unfolding encode_command
  write_command fd opcode index params s =
      let (written, s1) = libc.write fd (encode_command opcode index params) s in
      elim written [ true ↦ (ok tt, s1) | false ↦ (err (os (libc.last_os_error s1)), s1) ]

  -- The loop `for _ in 0..16`, with the rounds that are left.
  unfoldable pub read_loop : {A : Type 0} → A → A → (MgmtEvent → Option A) → ℕ → ℕ → S → A × S
  unfolding verdict
  read_loop short late event_done zero fd s = (late, s)
  read_loop short late event_done (suc rounds) fd s =
      let (got, s1) = libc.read fd 1024 s in
      elim (verdict short event_done got) [
        | some a ↦ (a, s1)
        | none ↦ read_loop short late event_done rounds fd s1
      ]

  -- A command out, its answer in, on an open descriptor.
  unfoldable pub ask :
      {A : Type 0}
      → (IoError E → A)
      → A
      → A
      → (MgmtEvent → Option A)
      → ℕ
      → ℕ
      → List ℕ
      → ℕ
      → S
      → A × S
  ask failed short late event_done opcode index params fd s =
      let (sent, s1) = write_command fd opcode index params s in
      elim sent [ err e ↦ (failed e, s1) | ok u ↦ read_loop short late event_done 16 fd s1 ]

  -- A body between `open_control(2)?` and the drop of the guard.
  unfoldable pub with_control : {A : Type 0} → (IoError E → A) → (ℕ → S → A × S) → S → A × S
  with_control failed body s =
      let (opened, s1) = open_control 2 s in
      elim opened [
        | err e ↦ (failed e, s1)
        | ok fd ↦ let (a, s2) = body fd s1 in (a, libc.close fd s2)
      ]

  unfoldable pub read_inner : ℕ → S → Result (IoError E) (Option ControllerInfo) × S
  unfolding info_done
  read_inner index = with_control err (
      ask err (ok none) (ok none)
        (λ ev. elim (info_done ev) [ none ↦ none | some info ↦ some (ok info) ]) op_read_info index
        [])

  -- `.ok().flatten()`.
  unfoldable pub read_controller_info : ℕ → S → Option ControllerInfo × S
  read_controller_info index s =
      let (r, s1) = read_inner index s in (elim r [ ok info ↦ info | err e ↦ none ], s1)

  unfoldable pub run_command : ℕ → ℕ → List ℕ → S → Result (SetAddressError E) (Unit {0}) × S
  run_command opcode index params =
      with_control (λ e. err (io e))
        (ask (λ e. err (io e)) no_reply too_late (command_done opcode) opcode index params)

  unfoldable pub set_public_address : ℕ → List ℕ → S → Result (SetAddressError E) (Unit {0}) × S
  unfolding bdaddr_le
  set_public_address index addr = run_command op_set_public_address index (bdaddr_le addr)

  -- `on as u8` is the parameter.
  unfoldable pub set_powered : ℕ → Bool → S → Result (SetAddressError E) (Unit {0}) × S
  set_powered index on = run_command op_set_powered index ((if on then 1 else 0) ∷ [])

  -- `?` between two commands.
  abbrev pub and_then :
      (S → Result (SetAddressError E) (Unit {0}) × S)
      → (S → Result (SetAddressError E) (Unit {0}) × S)
      → S
      → Result (SetAddressError E) (Unit {0}) × S
  and_then m next s = let (r, s1) = m s in elim r [ ok u ↦ next s1 | err e ↦ (err e, s1) ]

  unfoldable pub spoof_public_address : ℕ → List ℕ → S → Result (SetAddressError E) (Unit {0}) × S
  spoof_public_address index addr =
      and_then (set_powered index false)
        (and_then (set_public_address index addr) (set_powered index true))
