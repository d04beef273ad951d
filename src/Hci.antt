-- ===== src/Hci.antt =====
-- crates/pax-hci/src/lib.rs: controller details and the local address over the kernel's `mgmt`
-- control socket. This file has the values and errors.
pub mod Wire
pub mod Mgmt
pub mod Framing
pub mod Reads
pub mod Sent
pub mod Spoof
mod Tests
use pax.Prelude.{ℕ, ◌++◌, ◌==◌, if◌then◌else◌}
use pax.Str.{Str, codes, lower_byte}

pub record ControllerInfo : Type 0 where
  pub manufacturer : ℕ
  pub hci_version : ℕ

pub data ErrorKind : Type 0 where
  unexpected_eof timed_out : ErrorKind

-- `io::Error`: one of the operating system's, or one made by `io::Error::new`.
pub data IoError (E : Type 0) : Type 0 where
  os : E → IoError E
  new : ErrorKind → Str → IoError E

pub data SetAddressError (E : Type 0) : Type 0 where
  is_unsupported : SetAddressError E
  io : IoError E → SetAddressError E
  command : ℕ → SetAddressError E

-- `Result<A, X>`.
pub data Result (X A : Type 0) : Type 0 where
  ok : A → Result X A
  err : X → Result X A

unfoldable pub status_str : ℕ → Str
status_str s =
    if s == 0x00
    then codes "success"
    else if s == 0x01
    then codes "unknown command"
    else if s == 0x02
    then codes "not connected"
    else if s == 0x03
    then codes "failed"
    else if s == 0x04
    then codes "connect failed"
    else if s == 0x05
    then codes "authentication failed"
    else if s == 0x06
    then codes "not paired"
    else if s == 0x07
    then codes "no resources"
    else if s == 0x08
    then codes "timeout"
    else if s == 0x09
    then codes "already connected"
    else if s == 0x0A
    then codes "busy"
    else if s == 0x0B
    then codes "rejected (is the adapter still powered on?)"
    else if s == 0x0C
    then codes "not supported (controller cannot change its address)"
    else if s == 0x0D
    then codes "invalid parameters"
    else if s == 0x0E
    then codes "disconnected"
    else if s == 0x0F
    then codes "not powered"
    else if s == 0x10
    then codes "cancelled"
    else if s == 0x11
    then codes "invalid index (no such controller)"
    else if s == 0x12
    then codes "rf-killed"
    else if s == 0x13
    then codes "already paired"
    else if s == 0x14
    then codes "permission denied (need CAP_NET_ADMIN)"
    else codes "unknown status"

-- `Display`, over the text of an `io::Error`.
unfoldable pub display : {E : Type 0} → (IoError E → Str) → SetAddressError E → Str
unfolding status_str lower_byte
display display_io is_unsupported =
    codes "setting the controller address is only supported on Linux"
display display_io (io e) = codes "mgmt socket I/O error: " ++ display_io e
display display_io (command s) =
    codes "mgmt command failed: " ++ status_str s ++ codes " (0x" ++ lower_byte s ++ codes ")"
