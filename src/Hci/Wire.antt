-- ===== src/Hci/Wire.antt =====
-- The bytes of commands and events on the `mgmt` socket.
use mathlib.Core.List.{reverse}
use pax.Prelude.{
  ℕ, ◌+◌, ◌*◌, ◌/◌, ◌%◌, ◌^◌, ◌||◌, ◌&&◌, Option, none, some, List, [], ◌∷◌, ◌++◌, length, take,
  drop, get_or, ltb, leb, ◌==◌, if◌then◌else◌,
}
use pax.Hci.{Result, ok, err, ControllerInfo, SetAddressError, command}

abbrev pub op_read_info : ℕ
op_read_info = 0x0004

abbrev pub op_set_powered : ℕ
op_set_powered = 0x0005

abbrev pub op_set_public_address : ℕ
op_set_public_address = 0x0039

abbrev pub ev_cmd_complete : ℕ
ev_cmd_complete = 0x0001

abbrev pub ev_cmd_status : ℕ
ev_cmd_status = 0x0002

-- `u16::to_le_bytes`, after the cast `as u16`.
unfoldable pub le16 : ℕ → List ℕ
le16 n = n % 2 ^ 8 ∷ n % 2 ^ 16 / 2 ^ 8 ∷ []

-- `u16::from_le_bytes` of the bytes at `i` and behind it.
unfoldable pub from_le16 : List ℕ → ℕ → ℕ
from_le16 bytes i = get_or bytes i 0 + get_or bytes (i + 1) 0 * 2 ^ 8

unfoldable pub encode_command : ℕ → ℕ → List ℕ → List ℕ
unfolding le16
encode_command opcode index params = le16 opcode ++ le16 index ++ le16 (length params) ++ params

unfoldable pub bdaddr_le : List ℕ → List ℕ
bdaddr_le addr = reverse addr

pub record MgmtEvent : Type 0 where
  pub event_code : ℕ
  pub params : List ℕ

-- The event that a read of at least six bytes holds; `none` when its parameters are cut off.
unfoldable pub parse_event : List ℕ → Option MgmtEvent
unfolding from_le16
parse_event bytes =
    let param_len = from_le16 bytes 4 in
    if ltb (length bytes) (6 + param_len)
    then none
    else some (record { event_code = from_le16 bytes 0; params = take param_len (drop 6 bytes) })

-- What an event says to `run_command_inner`: `none` is to read on.
unfoldable pub command_done :
    {E : Type 0} → ℕ → MgmtEvent → Option (Result (SetAddressError E) Unit)
unfolding from_le16
command_done opcode ev =
    let is_terminal = ev.event_code == ev_cmd_complete || ev.event_code == ev_cmd_status in
    let status = get_or ev.params 2 0 in
    if is_terminal && leb 3 (length ev.params)
    then if from_le16 ev.params 0 == opcode
      then some (if status == 0 then ok tt else err (command status))
      else none
    else none

-- The `mgmt_rp_read_info` of a successful reply: the version is the byte 6, the manufacturer
-- follows it.
unfoldable pub read_info_reply : List ℕ → Option ControllerInfo
unfolding from_le16
read_info_reply rp =
    if ltb (length rp) 9
    then none
    else some (record { manufacturer = from_le16 rp 7; hci_version = get_or rp 6 0 })

-- What an event says to `read_inner`: the outer `none` is to read on.
unfoldable pub info_done : MgmtEvent → Option (Option ControllerInfo)
unfolding from_le16 read_info_reply
info_done ev =
    if ev.event_code == ev_cmd_complete && leb 3 (length ev.params)
    then if from_le16 ev.params 0 == op_read_info
      then some (if get_or ev.params 2 0 == 0 then read_info_reply (drop 3 ev.params) else none)
      else none
    else none
