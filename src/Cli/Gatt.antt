-- ===== src/Cli/Gatt.antt =====
-- `gatt`: one GATT operation on a device that is connected for it.
use pax.Prelude.{ℕ, ◌+◌, true, List, [], ◌∷◌, ◌++◌, leb, length, if◌then◌else◌}
use pax.Str.{Str, codes, decimal, upper_byte}
use pax.Core.Device.{parse_id}
use pax.Core.Uuid.{Uuid}
use pax.Core.Uuid
use pax.Transport.Backend.{Backend, Connection}
use pax.Cli.{Outcome, returned, panics, Step, ◌>>=◌, ◌>>◌, call, attempt, println, pure, of_core}
use pax.Cli.Hex.{parse_hex}

pub data GattOp : Type 0 where
  -- the address, the service and the characteristic
  read : Str → Str → Str → GattOp
  -- and the payload
  write : Str → Str → Str → Str → GattOp
  -- and the number of notifications to print
  subscribe : Str → Str → Str → ℕ → GattOp

-- `{:02X?}` of bytes.
abbrev pub rest_hex : List ℕ → Str
unfolding upper_byte
rest_hex [] = []
rest_hex (b ∷ bs) = codes ", " ++ upper_byte b ++ rest_hex bs

unfoldable pub debug_hex : List ℕ → Str
unfolding rest_hex upper_byte
debug_hex [] = codes "[]"
debug_hex (b ∷ bs) = codes "[" ++ upper_byte b ++ rest_hex bs ++ codes "]"

-- `parse()?` to a UUID, which can panic.
unfoldable pub parse_uuid : Str → Outcome Uuid
unfolding Uuid.parse
parse_uuid s = elim (Uuid.parse s) [
  | pax.Core.Uuid.panics ↦ panics
  | pax.Core.Uuid.returns r ↦ of_core r
]

module _ {S A : Type 0} (b : Backend S A) where
  unfoldable pub connect_to : Str → Step S Connection
  unfolding parse_id
  connect_to addr = do id ← pure (of_core (parse_id addr)); call (b.connect id)

  -- The loop over the stream, given as the list of what it yields; the count is looked at after a
  -- line is printed.
  unfoldable pub print_stream : ℕ → ℕ → List (Uuid × List ℕ) → Step S (Unit {0})
  unfolding debug_hex Uuid.display
  print_stream count seen [] = pure (returned tt)
  print_stream count seen (n ∷ ns) = do
    println (Uuid.display n.0 ++ codes " = " ++ debug_hex n.1)
    (if leb count (seen + 1) then pure (returned tt) else print_stream count (seen + 1) ns)

  unfoldable pub gatt : GattOp → Step S (Unit {0})
  unfolding connect_to parse_uuid debug_hex print_stream parse_hex
  gatt (read addr service characteristic) = do
    conn ← connect_to addr
    s ← pure (parse_uuid service)
    c ← pure (parse_uuid characteristic)
    value ← call (b.gatt_read conn s c)
    println (characteristic ++ codes " = " ++ debug_hex value)
    attempt (b.disconnect conn)
  gatt (write addr service characteristic hex) = do
    conn ← connect_to addr
    bytes ← pure (parse_hex hex)
    s ← pure (parse_uuid service)
    c ← pure (parse_uuid characteristic)
    call (b.gatt_write conn s c bytes true)
    println (codes "wrote " ++ decimal (length bytes) ++ codes " byte(s)")
    attempt (b.disconnect conn)
  gatt (subscribe addr service characteristic count) = do
    conn ← connect_to addr
    s ← pure (parse_uuid service)
    c ← pure (parse_uuid characteristic)
    stream ← call (b.gatt_subscribe conn s c)
    print_stream count 0 stream
    attempt (b.disconnect conn)
