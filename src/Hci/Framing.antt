-- ===== src/Hci/Framing.antt =====
-- Events are read as commands are written, and what a reply says to a waiting command.
use pax.Prelude.{
  ℕ, suc, ◌+◌, ◌*◌, ◌/◌, ◌%◌, ◌^◌, ◌<◌, ◌≤◌, ◌≡◌, refl, Bool, true, false, ◌||◌, ◌&&◌, none, some,
  List, ◌∷◌, ◌++◌, length, ltb, leb, ◌==◌, if◌then◌else◌, arith, length-append, take-append,
}
use pax.Hci.{SetAddressError, command, Result, ok, err}
use pax.Hci.Wire.{
  le16, from_le16, encode_command, parse_event, command_done, ev_cmd_complete, ev_cmd_status,
}
use pax.Hci.Mgmt.{verdict}

pub from_le16-le16 : (n : ℕ) → n < 2 ^ 16 → n % 2 ^ 8 + n % 2 ^ 16 / 2 ^ 8 * 2 ^ 8 ≡ n
from_le16-le16 n small = omega arith

length-encode_command :
    (code index : ℕ) (params tail : List ℕ)
    → length (encode_command code index params ++ tail) ≡ 6 + (length params + length tail)
unfolding encode_command le16
length-encode_command code index params tail = simp length-append (omega arith)

ltb-false : (a b : ℕ) → b ≤ a → ltb a b ≡ false
ltb-false a b h = ground arith

at_least_six :
    (code index : ℕ) (params tail : List ℕ)
    → ltb (length (encode_command code index params ++ tail)) 6 ≡ false
at_least_six code index params tail =
    rw (length-encode_command code index params tail) (ground arith)

-- Six bytes that spell the code and the length, and the parameters behind them.
parse_event-bytes :
    (b0 b1 i0 i1 l0 l1 code : ℕ) (params tail : List ℕ)
    → b0 + b1 * 2 ^ 8 ≡ code
    → l0 + l1 * 2 ^ 8 ≡ length params
    → parse_event (b0 ∷ b1 ∷ i0 ∷ i1 ∷ l0 ∷ l1 ∷ params ++ tail)
      ≡ some (record { event_code = code; params = params })
unfolding parse_event from_le16
parse_event-bytes b0 b1 i0 i1 l0 l1 code params tail hc hl =
    let whole = b0 ∷ b1 ∷ i0 ∷ i1 ∷ l0 ∷ l1 ∷ params ++ tail in
    let enough =
      ltb-false (length whole) (6 + length params) (omega (arith, length-append params tail)) in
    rw (hc, hl, enough, take-append params tail)

-- An event framed as `encode_command` frames a command, with a code and a length of 16 bits, is
-- parsed to its code and parameters, whatever the index is and whatever follows the event.
pub parse_event-encode_command :
    (code index : ℕ) (params tail : List ℕ)
    → code < 2 ^ 16
    → length params < 2 ^ 16
    → parse_event (encode_command code index params ++ tail)
      ≡ some (record { event_code = code; params = params })
unfolding encode_command le16
parse_event-encode_command code index params tail small short =
    parse_event-bytes (code % 2 ^ 8) (code % 2 ^ 16 / 2 ^ 8) (index % 2 ^ 8)
      (index % 2 ^ 16 / 2 ^ 8) (length params % 2 ^ 8) (length params % 2 ^ 16 / 2 ^ 8) code params
      tail (from_le16-le16 code small) (from_le16-le16 (length params) short)

-- The parameters of a reply: the opcode it answers, a status and the rest.
unfoldable pub reply : ℕ → ℕ → List ℕ → List ℕ
unfolding le16
reply opcode status rest = le16 opcode ++ status ∷ rest

-- What a status means.
abbrev pub of_status : {E : Type 0} → ℕ → Result (SetAddressError E) (Unit {0})
of_status status = if status == 0 then ok tt else err (command status)

leb-suc : (n : ℕ) → leb 3 (suc (suc (suc n))) ≡ true
leb-suc n = ground arith

and_true : (b : Bool) → b && true ≡ b
and_true true = refl
and_true false = refl

command_done-reply :
    {E : Type 0} (opcode code answered status : ℕ) (rest : List ℕ)
    → answered < 2 ^ 16
    → command_done {E = E} opcode
        (record { event_code = code; params = reply answered status rest })
      ≡ (if code == ev_cmd_complete || code == ev_cmd_status
          then if answered == opcode then some (of_status status) else none
          else none)
unfolding command_done from_le16 reply le16
command_done-reply opcode code answered status rest small = rw (
  from_le16-le16 answered small,
  leb-suc (length rest),
  and_true (code == ev_cmd_complete || code == ev_cmd_status),
)

-- A read that holds a framed reply, of a code, an answered opcode and a length of 16 bits: it ends
-- the wait with what its status means exactly when it is a Command Complete or a Command Status
-- for the awaited opcode, and otherwise the wait goes on; the controller index in the frame and
-- the bytes behind it play no part.
pub verdict-reply :
    {E : Type 0} (short : Result (SetAddressError E) (Unit {0}))
    (opcode code index answered status : ℕ) (rest tail : List ℕ)
    → code < 2 ^ 16
    → answered < 2 ^ 16
    → 3 + length rest < 2 ^ 16
    → verdict short
        (command_done opcode)
        (some (encode_command code index (reply answered status rest) ++ tail))
      ≡ (if code == ev_cmd_complete || code == ev_cmd_status
          then if answered == opcode then some (of_status status) else none
          else none)
unfolding verdict reply
verdict-reply short opcode code index answered status rest tail hc ha hr =
    rw
      (
        at_least_six code index (reply answered status rest) tail,
        parse_event-encode_command code index (reply answered status rest) tail hc (omega arith),
      )
      (command_done-reply opcode code answered status rest ha)
