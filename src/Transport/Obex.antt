-- ===== src/Transport/Obex.antt =====
-- crates/pax-transport/src/android/obex_opp.rs: the OBEX Object Push client over a byte stream.
pub mod Puts
pub mod Packets
mod Tests
use Prim.Native.Nat.{bit_or}
use pax.Prelude.{
  ℕ, zero, suc, ◌+◌, ◌-◌, ◌*◌, ◌/◌, ◌%◌, ◌^◌, ◌≤◌, Bool, true, false, Option, none, some, List, [],
  ◌∷◌, ◌++◌, min, max, leb, ltb, ◌==◌, if◌then◌else◌, length, take, drop, get_or, replicate,
}
use pax.Str.{Str, codes}

abbrev pub op_connect : ℕ
op_connect = 0x80

abbrev pub op_disconnect : ℕ
op_disconnect = 0x81

abbrev pub op_put : ℕ
op_put = 0x02

abbrev pub final : ℕ
final = 0x80

abbrev pub resp_continue : ℕ
resp_continue = 0x90

abbrev pub resp_success : ℕ
resp_success = 0xA0

abbrev pub hi_name : ℕ
hi_name = 0x01

abbrev pub hi_body : ℕ
hi_body = 0x48

abbrev pub hi_end_of_body : ℕ
hi_end_of_body = 0x49

abbrev pub hi_length : ℕ
hi_length = 0xC3

abbrev pub obex_version : ℕ
obex_version = 0x10

abbrev pub our_max_packet : ℕ
our_max_packet = 0x2000

-- `ObexError`, over the errors `E` of the stream.
pub data ObexError (E : Type 0) : Type 0 where
  io : E → ObexError E
  rejected : Str → ℕ → ObexError E
  malformed : Str → ObexError E

pub data Result (E A : Type 0) : Type 0 where
  ok : A → Result E A
  err : ObexError E → Result E A

-- A stream in state `S`: `Write::write_all`, `Write::flush` and `Read::read_exact`, each with
-- its own error.
pub data Answer (E A : Type 0) : Type 0 where
  done : A → Answer E A
  failed : E → Answer E A

pub record Stream (S E : Type 0) : Type 0 where
  pub write_all : List ℕ → S → Answer E (Unit {0}) × S
  pub flush : S → Answer E (Unit {0}) × S
  pub read_exact : ℕ → S → Answer E (List ℕ) × S

-- `u16::to_be_bytes`, after the cast `as u16`.
unfoldable pub be16 : ℕ → List ℕ
be16 n = n % 2 ^ 16 / 2 ^ 8 ∷ n % 2 ^ 8 ∷ []

-- `u32::to_be_bytes`, after the cast `as u32`.
unfoldable pub be32 : ℕ → List ℕ
be32 n = n % 2 ^ 32 / 2 ^ 24 ∷ n / 2 ^ 16 % 2 ^ 8 ∷ n / 2 ^ 8 % 2 ^ 8 ∷ n % 2 ^ 8 ∷ []

-- `put_len`: the bytes 1 and 2 become the length.
unfoldable pub put_len : List ℕ → List ℕ
unfolding be16
put_len (op ∷ a ∷ b ∷ rest) = op ∷ be16 (length (op ∷ a ∷ b ∷ rest)) ++ rest
put_len short = short

unfoldable pub units_to_bytes : List ℕ → List ℕ
unfolding be16
units_to_bytes [] = []
units_to_bytes (u ∷ us) = be16 u ++ units_to_bytes us

-- `encode_utf16` of the standard library is a parameter.
unfoldable pub name_to_utf16 : (Str → List ℕ) → Str → List ℕ
unfolding units_to_bytes
name_to_utf16 encode_utf16 name = units_to_bytes (encode_utf16 name) ++ 0 ∷ 0 ∷ []

-- A packet of `put_file`: the name's payload and the total where it is the first.
unfoldable pub put_packet : Bool → Bool → List ℕ → ℕ → List ℕ → List ℕ
unfolding put_len be16 be32
put_packet first is_last name_payload total body =
    let head = (if is_last then bit_or op_put final else op_put) ∷ 0 ∷ 0 ∷ [] in
    let named =
      hi_name ∷ be16 (3 + length name_payload) ++ name_payload ++ hi_length ∷ be32 total in
    let last = (if is_last then hi_end_of_body else hi_body) ∷ be16 (3 + length body) ++ body in
    put_len (head ++ (if first then named else []) ++ last)

-- The bytes of the body that fit.
unfoldable pub chunk_cap : Bool → ℕ → ℕ → ℕ
chunk_cap first max_packet name_length =
    let header_budget = if first then 3 + 3 + (3 + name_length + 5) else 3 + 3 in
    max (max_packet - header_budget) 1

pub record Response : Type 0 where
  pub code : ℕ
  pub body : List ℕ

-- An action on the stream.
abbrev pub Act : Type 0 → Type 0 → Type 0 → Type 0
Act S E A = S → Result E A × S

-- `?` after a call of the stream: its error becomes `ObexError::Io`.
abbrev pub call : {S E A B : Type 0} → (S → Answer E A × S) → (A → Act S E B) → Act S E B
call op next s = let (r, s') = op s in elim r [ done a ↦ next a s' | failed e ↦ (err (io e), s') ]

-- `?` between two steps.
abbrev pub bind : {S E A B : Type 0} → Act S E A → (A → Act S E B) → Act S E B
bind m next s = let (r, s') = m s in elim r [ ok a ↦ next a s' | err e ↦ (err e, s') ]

-- `u16::from_be_bytes`.
abbrev pub from_be16 : ℕ → ℕ → ℕ
from_be16 high low = high * 2 ^ 8 + low

module _ {S E : Type 0} (stream : Stream S E) where
  -- The rest of `read_response`, behind the head.
  unfoldable pub read_body : List ℕ → Act S E Response
  read_body head s =
      let size = from_be16 (get_or head 1 0) (get_or head 2 0) in
      if ltb size 3
      then (err (malformed (codes "length < 3")), s)
      else call (stream.read_exact (size - 3))
          (λ body s'. (ok (record { code = get_or head 0 0; body = body }), s')) s

  unfoldable pub read_response : Act S E Response
  unfolding read_body
  read_response = call (stream.read_exact 3) read_body

  -- A packet out, its response in.
  unfoldable pub exchange : List ℕ → Act S E Response
  unfolding read_response
  exchange packet = call (stream.write_all packet) (λ u. call stream.flush (λ v. read_response))

  -- A response that is not the expected one is an error of the stage.
  unfoldable pub expect : Str → ℕ → Response → Act S E (Unit {0})
  expect stage code r s = if r.code == code then (ok tt, s) else (err (rejected stage r.code), s)

  -- The peer's maximum, at least 255.
  unfoldable pub peer_max : Response → ℕ
  peer_max r =
      max (if leb 4 (length r.body) then from_be16 (get_or r.body 2 0) (get_or r.body 3 0) else 255)
        255

  -- The result is the `peer_max_packet` of the client.
  unfoldable pub connect : Act S E ℕ
  unfolding put_len be16 exchange expect peer_max
  connect =
      bind (exchange (put_len (op_connect ∷ 0 ∷ 0 ∷ obex_version ∷ 0 ∷ be16 our_max_packet)))
        (λ r. bind (expect (codes "connect") resp_success r) (λ u s. (ok (peer_max r), s)))

  unfoldable pub disconnect : Act S E (Unit {0})
  unfolding exchange expect
  disconnect =
      bind (exchange (op_disconnect ∷ 0x00 ∷ 0x03 ∷ [])) (expect (codes "disconnect") resp_success)

  -- The code that a packet of `put_file` must be answered with.
  abbrev pub expected : Bool → ℕ
  expected true = resp_success
  expected false = resp_continue

  -- The rest of a round of `put_file`, behind the exchange: `sent` bytes are out.
  unfoldable pub acknowledge :
      Bool
      → ℕ
      → List ℕ
      → Result E Response × S
      → (List ℕ → S → Option (Result E (Unit {0}) × List ℕ × S))
      → Option (Result E (Unit {0}) × List ℕ × S)
  acknowledge is_last sent progress (err e, s) more = some (err e, progress, s)
  acknowledge is_last sent progress (ok r, s) more =
      if r.code == expected is_last
      then if is_last
        then some (ok tt, progress ++ sent ∷ [], s)
        else more (progress ++ sent ∷ []) s
      else some (err (rejected (codes "put") r.code), progress, s)

  module _ (max_packet : ℕ) (name_payload bytes : List ℕ) where
    -- The loop of `put_file`, on fuel: `progress` holds the calls of `on_progress` so far, and
    -- `none` says that the fuel ran out.
    unfoldable pub put_loop : ℕ → Bool → ℕ → List ℕ → S → Option (Result E (Unit {0}) × List ℕ × S)
    put_loop zero first offset progress s = none
    put_loop (suc fuel) first offset progress s =
        let total = length bytes in
        let size = min (total - offset) (chunk_cap first max_packet (length name_payload)) in
        let is_last = leb total (offset + size) in
        let packet = put_packet first is_last name_payload total (take size (drop offset bytes)) in
        acknowledge is_last (offset + size) progress (exchange packet s)
          (put_loop fuel false (offset + size))

    -- A round more than there are bytes is enough.
    unfoldable pub put_file : S → Option (Result E (Unit {0}) × List ℕ × S)
    unfolding put_loop
    put_file = put_loop (length bytes + 1) true 0 []
