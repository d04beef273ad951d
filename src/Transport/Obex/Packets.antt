-- ===== src/Transport/Obex/Packets.antt =====
-- The sizes of the packets of `put_file`.
use pax.Prelude.{
  ℕ, ◌+◌, ◌≤◌, ◌<◌, ◌≡◌, Bool, true, false, List, if◌then◌else◌, length, length-append, arith,
}
use pax.Transport.Obex.{put_packet, be16, be32, chunk_cap}

length-put_packet :
    (first is_last : Bool) (name_payload : List ℕ) (total : ℕ) (body : List ℕ)
    → length (put_packet first is_last name_payload total body)
      ≡ (if first then 3 + 3 + (3 + length name_payload + 5) else 3 + 3) + length body
unfolding put_packet be16 be32
length-put_packet true is_last name_payload total body = simp length-append (omega arith)
length-put_packet false is_last name_payload total body = omega arith

-- A packet whose headers leave room for a byte does not exceed the negotiated maximum, when its
-- body is within the capacity.
pub put_packet-chunk_cap :
    (first is_last : Bool) (name_payload : List ℕ) (total max_packet : ℕ) (body : List ℕ)
    → (if first then 3 + 3 + (3 + length name_payload + 5) else 3 + 3) < max_packet
    → length body ≤ chunk_cap first max_packet (length name_payload)
    → length (put_packet first is_last name_payload total body) ≤ max_packet
unfolding chunk_cap
put_packet-chunk_cap true is_last name_payload total max_packet body room fits =
    omega (arith, length-put_packet true is_last name_payload total body)
put_packet-chunk_cap false is_last name_payload total max_packet body room fits =
    omega (arith, length-put_packet false is_last name_payload total body)

-- When the name leaves no room, a first packet whose body fills the capacity is larger than the
-- negotiated maximum.
pub put_packet-overflow :
    (is_last : Bool) (name_payload : List ℕ) (total max_packet : ℕ) (body : List ℕ)
    → max_packet ≤ 3 + 3 + (3 + length name_payload + 5)
    → length body ≡ chunk_cap true max_packet (length name_payload)
    → max_packet < length (put_packet true is_last name_payload total body)
unfolding chunk_cap
put_packet-overflow is_last name_payload total max_packet body long full =
    omega (arith, length-put_packet true is_last name_payload total body)
