-- ===== src/Transport/Obex/Tests.antt =====
-- Object Push against a peer that has its answers ready.
use pax.Prelude.{
  ℕ, ◌≡◌, ◌≤◌, ◌<◌, ◌⊎◌, true, false, some, List, [], ◌∷◌, ◌++◌, replicate, length, take, drop, leb,
  arith, if◌then◌else◌,
}
use pax.Str.{codes}
use pax.Transport.Obex.{
  Stream, Answer, done, failed, ObexError, ok, err, put_file, put_packet, chunk_cap, name_to_utf16,
}
use pax.Transport.Obex.Puts.{join, Pushed, put_file-Pushed}
use pax.Transport.Obex.Packets.{put_packet-chunk_cap, put_packet-overflow}

-- The bytes that were written, and those that can be read.
abbrev Pipe : Type 0
Pipe = List ℕ × List ℕ

-- A read past the end fails.
abbrev read_some : ℕ → Pipe → Answer (Unit {0}) (List ℕ) × Pipe
read_some n (out, ready) =
    if leb n (length ready)
    then (done (take n ready), (out, drop n ready))
    else (failed tt, (out, ready))

abbrev pipe : Stream Pipe (Unit {0})
pipe = record {
  write_all = λ packet p. (done tt, (p.0 ++ packet, p.1));
  flush = λ p. (done tt, p);
  read_exact = read_some;
}

abbrev name : List ℕ
name = name_to_utf16 (λ s. s) (codes "a")

-- Two packets of 255 bytes at most: the peer says Continue and then Success.
abbrev start : Pipe
start = ([], 0x90 ∷ 0 ∷ 3 ∷ 0xA0 ∷ 0 ∷ 3 ∷ [])

abbrev object : List ℕ
object = replicate 300 7

put_file-Pushed_example :
    ((bodies : List (List ℕ)) × (progress : List ℕ) × (s' : Pipe) × (put_file pipe 255 name object
          start
        ≡ some (ok tt, progress, s'))
      × (join bodies ≡ object)
      × Pushed pipe 255 name object true bodies start s')
    ⊎ ((e : ObexError (Unit {0})) × (progress : List ℕ) × (s' : Pipe) × (put_file pipe 255 name
            object start
          ≡ some (err e, progress, s')))
put_file-Pushed_example = put_file-Pushed pipe 255 name object start

put_packet-chunk_cap_example :
    length (put_packet true false (replicate 4 0) 300 (replicate 200 7)) ≤ 255
unfolding chunk_cap
put_packet-chunk_cap_example =
    put_packet-chunk_cap true false (replicate 4 0) 300 255 (replicate 200 7) (omega arith)
      (omega arith)

put_packet-overflow_example : 255 < length (put_packet true false (replicate 300 0) 300 (7 ∷ []))
unfolding chunk_cap
put_packet-overflow_example =
    put_packet-overflow false (replicate 300 0) 300 255 (7 ∷ []) (omega arith) (omega arith)
