-- ===== src/Transport/Mock/Push/Receipts.antt =====
-- What `push_file` of the mock sends, and what it answers.
use pax.Prelude.{
  ℕ, suc, ◌+◌, ◌-◌, ◌*◌, ◌≤◌, ◌<◌, ◌≡◌, refl, ap, true, false, some, arith, length, take, max,
}
use pax.Core.Time.{Timestamp, saturating_since}
use pax.Core.Event.{payload_bytes, transfer_started, transfer_completed}
use pax.Transport.Error.{TransportError, transfer_failed, Result, ok, err}
use pax.Transport.Backend.{Connection, origin_of}
use pax.Transport.Transfer.{OutboundFile, len}
use pax.Transport.Mock.{MockDevice, MockBackend, emit, find_device, now, step}
use pax.Transport.Mock.Link.{has_token}
use pax.Transport.Mock.Push.{chunks_of, over_limit, failure_reason, settle, push_found, push_file}
use pax.Transport.Mock.Push.Chunks.{
  total, total-chunks_from, length-chunks_from, total-take-chunks_from,
}
use pax.Transport.Mock.Push.Loop.{carried, carried-emit, send_chunks-ok, send_chunks-err}

settle-ok :
    (conn : Connection) (file : OutboundFile) (start : Timestamp) (m k : ℕ) (r : Result (ℕ × ℕ))
    (s : MockBackend) (time : ℕ)
    → r ≡ ok (m, k)
    → s.state.clock_ns - start.nanos ≡ time
    → ((settle conn file start (r, s)).0
        ≡ ok (record {
          object_name = file.name;
          bytes = m;
          chunks = k;
          duration = record { nanos = time };
        }))
      × (carried (settle conn file start (r, s)).1.emitted ≡ carried s.emitted)
unfolding settle payload_bytes
settle-ok conn file start m k r s time e ht = (
  rw (e, settle, ht) refl,
  rw (e, settle)
      (let sent =
          carried-emit (origin_of conn) (transfer_completed m (saturating_since (now s) start)) step
            s in
        omega (arith, sent)),
)

settle-err :
    (conn : Connection) (file : OutboundFile) (start : Timestamp) (e : TransportError)
    (r : Result (ℕ × ℕ)) (s : MockBackend)
    → r ≡ err e
    → settle conn file start (r, s) ≡ (err e, s)
unfolding settle
settle-err conn file start e r s h = rw (h, settle) refl

-- Over a live connection to a known device, a push that its script does not cut short answers
-- with the receipt of the whole object: all bytes, the rounded-up number of chunks of the
-- device's size, and one step and one latency for each chunk as its duration; the events that
-- it emits carry exactly the object's bytes.
pub push_file-ok :
    (conn : Connection) (file : OutboundFile) (b : MockBackend) (d : MockDevice)
    → has_token conn.token b.state.connections ≡ true
    → find_device conn.peer b.state.devices ≡ some d
    → over_limit d.transfer_failure_after (len file) ≡ false
    → (k : ℕ) × (len file ≤ k * max d.chunk_size 1)
      × (k * max d.chunk_size 1 < len file + max d.chunk_size 1)
      × ((push_file conn file b).0
          ≡ ok (record {
            object_name = file.name;
            bytes = len file;
            chunks = k;
            duration = record { nanos = 1_000_000 + k * d.per_chunk_latency.nanos };
          }))
      × (carried (push_file conn file b).1.emitted ≡ carried b.emitted + len file)
unfolding push_file push_found payload_bytes emit
push_file-ok conn file b d live known fits =
    let n = max d.chunk_size 1 in
    let cs = chunks_of n file.bytes in
    let start = emit (origin_of conn) (transfer_started file.name (len file)) step b in
    let all = total-chunks_from (len file) n file.bytes (omega arith) (omega arith) in
    let count = length-chunks_from (len file) n file.bytes (omega arith) (omega arith) in
    let whole : over_limit d.transfer_failure_after (0 + total cs) ≡ false =
      let size : 0 + total cs ≡ len file = omega (arith, all) in rw size fits in
    let (h1, h2, h3) =
      send_chunks-ok d (origin_of conn) (len file) cs 0 0 start (len file) (length cs) whole
        (omega (arith, all)) (omega arith) in
    let (s1, s2) =
      settle-ok conn file (now b) (len file) (length cs) _ _
        (1_000_000 + length cs * d.per_chunk_latency.nanos) h1 (omega (arith, h2)) in
    let started = carried-emit (origin_of conn) (transfer_started file.name (len file)) step b in
    (
      length cs,
      count.0,
      count.1,
      rw (live, known, push_file) s1,
      rw (live, known, push_file) (omega (arith, s2, h3, all, started)),
    )

-- A push that the device's script cuts short at `l` bytes reports a transient failure with the
-- bytes of the chunks that were sent whole: the largest multiple of the chunk size that is at
-- most `l`; the events that it emits carry exactly those bytes.
pub push_file-err :
    (conn : Connection) (file : OutboundFile) (b : MockBackend) (d : MockDevice) (l : ℕ)
    → has_token conn.token b.state.connections ≡ true
    → find_device conn.peer b.state.devices ≡ some d
    → d.transfer_failure_after ≡ some l
    → l < len file
    → (j : ℕ) × (j * max d.chunk_size 1 ≤ l)
      × (l < (j + 1) * max d.chunk_size 1)
      × ((push_file conn file b).0
          ≡ err (transfer_failed (j * max d.chunk_size 1) (failure_reason (some l))))
      × (carried (push_file conn file b).1.emitted ≡ carried b.emitted + j * max d.chunk_size 1)
unfolding push_file push_found payload_bytes
push_file-err conn file b d l live known hl short =
    let n = max d.chunk_size 1 in
    let cs = chunks_of n file.bytes in
    let start = emit (origin_of conn) (transfer_started file.name (len file)) step b in
    let all = total-chunks_from (len file) n file.bytes (omega arith) (omega arith) in
    let (j, h1, h2, h3, h4) =
      send_chunks-err d (origin_of conn) (len file) l cs 0 0 start hl (omega arith)
        (omega (arith, all)) in
    let first = total-take-chunks_from j (len file) n file.bytes (omega arith) (omega arith) in
    let next = total-take-chunks_from (suc j) (len file) n file.bytes (omega arith) (omega arith) in
    let sent : 0 + total (take j cs) ≡ j * n = omega (arith, first, h1) in
    let started = carried-emit (origin_of conn) (transfer_started file.name (len file)) step b in
    let fail = settle-err conn file (now b) _ _ _ (rw sent at h3) in
    (
      j,
      omega (arith, sent, h1),
      omega (arith, next, h2),
      rw (live, known, push_file) (ap (λ r. r.0) fail),
      rw (live, known, push_file) (rw (ap (λ r. r.1) fail) (omega (arith, h4, sent, started))),
    )
