-- ===== src/Transport/Mock/Push.antt =====
-- `push_file` of the mock.
pub mod Chunks
pub mod Loop
pub mod Receipts
use pax.Prelude.{
  ℕ, zero, suc, ◌+◌, Option, none, some, List, [], ◌∷◌, ◌++◌, ltb, if◌then◌else◌, length, take,
  drop, max, Bool, false,
}
use pax.Str.{Str, codes, decimal}
use pax.Core.Time.{Timestamp, zero_duration, saturating_since}
use pax.Core.Event.{
  EventOrigin, outbound, transfer_started, transfer_progress, transfer_completed, data_chunk, error,
}
use pax.Transport.Error.{
  TransportError, device_not_found, not_connected, transfer_failed, Result, ok, err, Op, ◌>>=◌,
}
use pax.Transport.Backend.{Connection, origin_of}
use pax.Transport.Transfer.{OutboundFile, TransferReceipt, len}
use pax.Transport.Mock.{MockDevice, MockBackend, emit, find_device, step, now}
use pax.Transport.Mock.Link.{has_token}

-- `slice::chunks(n)`, on fuel: each round takes at least one element when `n` is positive.
unfoldable pub chunks_from : ℕ → ℕ → List ℕ → List (List ℕ)
chunks_from zero n xs = []
chunks_from (suc fuel) n [] = []
chunks_from (suc fuel) n (x ∷ xs) = take n (x ∷ xs) ∷ chunks_from fuel n (drop n (x ∷ xs))

abbrev pub chunks_of : ℕ → List ℕ → List (List ℕ)
chunks_of n xs = chunks_from (length xs) n xs

-- `transferred + n > limit`, if a failure is scripted.
abbrev pub over_limit : Option ℕ → ℕ → Bool
over_limit none n = false
over_limit (some limit) n = ltb limit n

-- `simulated link failure at {limit} bytes`.
abbrev pub failure_reason : Option ℕ → Str
failure_reason none = []
failure_reason (some limit) = codes "simulated link failure at " ++ decimal limit ++ codes " bytes"

module _ (device : MockDevice) (origin : EventOrigin) (total : ℕ) where
  -- The two events of a chunk.
  unfoldable pub send_chunk : ℕ → ℕ → MockBackend → MockBackend
  send_chunk n transferred b =
      emit origin (transfer_progress (transferred + n) total) zero_duration
        (emit origin (data_chunk outbound n) device.per_chunk_latency b)

  -- The loop over the chunks: the bytes and the chunks sent, or the error of the early return.
  unfoldable pub send_chunks : List (List ℕ) → ℕ → ℕ → Op MockBackend (ℕ × ℕ)
  unfolding send_chunk
  send_chunks [] transferred chunks b = (ok (transferred, chunks), b)
  send_chunks (c ∷ cs) transferred chunks b =
      let n = length c in
      let reason = failure_reason device.transfer_failure_after in
      let rest = send_chunks cs (transferred + n) (chunks + 1) (send_chunk n transferred b) in
      if over_limit device.transfer_failure_after (transferred + n)
      then (err (transfer_failed transferred reason), emit origin (error reason) step b)
      else rest

-- What follows the loop, which began at `start`: the last event and the receipt.
unfoldable pub settle :
    Connection
    → OutboundFile
    → Timestamp
    → Result (ℕ × ℕ) × MockBackend
    → Result TransferReceipt × MockBackend
settle conn file start (err e, b) = (err e, b)
settle conn file start (ok (transferred, chunks), b) =
    let duration = saturating_since (now b) start in
    (
      ok (record {
        object_name = file.name;
        bytes = transferred;
        chunks = chunks;
        duration = duration;
      }),
      emit (origin_of conn) (transfer_completed transferred duration) step b,
    )

-- The body of `push_file` behind the checks.
unfoldable pub push_found : Connection → OutboundFile → MockDevice → Op MockBackend TransferReceipt
unfolding send_chunks settle
push_found conn file device b =
    let origin = origin_of conn in
    let total = len file in
    let started = emit origin (transfer_started file.name total) step b in
    settle conn file (now b)
      (send_chunks device origin total (chunks_of (max device.chunk_size 1) file.bytes) 0 0 started)

unfoldable pub push_file : Connection → OutboundFile → Op MockBackend TransferReceipt
unfolding push_found has_token find_device
push_file conn file b =
    if has_token conn.token b.state.connections
    then elim (find_device conn.peer b.state.devices) [
      | none ↦ (err (device_not_found conn.peer), b)
      | some device ↦ push_found conn file device b
    ]
    else (err (not_connected conn.peer), b)
