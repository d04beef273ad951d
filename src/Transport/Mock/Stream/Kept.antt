-- ===== src/Transport/Mock/Stream/Kept.antt =====
-- The operations on the mock that consult no agent keep its stream in order, and its tokens fresh.
use pax.Prelude.{
  ℕ, ◌+◌, ◌<◌, not, Bool-cases, Option-cases, ◌==◌, inl, inr, none, List, [], ◌∷◌, arith, All,
  length,
}
use pax.Str.{Str}
use pax.Core.Time.{Duration, zero_duration}
use pax.Core.Device.{DeviceId, DeviceInfo}
use pax.Core.Event.{
  EventOrigin, outbound, data_chunk, transfer_progress, error, device_discovered, connected,
  disconnected, transfer_started,
}
use pax.Transport.Error.{Result, ok, err}
use pax.Transport.Transfer.{OutboundFile, len}
use pax.Transport.Backend.{Connection, origin_of, DiscoveryFilter}
use pax.Transport.Mock.{MockDevice, MockBackend, emit, device_origin, find_device, step, now}
use pax.Transport.Mock.Discover.{discover, discover_loop, wanted, limit_reached}
use pax.Transport.Mock.Link.{
  connect, disconnect, open_link, close_link, has_token, remove_token, insert_token,
}
use pax.Transport.Mock.Push.{
  push_file, push_found, settle, failure_reason, send_chunk, send_chunks, over_limit,
}
use pax.Transport.Mock.Stream.{IsStream, emit-IsStream}

-- Tokens that were handed out lie below the next one.
abbrev pub AreFresh : ℕ → List (ℕ × DeviceId) → Type 0
AreFresh n = All (λ (e : ℕ × DeviceId). e.0 < n)

unfoldable pub IsOrdered : MockBackend → Type 0
unfolding IsStream
IsOrdered b = IsStream b × AreFresh b.state.next_token b.state.connections

pub emit-IsOrdered :
    (o : EventOrigin) (k : _) (dt : Duration) (b : MockBackend)
    → IsOrdered b
    → IsOrdered (emit o k dt b)
unfolding IsOrdered emit
emit-IsOrdered o k dt b (h1, h2) = (emit-IsStream o k dt b h1, h2)

discover_loop-IsOrdered :
    (lower : Str → Str) (f : DiscoveryFilter) (ds : List MockDevice) (out : List DeviceInfo)
    (b : MockBackend)
    → IsOrdered b
    → IsOrdered (discover_loop lower f ds out b).1
unfolding discover_loop
discover_loop-IsOrdered lower f [] out b h = h
discover_loop-IsOrdered lower f (d ∷ ds) out b h = elim (Bool-cases (not (wanted lower f d))) [
  | inl e ↦ rw e (discover_loop-IsOrdered lower f ds out b h)
  | inr e ↦ elim (Bool-cases (limit_reached f.limit (length out))) [
    | inl e' ↦ rw (e, e') h
    | inr e' ↦
        rw (e, e')
          (discover_loop-IsOrdered lower f ds _ _ (
            emit-IsOrdered (device_origin d b.controller) (device_discovered d.info.rssi) step b h))
  ]
]

pub discover-IsOrdered :
    (lower : Str → Str) (f : DiscoveryFilter) (b : MockBackend)
    → IsOrdered b
    → IsOrdered (discover lower f b).1
unfolding discover
discover-IsOrdered lower f b h = discover_loop-IsOrdered lower f _ [] _ (emit-IsOrdered _ _ _ b h)

remove-AreFresh :
    (n t : ℕ) (es : List (ℕ × DeviceId)) → AreFresh n es → AreFresh n (remove_token t es)
unfolding remove_token
remove-AreFresh n t [] h = h
remove-AreFresh n t (e ∷ es) (h1, h2) = elim (Bool-cases (e.0 == t)) [
  | inl hit ↦ rw hit (remove-AreFresh n t es h2)
  | inr miss ↦ rw miss (h1, remove-AreFresh n t es h2)
]

later-AreFresh : (n : ℕ) (es : List (ℕ × DeviceId)) → AreFresh n es → AreFresh (n + 1) es
later-AreFresh n [] h = tt
later-AreFresh n (e ∷ es) (h1, h2) = (omega arith, later-AreFresh n es h2)

pub connect-IsOrdered : (id : DeviceId) (b : MockBackend) → IsOrdered b → IsOrdered (connect id b).1
unfolding connect IsOrdered IsStream emit insert_token
connect-IsOrdered id b (h1, h2) = elim (Option-cases (find_device id b.state.devices)) [
  | inl e ↦ rw (e, connect) (h1, h2)
  | inr (d, e) ↦
      rw (e, connect)
        (
          emit-IsStream (device_origin d b.controller) connected step (open_link id b) h1,
          (
            omega arith,
            later-AreFresh _ _ (remove-AreFresh _ b.state.next_token b.state.connections h2),
          ),
        )
]

pub disconnect-IsOrdered :
    (c : Connection) (b : MockBackend) → IsOrdered b → IsOrdered (disconnect c b).1
unfolding disconnect IsOrdered IsStream emit
disconnect-IsOrdered c b (h1, h2) = elim (Bool-cases (has_token c.token b.state.connections)) [
  | inl e ↦
      rw (e, disconnect)
        (
          emit-IsStream (origin_of c) (disconnected none) step (close_link c.token b) h1,
          remove-AreFresh _ c.token b.state.connections h2,
        )
  | inr e ↦ rw (e, disconnect) (h1, h2)
]

send_chunks-IsOrdered :
    (d : MockDevice) (o : EventOrigin) (total : ℕ) (cs : List (List ℕ)) (t n : ℕ) (b : MockBackend)
    → IsOrdered b
    → IsOrdered (send_chunks d o total cs t n b).1
unfolding send_chunks send_chunk
send_chunks-IsOrdered d o total [] t n b h = h
send_chunks-IsOrdered d o total (c ∷ cs) t n b h =
    elim (Bool-cases (over_limit d.transfer_failure_after (t + length c))) [
      | inl e ↦ rw e (emit-IsOrdered o (error (failure_reason d.transfer_failure_after)) step b h)
      | inr e ↦ rw e (
          send_chunks-IsOrdered d o total cs _ _ _ (
            emit-IsOrdered o (transfer_progress (t + length c) total) zero_duration _
              (emit-IsOrdered o (data_chunk outbound (length c)) d.per_chunk_latency b h)))
    ]

settle-IsOrdered :
    (c : Connection) (f : OutboundFile) (b : MockBackend) (r : Result (ℕ × ℕ) × MockBackend)
    → IsOrdered r.1
    → IsOrdered (settle c f (now b) r).1
unfolding settle
settle-IsOrdered c f b (ok (n, k), s) h = emit-IsOrdered _ _ _ _ h
settle-IsOrdered c f b (err e, s) h = h

pub push_file-IsOrdered :
    (c : Connection) (f : OutboundFile) (b : MockBackend)
    → IsOrdered b
    → IsOrdered (push_file c f b).1
unfolding push_file push_found
push_file-IsOrdered c f b h = elim (Bool-cases (has_token c.token b.state.connections)) [
  | inr e ↦ rw (e, push_file) h
  | inl e ↦ elim (Option-cases (find_device c.peer b.state.devices)) [
    | inl e' ↦ rw (e, e', push_file) h
    | inr (d, e') ↦
        rw (e, e', push_file)
          (settle-IsOrdered c f b _ (
            send_chunks-IsOrdered d (origin_of c) (len f) _ 0 0 _
              (emit-IsOrdered (origin_of c) (transfer_started f.name (len f)) step b h)))
  ]
]
