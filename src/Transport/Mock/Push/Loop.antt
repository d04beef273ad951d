-- ===== src/Transport/Mock/Push/Loop.antt =====
-- What the loop of `push_file` sends.
use pax.Prelude.{
  ℕ, suc, ◌+◌, ◌*◌, ◌≤◌, ◌<◌, ◌≡◌, refl, true, false, Option, none, some, List, [], ◌∷◌, ◌++◌,
  arith, length, take, Bool-cases, inl, inr,
}
use pax.Core.Time.{Duration, zero_duration}
use pax.Core.Event.{
  EventOrigin, TransitEvent, TransitEventKind, payload_bytes, outbound, data_chunk,
  transfer_progress, error,
}
use pax.Transport.Error.{transfer_failed, ok, err}
use pax.Transport.Mock.{MockDevice, MockBackend, emit, step}
use pax.Transport.Mock.Push.{over_limit, failure_reason, send_chunk, send_chunks}
use pax.Transport.Mock.Push.Chunks.{total, suc_times}

-- The bytes that events carry, by `payload_bytes`.
unfoldable pub carried : List TransitEvent → ℕ
unfolding payload_bytes
carried [] = 0
carried (e ∷ es) = payload_bytes e.kind + carried es

carried-snoc :
    (es : List TransitEvent) (e : TransitEvent)
    → carried (es ++ e ∷ []) ≡ carried es + payload_bytes e.kind
unfolding carried
carried-snoc [] e = omega arith
carried-snoc (x ∷ es) e = omega (arith, carried-snoc es e)

pub carried-emit :
    (o : EventOrigin) (k : TransitEventKind) (dt : Duration) (b : MockBackend)
    → carried (emit o k dt b).emitted ≡ carried b.emitted + payload_bytes k
unfolding emit
carried-emit o k dt b = carried-snoc b.emitted _

over_limit_mono : (l : Option ℕ) (m n : ℕ) → m ≤ n → over_limit l n ≡ false → over_limit l m ≡ false
over_limit_mono none m n h e = refl
over_limit_mono (some l) m n h e = ground arith

module _ (d : MockDevice) (o : EventOrigin) (size : ℕ) where
  carried-send_chunk :
      (n t : ℕ) (b : MockBackend)
      → carried (send_chunk d o size n t b).emitted ≡ carried b.emitted + n
  unfolding send_chunk payload_bytes
  carried-send_chunk n t b =
      let first = carried-emit o (data_chunk outbound n) d.per_chunk_latency b in
      let sent = emit o (data_chunk outbound n) d.per_chunk_latency b in
      omega (arith, first, carried-emit o (transfer_progress (t + n) size) zero_duration sent)

  clock-send_chunk :
      (n t : ℕ) (b : MockBackend)
      → (send_chunk d o size n t b).state.clock_ns ≡ b.state.clock_ns + d.per_chunk_latency.nanos
  unfolding send_chunk emit
  clock-send_chunk n t b = omega arith

  -- The loop without a failure: `m` bytes in `k` chunks, and one latency for each.
  pub send_chunks-ok :
      (cs : List (List ℕ)) (t c : ℕ) (b : MockBackend) (m k : ℕ)
      → over_limit d.transfer_failure_after (t + total cs) ≡ false
      → m ≡ t + total cs
      → k ≡ c + length cs
      → ((send_chunks d o size cs t c b).0 ≡ ok (m, k))
        × ((send_chunks d o size cs t c b).1.state.clock_ns
            ≡ b.state.clock_ns + length cs * d.per_chunk_latency.nanos)
        × (carried (send_chunks d o size cs t c b).1.emitted ≡ carried b.emitted + total cs)
  unfolding send_chunks total
  send_chunks-ok [] t c b m k e hm hk = (
    let m_eq : t ≡ m = omega arith in let k_eq : c ≡ k = omega arith in rw (m_eq, k_eq) refl,
    omega arith,
    omega arith,
  )
  send_chunks-ok (x ∷ cs) t c b m k e hm hk =
      let n = length x in
      let now_ok : over_limit d.transfer_failure_after (t + n) ≡ false =
        over_limit_mono _ (t + n) (t + (n + total cs)) (omega arith) e in
      let same : t + (n + total cs) ≡ t + n + total cs = omega arith in
      let (h1, h2, h3) =
        send_chunks-ok cs (t + n) (c + 1) (send_chunk d o size n t b) m k (rw same at e)
          (omega arith) (omega arith) in
      (
        rw now_ok h1,
        rw now_ok (
            omega
              (arith, h2, clock-send_chunk n t b, suc_times (length cs) d.per_chunk_latency.nanos)),
        rw now_ok (omega (arith, h3, carried-send_chunk n t b)),
      )

  -- The loop with a failure scripted at `l`: the chunks that still fit are sent.
  pub send_chunks-err :
      (l : ℕ) (cs : List (List ℕ)) (t c : ℕ) (b : MockBackend)
      → d.transfer_failure_after ≡ some l
      → t ≤ l
      → l < t + total cs
      → (j : ℕ) × (t + total (take j cs) ≤ l)
        × (l < t + total (take (suc j) cs))
        × ((send_chunks d o size cs t c b).0
            ≡ err (transfer_failed (t + total (take j cs)) (failure_reason (some l))))
        × (carried (send_chunks d o size cs t c b).1.emitted
            ≡ carried b.emitted + total (take j cs))
  unfolding send_chunks total payload_bytes
  send_chunks-err l [] t c b hl low high = let absurd : ⊥ = omega arith in elim absurd [ ]
  send_chunks-err l (x ∷ cs) t c b hl low high =
      let n = length x in
      elim (Bool-cases (over_limit (some l) (t + n))) [
        | inl over ↦
            let stop : over_limit d.transfer_failure_after (t + n) ≡ true = rw hl over in
            let same : t + 0 ≡ t = omega arith in
            (
              0,
              omega arith,
              ground (arith, over),
              rw (stop, hl, same) refl,
              rw stop (
                  omega (
                    arith,
                    carried-emit o (error (failure_reason d.transfer_failure_after)) step b,
                  )),
            )
        | inr fits ↦
            let go_on : over_limit d.transfer_failure_after (t + n) ≡ false = rw hl fits in
            let (j, h1, h2, h3, h4) =
              send_chunks-err l cs (t + n) (c + 1) (send_chunk d o size n t b) hl
                (ground (arith, fits)) (omega arith) in
            let same : t + n + total (take j cs) ≡ t + (n + total (take j cs)) = omega arith in
            (
              suc j,
              omega arith,
              omega (arith, h2),
              rw go_on (rw same at h3),
              rw go_on (omega (arith, h4, carried-send_chunk n t b)),
            )
      ]
