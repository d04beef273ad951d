-- ===== src/Transport/Bluez/Push/Payload.antt =====
-- The events of a push carry at least the bytes of its receipt.
use pax.Prelude.{
  ℕ, ◌+◌, ◌-◌, ◌≤◌, ◌<◌, ◌≡◌, refl, subst, Option, none, some, List, [], ◌∷◌, ◌++◌, ltb, Bool-cases,
  inl, inr, arith, if◌then◌else◌,
}
use pax.Str.{Str, codes}
use pax.Core.Address
use pax.Core.Time.{Timestamp, saturating_since}
use pax.Core.Device.{DeviceId}
use pax.Core.Event.{
  TransitEvent, TransitEventKind, payload_bytes, transfer_started, data_chunk, outbound,
  transfer_progress, transfer_completed,
}
use pax.Diagnostics.Metrics.Sums.{payload}
use pax.Transport.Error.{backend, Result, ok, err}
use pax.Transport.Backend.{Connection}
use pax.Transport.Transfer.{OutboundFile, TransferReceipt, len}
use pax.Transport.Radio.{Answer, done, failed, Radio, moved, emit}
use pax.Transport.Bluez.{Bluer}
use pax.Transport.Bluez.Obex.{Obexd, overall_deadline, Ran, object_push, torn_down}
use pax.Transport.Bluez.Obex.Sessions.{Ticks, Ends, object_push-AlwaysEnds}
use pax.Transport.Bluez.Obex.Keeps.{object_push-keeps}
use pax.Transport.Bluez.Push.{
  Files, stage_temp_file, Pushing, on_progress, settle, finish, push_staged, push_file,
}

payload-snoc :
    (es : List TransitEvent) (e : TransitEvent)
    → payload (es ++ e ∷ []) ≡ payload es + payload_bytes e.kind
unfolding payload
payload-snoc [] e = omega arith
payload-snoc (x ∷ es) e = omega (arith, payload-snoc es e)

payload-emit :
    {W : Type 0} (now : W → Timestamp) (peer : DeviceId) (kind : TransitEventKind) (r : Radio W)
    → payload (emit now peer kind r).emitted ≡ payload r.emitted + payload_bytes kind
unfolding emit
payload-emit now peer kind r = payload-snoc r.emitted _

module _ {W D E : Type 0} (bluer : Bluer W D E) where
  -- The events behind the first `base` bytes carry at least what was reported last.
  abbrev Told : ℕ → Pushing W → Type 0
  Told base p = base + p.last ≤ payload p.radio.emitted

  on_progress-Told :
      (peer : DeviceId) (total base n : ℕ) (w : W) (p : Pushing W)
      → Told base p
      → base + n ≤ payload (on_progress bluer peer total n w p).radio.emitted
  unfolding on_progress payload_bytes
  on_progress-Told peer total base n w p reached =
      let delta = n - p.last in
      let here = moved p.radio w in
      let chunk = emit bluer.now peer (data_chunk outbound delta) here in
      let middle = if ltb 0 delta then chunk else here in
      let carried : base + n ≤ payload middle.emitted = elim (Bool-cases (ltb 0 delta)) [
        | inl e ↦
            rw (e)
              (omega (arith, reached, payload-emit bluer.now peer (data_chunk outbound delta) here))
        | inr e ↦
            rw (e) (let none_new : n ≤ p.last = ground arith in omega (arith, reached, none_new))
      ] in
      omega (arith, carried, payload-emit bluer.now peer (transfer_progress n total) middle)

  -- A result of `object_push` that reports no more bytes than the events carry.
  abbrev Carried : ℕ → Option (Result ℕ × W × Pushing W) → Type 0
  Carried base none = Unit
  Carried base (some (ok n, w, p)) = base + n ≤ payload p.radio.emitted
  Carried base (some (err e, w, p)) = Unit

  object_push-Carried :
      (obexd : Obexd W) (peer : DeviceId) (total base fuel : ℕ) (dest source : Str) (w : W)
      (p : Pushing W)
      → Told base p
      → Carried base (object_push obexd (on_progress bluer peer total) fuel dest source w p)
  unfolding on_progress
  object_push-Carried obexd peer total base fuel dest source =
      object_push-keeps obexd (on_progress bluer peer total) (Told base) (Carried base)
        (λ n w p. on_progress-Told peer total base n w p)
        (λ n w w1 p. on_progress-Told peer total base n w p) (λ e w c. tt) tt removed fuel dest
        source
    where
      removed :
          (session : Str) (o : Option (Ran obexd (on_progress bluer peer total)))
          → Carried base o
          → Carried base (torn_down obexd (on_progress bluer peer total) session o)
      removed session none h = tt
      removed session (some (ok n, w, p)) h = h
      removed session (some (err e, w, p)) h = tt

  -- A result of `push_file` whose receipt has no more bytes than the new events carry.
  abbrev pub Accounted : ℕ → Option (Result TransferReceipt × Radio W) → Type 0
  Accounted base none = Unit
  Accounted base (some (ok receipt, r)) = base + receipt.bytes ≤ payload r.emitted
  Accounted base (some (err e, r)) = Unit

  module _ (files : Files W) (obexd : Obexd W) (fuel : ℕ) (conn : Connection)
      (file : OutboundFile) where
    finish-Accounted :
        (base : ℕ) (path : Str) (start : Timestamp) (p : Option (Result ℕ × W × Pushing W))
        → Carried base p
        → Accounted base (elim p [
          | none ↦ none
          | some end ↦ some (finish bluer files obexd fuel conn file path start end)
        ])
    unfolding finish settle
    finish-Accounted base path start none h = tt
    finish-Accounted base path start (some (err e, w, p)) h = tt
    finish-Accounted base path start (some (ok n, w, p)) h = omega (
      arith,
      h,
      payload-emit bluer.now conn.peer (transfer_completed n (saturating_since (bluer.now w) start))
          (moved p.radio w),
    )

    push_staged-Accounted :
        (path : Str) (start : Timestamp) (r : Radio W)
        → Accounted (payload r.emitted) (push_staged bluer files obexd fuel conn file path start r)
    unfolding push_staged
    push_staged-Accounted path start r =
        let total = len file in
        let started = emit bluer.now conn.peer (transfer_started file.name total) r in
        let p : Pushing W = record { radio = started; last = 0; chunks = 0 } in
        let same = payload-emit bluer.now conn.peer (transfer_started file.name total) r in
        finish-Accounted (payload r.emitted) path start
          (object_push obexd (on_progress bluer conn.peer total) fuel
            (Address.display conn.peer.addr) (files.to_string_lossy path) r.world p)
          (object_push-Carried obexd conn.peer total (payload r.emitted) fuel
            (Address.display conn.peer.addr) (files.to_string_lossy path) r.world p
            (omega (arith, same)))

    push_file-Accounted :
        (r : Radio W) → Accounted (payload r.emitted) (push_file bluer files obexd fuel conn file r)
    unfolding push_file
    push_file-Accounted r =
        go (stage_temp_file files file r.world).0 (stage_temp_file files file r.world).1
      where
        go :
            (staged : Answer Str) (w : W)
            → Accounted (payload r.emitted) (elim staged [
              | failed e ↦ some (err (backend (codes "staging temp file: " ++ e)), moved r w)
              | done path ↦
                  push_staged bluer files obexd fuel conn file path (bluer.now r.world) (moved r w)
            ])
        go (failed e) w = tt
        go (done path) w = push_staged-Accounted path (bluer.now r.world) (moved r w)

    module _ (ticks : Ticks obexd) (enough : overall_deadline < fuel) where
      push_staged-Ends :
          (path : Str) (start : Timestamp) (r : Radio W)
          → Ends (push_staged bluer files obexd fuel conn file path start r)
      unfolding push_staged
      push_staged-Ends path start r =
          let total = len file in
          let started = emit bluer.now conn.peer (transfer_started file.name total) r in
          let (end, same) =
            object_push-AlwaysEnds obexd (on_progress bluer conn.peer total) ticks fuel enough
              (files.to_string_lossy path) (Address.display conn.peer.addr) r.world
              (record { radio = started; last = 0; chunks = 0 }) in
          (finish bluer files obexd fuel conn file path start end, rw (push_staged, same) refl)

      push_file-returns : (r : Radio W) → Ends (push_file bluer files obexd fuel conn file r)
      unfolding push_file
      push_file-returns r =
          go (stage_temp_file files file r.world).0 (stage_temp_file files file r.world).1
        where
          go :
              (staged : Answer Str) (w : W)
              → Ends (elim staged [
                | failed e ↦ some (err (backend (codes "staging temp file: " ++ e)), moved r w)
                | done path ↦
                    push_staged bluer files obexd fuel conn file path
                      (bluer.now r.world)
                      (moved r w)
              ])
          go (failed e) w = ((err (backend (codes "staging temp file: " ++ e)), moved r w), refl)
          go (done path) w = push_staged-Ends path (bluer.now r.world) (moved r w)

      -- A push ends, on any file system and with any answers and reports of `obexd`, when the clock
      -- goes on whenever a status is asked for and never goes back, and there is a round for each
      -- nanosecond of the deadline and one more; and when it ends with a receipt, the bytes that the
      -- data chunks of the events carry have grown by at least those of the receipt.
      pub push_file-Ends :
          (r : Radio W)
          → (end : Result TransferReceipt × Radio W) × (push_file bluer files obexd fuel conn file r
              ≡ some end)
            × Accounted (payload r.emitted) (some end)
      push_file-Ends r =
          let (end, same) = push_file-returns r in
          (end, same, subst (Accounted (payload r.emitted)) same (push_file-Accounted r))
