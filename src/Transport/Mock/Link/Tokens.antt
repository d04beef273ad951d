-- ===== src/Transport/Mock/Link/Tokens.antt =====
-- The life of a link: opened by `connect`, live for every other operation until `disconnect`.
use pax.Prelude.{
  ℕ, ◌≡◌, ◌≢◌, refl, true, false, ◌==◌, ==_iff, Bool-cases, inl, inr, some, List, [], ◌∷◌, arith,
}
use pax.Core.Device.{DeviceId}
use pax.Transport.Error.{not_connected, ok, err}
use pax.Transport.Backend.{Connection}
use pax.Transport.Transfer.{OutboundFile}
use pax.Transport.Mock.{MockDevice, MockBackend, emit, find_device}
use pax.Transport.Mock.Link.{has_token, remove_token, insert_token, connect, disconnect}
use pax.Transport.Mock.Push.{push_file}

has-remove_same : (t : ℕ) (es : List (ℕ × DeviceId)) → has_token t (remove_token t es) ≡ false
unfolding has_token remove_token
has-remove_same t [] = refl
has-remove_same t (e ∷ es) = elim (Bool-cases (e.0 == t)) [
  | inl hit ↦ rw hit (has-remove_same t es)
  | inr miss ↦ rw miss (rw miss (has-remove_same t es))
]

has-remove_other :
    (t u : ℕ) (es : List (ℕ × DeviceId)) → t ≢ u → has_token u (remove_token t es) ≡ has_token u es
unfolding has_token remove_token
has-remove_other t u [] h = refl
has-remove_other t u (e ∷ es) h = elim (Bool-cases (e.0 == t)) [
  | inl hit ↦
      let miss : (e.0 == u) ≡ false = ground arith in rw (hit, miss) (has-remove_other t u es h)
  | inr miss ↦ rw miss (rw (has-remove_other t u es h) refl)
]

-- `connect` to a known device opens a link, which is live in the state that it leaves, and
-- keeps every link whose token differs from the next one as it was.
pub connect-live :
    (id : DeviceId) (b : MockBackend) (d : MockDevice)
    → find_device id b.state.devices ≡ some d
    → (conn : Connection) × ((connect id b).0 ≡ ok conn)
      × (conn.peer ≡ id)
      × (has_token conn.token (connect id b).1.state.connections ≡ true)
      × ((t : ℕ)
          → b.state.next_token ≢ t
          → has_token t (connect id b).1.state.connections ≡ has_token t b.state.connections)
unfolding connect insert_token emit has_token
connect-live id b d known =
    let same : (b.state.next_token == b.state.next_token) ≡ true = (==_iff _ _).1 refl in
    (
      record {
        peer = id;
        local = b.controller;
        spec = d.spec;
        standards = d.standards;
        token = b.state.next_token;
      },
      rw (known, connect) refl,
      refl,
      rw (known, connect) (rw same refl),
      λ t h.
          (let miss : (b.state.next_token == t) ≡ false = ground arith in
            rw (known, connect)
              (rw miss (has-remove_other b.state.next_token t b.state.connections h))),
    )

-- The state that `disconnect` leaves has no link with the token, whether it succeeded or not,
-- and keeps every other link.
pub disconnect-closed :
    (conn : Connection) (b : MockBackend)
    → (has_token conn.token (disconnect conn b).1.state.connections ≡ false)
      × ((t : ℕ)
          → conn.token ≢ t
          → has_token t (disconnect conn b).1.state.connections ≡ has_token t b.state.connections)
unfolding disconnect emit
disconnect-closed conn b = elim (Bool-cases (has_token conn.token b.state.connections)) [
  | inl live ↦ (
    rw (live, disconnect) (has-remove_same conn.token b.state.connections),
    λ t h. rw (live, disconnect) (has-remove_other conn.token t b.state.connections h),
  )
  | inr dead ↦ (rw (dead, disconnect) dead, λ t h. rw (dead, disconnect) refl)
]

dead-refused :
    (conn : Connection) (file : OutboundFile) (b : MockBackend)
    → has_token conn.token b.state.connections ≡ false
    → (push_file conn file b ≡ (err (not_connected conn.peer), b))
      × (disconnect conn b ≡ (err (not_connected conn.peer), b))
unfolding push_file disconnect
dead-refused conn file b dead = (rw (dead, push_file) refl, rw (dead, disconnect) refl)

-- After `disconnect`, a push and a second `disconnect` on the same connection fail with
-- `NotConnected` and change nothing.
pub disconnect-refused :
    (conn : Connection) (file : OutboundFile) (b : MockBackend)
    → (push_file conn file (disconnect conn b).1
        ≡ (err (not_connected conn.peer), (disconnect conn b).1))
      × (disconnect conn (disconnect conn b).1
          ≡ (err (not_connected conn.peer), (disconnect conn b).1))
disconnect-refused conn file b =
    dead-refused conn file (disconnect conn b).1 (disconnect-closed conn b).0
