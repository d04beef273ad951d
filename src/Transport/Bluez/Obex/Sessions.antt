-- ===== src/Transport/Bluez/Obex/Sessions.antt =====
-- A push ends, and its session is removed.
use pax.Prelude.{
  ℕ, zero, suc, ◌-◌, ◌≤◌, ◌<◌, ◌≡◌, refl, Bool, true, false, Option, none, some, leb, arith,
}
use pax.Str.{Str}
use pax.Transport.Error.{err}
use pax.Transport.Radio.{Answer, done, failed, Call}
use pax.Transport.Bluez.Obex.{
  Obexd, Change, Value, Stage, completed, broken, running, stage, value_stage, reported,
  note_progress, transfer_loop, complete, Ran, bus, run_transfer, torn_down, object_push,
  overall_deadline, poll_interval, size_of, obex_error,
}

-- A run whose fuel did not run out.
abbrev pub Ends : {R : Type 0} → Option R → Type 0
Ends {R = R} o = (end : R) × (o ≡ some end)

module _ {R : Type 0} where
  Ends-stage :
      (s : Stage) (a b : R) (more : Option R)
      → Ends more
      → Ends (elim s [ completed ↦ some a | broken ↦ some b | running ↦ more ])
  Ends-stage completed a b more h = (a, refl)
  Ends-stage broken a b more h = (b, refl)
  Ends-stage running a b more h = h

  Ends-test :
      (t : Bool) (a : R) (more : Option R)
      → (t ≡ false → Ends more)
      → Ends (elim t [ true ↦ some a | false ↦ more ])
  Ends-test true a more h = (a, refl)
  Ends-test false a more h = h refl

-- The clock goes on when the bus is asked for a status, and never goes back.
abbrev pub Ticks : {W : Type 0} → Obexd W → Type 0
Ticks {W = W} obexd =
    ((path : Str) (w : W) → obexd.instant w < obexd.instant (obexd.current_status path w).1)
    × ((timeout : ℕ) (path : Str) (w : W)
        → obexd.instant w ≤ obexd.instant (obexd.next_change timeout path w).1)

module _ {W C : Type 0} (obexd : Obexd W) (on_progress : ℕ → W → C → C) where
  module _ (ticks : Ticks obexd) (path : Str) (total started : ℕ) where
    -- What a signal leads to, when a round on any bytes and state of the caller ends.
    after_change :
        (change : Option Change) (fuel transferred : ℕ) (w : W) (c : C)
        → ((sent : ℕ) (c1 : C)
            → Ends (transfer_loop obexd on_progress path total started fuel sent w c1))
        → Ends (elim change [
          | none ↦ transfer_loop obexd on_progress path total started fuel transferred w c
          | some ch ↦
              let (sent, c1) =
                note_progress obexd on_progress (reported ch.transferred) transferred w c in
              elim (value_stage ch.status) [
                | completed ↦ some (complete obexd on_progress total sent w c1)
                | broken ↦ some (err (pax.Transport.Bluez.Obex.broken_after sent), w, c1)
                | running ↦ transfer_loop obexd on_progress path total started fuel sent w c1
              ]
        ])
    after_change none fuel transferred w c h = h transferred c
    after_change (some ch) fuel transferred w c h =
        let (sent, c1) =
          note_progress obexd on_progress (reported ch.transferred) transferred w c in
        Ends-stage (value_stage ch.status) _ _ _ (h sent c1)

    transfer_loop-Ends :
        (fuel transferred : ℕ) (w : W) (c : C)
        → started ≤ obexd.instant w
        → overall_deadline - (obexd.instant w - started) < fuel
        → Ends (transfer_loop obexd on_progress path total started fuel transferred w c)
    unfolding transfer_loop
    transfer_loop-Ends zero transferred w c begun short = absurd (omega arith)
    transfer_loop-Ends (suc fuel) transferred w c begun short =
        let (status, w1) = obexd.current_status path w in
        let (change, w2) = obexd.next_change poll_interval path w1 in
        let on = ticks.0 path w in
        let not_back = ticks.1 poll_interval path w1 in
        Ends-stage (stage status) _ _ _ (
          Ends-test (leb overall_deadline (obexd.instant w1 - started)) _ _ (λ in_time.
            let early : obexd.instant w1 - started < overall_deadline = ground arith in
            after_change change fuel transferred w2 c (λ sent c1.
              transfer_loop-Ends fuel sent w2 c1 (omega (arith, begun, on, not_back))
                (omega (arith, begun, on, not_back, early, short)))))

  -- A part of a push that ends from every state.
  abbrev AlwaysEnds : (W → C → Option (Ran obexd on_progress)) → Type 0
  AlwaysEnds run = (w : W) (c : C) → Ends (run w c)

  AlwaysEnds-bus :
      {A : Type 0} (call : Call W A) (next : A → W → C → Option (Ran obexd on_progress))
      → ((a : A) → AlwaysEnds (next a))
      → AlwaysEnds (bus obexd on_progress call next)
  AlwaysEnds-bus {A = A} call next h w c = go (call w).0 (call w).1
    where
      go :
          (a : Answer A) (w1 : W)
          → Ends (elim a [ done x ↦ next x w1 c | failed e ↦ some (err (obex_error e), w1, c) ])
      go (done x) w1 = h x w1 c
      go (failed e) w1 = ((err (obex_error e), w1, c), refl)

  module _ (ticks : Ticks obexd) (fuel : ℕ) (enough : overall_deadline < fuel) (source : Str) where
    run_transfer-AlwaysEnds :
        (session : Str) → AlwaysEnds (run_transfer obexd on_progress fuel session source)
    unfolding run_transfer
    run_transfer-AlwaysEnds session = AlwaysEnds-bus (obexd.push_proxy session) _ (λ u.
        AlwaysEnds-bus (obexd.send_file session source) _ (λ sent.
          AlwaysEnds-bus (obexd.transfer_proxy sent.0) _ (λ u.
            AlwaysEnds-bus (obexd.properties_proxy sent.0) _ (λ u.
              AlwaysEnds-bus (obexd.receive_changes sent.0) _ (λ u w c.
                transfer_loop-Ends ticks sent.0 (size_of sent.1) (obexd.instant w) fuel 0 w c
                  (omega arith) (omega (arith, enough)))))))

    torn_down-Ends :
        (session : Str) (o : Option (Ran obexd on_progress))
        → Ends o
        → (end : Ran obexd on_progress) × (w : W) × (torn_down obexd on_progress session o
            ≡ some end)
          × (end.1 ≡ (obexd.remove_session session w).1)
    torn_down-Ends session none (end, h) = absurd (cc)
    torn_down-Ends session (some (r, w, c)) h =
        ((r, (obexd.remove_session session w).1, c), w, refl, refl)

    -- A push ends, with any answers of the bus, when the clock goes on whenever a status is asked for
    -- and never goes back: as many rounds as the deadline has nanoseconds, and one more, are enough.
    pub object_push-AlwaysEnds :
        (dest : Str) → AlwaysEnds (object_push obexd on_progress fuel dest source)
    unfolding object_push
    object_push-AlwaysEnds dest = AlwaysEnds-bus obexd.session_bus _ (λ u.
        AlwaysEnds-bus obexd.client_proxy _ (λ u.
          AlwaysEnds-bus (obexd.create_session dest) _ (λ session w c.
            let (end, last, same, removed) =
              torn_down-Ends session (run_transfer obexd on_progress fuel session source w c)
                (run_transfer-AlwaysEnds session w c) in
            (end, same))))

    -- When the bus, the client and the session are there, the push ends and the last call that it
    -- makes removes that session, however the transfer went; the clock goes on whenever a status is
    -- asked for and never goes back, and there is a round for each nanosecond of the deadline and one
    -- more.
    pub object_push-removes :
        (dest session : Str) (w : W) (c : C)
        → let w1 = (obexd.session_bus w).1 in
          let w2 = (obexd.client_proxy w1).1 in
          (obexd.session_bus w).0 ≡ done tt
          → (obexd.client_proxy w1).0 ≡ done tt
          → (obexd.create_session dest w2).0 ≡ done session
          → (end : Ran obexd on_progress) × (last : W) × (object_push obexd on_progress fuel dest
                source w c
              ≡ some end)
            × (end.1 ≡ (obexd.remove_session session last).1)
    unfolding object_push
    object_push-removes dest session w c bus_up client_up made =
        let w3 = (obexd.create_session dest (obexd.client_proxy (obexd.session_bus w).1).1).1 in
        rw (object_push, bus, bus_up, client_up, bus, made)
          (torn_down-Ends session (run_transfer obexd on_progress fuel session source w3 c)
            (run_transfer-AlwaysEnds session w3 c))
