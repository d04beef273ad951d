-- ===== src/Transport/Bluez/Obex/Keeps.antt =====
-- What the progress callback keeps of the caller's state holds after a push.
use pax.Prelude.{ℕ, zero, suc, ◌-◌, max, Bool, true, false, Option, none, some, leb}
use pax.Str.{Str}
use pax.Transport.Error.{TransportError, ok, err}
use pax.Transport.Radio.{Answer, done, failed, Call}
use pax.Transport.Bluez.Obex.{
  Obexd, Change, Stage, completed, broken, running, stage, value_stage, reported, note_progress,
  transfer_loop, complete, Ran, bus, run_transfer, torn_down, object_push, overall_deadline,
  poll_interval, size_of, obex_error, broken_after,
}

-- `I` is kept by the callback, and leads to `P` at the end; `P` asks nothing of an error or of a run
-- that is out of fuel.
module _ {W C : Type 0} (obexd : Obexd W) (on_progress : ℕ → W → C → C) (I : C → Type 0)
    (P : Option (Ran obexd on_progress) → Type 0)
    (told : (n : ℕ) (w : W) (c : C) → I c → I (on_progress n w c))
    (ends : (n : ℕ) (w w1 : W) (c : C) → I c → P (some (ok n, w1, on_progress n w c)))
    (fails : (e : TransportError) (w : W) (c : C) → P (some (err e, w, c))) (out : P none) where
  by_stage :
      (s : Stage) (a b : Ran obexd on_progress) (more : Option (Ran obexd on_progress))
      → P (some a)
      → P (some b)
      → P more
      → P (elim s [ completed ↦ some a | broken ↦ some b | running ↦ more ])
  by_stage completed a b more pa pb pm = pa
  by_stage broken a b more pa pb pm = pb
  by_stage running a b more pa pb pm = pm

  by_test :
      (t : Bool) (a : Ran obexd on_progress) (more : Option (Ran obexd on_progress))
      → P (some a)
      → P more
      → P (elim t [ true ↦ some a | false ↦ more ])
  by_test true a more pa pm = pa
  by_test false a more pa pm = pm

  note_progress-keeps :
      (n : Option ℕ) (transferred : ℕ) (w : W) (c : C)
      → I c
      → I (note_progress obexd on_progress n transferred w c).1
  unfolding note_progress
  note_progress-keeps none transferred w c i = i
  note_progress-keeps (some n) transferred w c i = told n w c i

  module _ (path : Str) (total started : ℕ) where
    abbrev loop : ℕ → ℕ → W → C → Option (Ran obexd on_progress)
    loop = transfer_loop obexd on_progress path total started

    after_change :
        (change : Option Change) (fuel transferred : ℕ) (w : W) (c : C)
        → I c
        → ((sent : ℕ) (c1 : C) → I c1 → P (loop fuel sent w c1))
        → P (elim change [
          | none ↦ loop fuel transferred w c
          | some ch ↦
              let (sent, c1) =
                note_progress obexd on_progress (reported ch.transferred) transferred w c in
              elim (value_stage ch.status) [
                | completed ↦ some (complete obexd on_progress total sent w c1)
                | broken ↦ some (err (broken_after sent), w, c1)
                | running ↦ loop fuel sent w c1
              ]
        ])
    after_change none fuel transferred w c i h = h transferred c i
    after_change (some ch) fuel transferred w c i h =
        let (sent, c1) =
          note_progress obexd on_progress (reported ch.transferred) transferred w c in
        let i1 = note_progress-keeps (reported ch.transferred) transferred w c i in
        by_stage (value_stage ch.status) _ _ _ (ends (max total sent) w w c1 i1)
          (fails (broken_after sent) w c1) (h sent c1 i1)

    transfer_loop-keeps :
        (fuel transferred : ℕ) (w : W) (c : C) → I c → P (loop fuel transferred w c)
    unfolding transfer_loop
    transfer_loop-keeps zero transferred w c i = out
    transfer_loop-keeps (suc fuel) transferred w c i =
        let (status, w1) = obexd.current_status path w in
        let (change, w2) = obexd.next_change poll_interval path w1 in
        by_stage (stage status) _ _ _ (ends (max total transferred) w1 w1 c i)
          (fails (broken_after transferred) w1 c)
          (by_test (leb overall_deadline (obexd.instant w1 - started)) _ _ (fails _ w1 c) (
            after_change change fuel transferred w2 c i
              (λ sent c1. transfer_loop-keeps fuel sent w2 c1)))

  -- A part of a push that leads from `I` to `P`.
  abbrev Leads : (W → C → Option (Ran obexd on_progress)) → Type 0
  Leads run = (w : W) (c : C) → I c → P (run w c)

  Leads-bus :
      {A : Type 0} (call : Call W A) (next : A → W → C → Option (Ran obexd on_progress))
      → ((a : A) → Leads (next a))
      → Leads (bus obexd on_progress call next)
  Leads-bus {A = A} call next h w c i = go (call w).0 (call w).1
    where
      go :
          (a : Answer A) (w1 : W)
          → P (elim a [ done x ↦ next x w1 c | failed e ↦ some (err (obex_error e), w1, c) ])
      go (done x) w1 = h x w1 c i
      go (failed e) w1 = fails (obex_error e) w1 c

  run_transfer-keeps :
      (fuel : ℕ) (session source : Str) → Leads (run_transfer obexd on_progress fuel session source)
  unfolding run_transfer
  run_transfer-keeps fuel session source = Leads-bus (obexd.push_proxy session) _ (λ u.
      Leads-bus (obexd.send_file session source) _ (λ sent.
        Leads-bus (obexd.transfer_proxy sent.0) _ (λ u.
          Leads-bus (obexd.properties_proxy sent.0) _ (λ u.
            Leads-bus (obexd.receive_changes sent.0) _ (λ u w c.
              transfer_loop-keeps sent.0 (size_of sent.1) (obexd.instant w) fuel 0 w c)))))

  -- The removal of the session is no matter to `P`.
  module _
      (removed : (session : Str) (o : Option (Ran obexd on_progress))
        → P o
        → P (torn_down obexd on_progress session o)) where
    pub object_push-keeps :
        (fuel : ℕ) (dest source : Str) → Leads (object_push obexd on_progress fuel dest source)
    unfolding object_push
    object_push-keeps fuel dest source = Leads-bus obexd.session_bus _ (λ u.
        Leads-bus obexd.client_proxy _ (λ u.
          Leads-bus (obexd.create_session dest) _ (λ session w c i.
            removed session (run_transfer obexd on_progress fuel session source w c)
              (run_transfer-keeps fuel session source w c i))))
