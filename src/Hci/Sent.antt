-- ===== src/Hci/Sent.antt =====
-- What a command leaves in a record of the calls: each descriptor that is opened is closed again,
-- and the frames go out in order.
use pax.Prelude.{
  ℕ, zero, suc, ◌≡◌, refl, Bool, true, false, Option, none, some, List, [], ◌∷◌, ◌++◌, append_assoc,
  append-nil, ◌∙◌, Option-cases, Bool-cases, inl, inr, sym, ◌⊎◌,
}
use pax.Hci.{IoError, os, io, SetAddressError, Result, ok, err}
use pax.Hci.Wire.{MgmtEvent, command_done, encode_command}
use pax.Hci.Mgmt.{
  Libc, control_addr, bind_control, open_control, write_command, verdict, read_loop, ask,
  with_control, no_reply, too_late, run_command,
}

-- The calls that matter: a descriptor opened, bytes written to it, and its end.
pub data Call : Type 0 where
  opened : ℕ → Call
  wrote : ℕ → List ℕ → Call
  closed : ℕ → Call

abbrev pub opens : Option ℕ → List Call
opens none = []
opens (some fd) = opened fd ∷ []

abbrev pub writes : ℕ → List ℕ → Bool → List Call
writes fd bytes true = wrote fd bytes ∷ []
writes fd bytes false = []

-- A record of the calls in the state of the system, and how each call extends it.
pub record CallLog {S E : Type 0} (libc : Libc S E) : Type 0 where
  pub calls : S → List Call
  pub socket_logs :
      (family protocol : ℕ) (s : S)
      → calls (libc.socket family protocol s).1 ≡ calls s ++ opens (libc.socket family protocol s).0
  pub set_timeout_logs : (fd secs : ℕ) (s : S) → calls (libc.set_timeout fd secs s) ≡ calls s
  pub bind_logs : (fd : ℕ) (s : S) → calls (libc.bind fd control_addr s).1 ≡ calls s
  pub write_logs :
      (fd : ℕ) (bytes : List ℕ) (s : S)
      → calls (libc.write fd bytes s).1 ≡ calls s ++ writes fd bytes (libc.write fd bytes s).0
  pub read_logs : (fd size : ℕ) (s : S) → calls (libc.read fd size s).1 ≡ calls s
  pub close_logs : (fd : ℕ) (s : S) → calls (libc.close fd s) ≡ calls s ++ closed fd ∷ []

-- The calls of one command, and its result: without a socket, with one that does not take the
-- command, and with one that does.
pub data Session {E : Type 0} (frame : List ℕ)
    : Result (SetAddressError E) (Unit {0}) → List Call → Type 0 where
  refused : (e : IoError E) → Session frame (err (io e)) []
  dropped : (fd : ℕ) (e : IoError E) → Session frame (err (io e)) (opened fd ∷ closed fd ∷ [])
  asked :
      (fd : ℕ) (r : Result (SetAddressError E) (Unit {0}))
      → Session frame r (opened fd ∷ wrote fd frame ∷ closed fd ∷ [])

module _ {S E : Type 0} (libc : Libc S E) (log : CallLog libc) where
  read_loop-calls :
      {A : Type 0} (short late : A) (event_done : MgmtEvent → Option A) (rounds fd : ℕ) (s : S)
      → log.calls (read_loop libc short late event_done rounds fd s).1 ≡ log.calls s
  unfolding read_loop
  read_loop-calls short late event_done zero fd s = refl
  read_loop-calls short late event_done (suc rounds) fd s =
      elim (Option-cases (verdict short event_done (libc.read fd 1024 s).0)) [
        | inl e ↦
            rw (read_loop, e)
              (read_loop-calls short late event_done rounds fd (libc.read fd 1024 s).1
                ∙ log.read_logs fd 1024 s)
        | inr (a, e) ↦ rw (read_loop, e) (log.read_logs fd 1024 s)
      ]

  bind_control-calls :
      (fd : ℕ) (s : S)
      → ((bind_control libc fd s).0 ≡ ok fd × log.calls (bind_control libc fd s).1 ≡ log.calls s)
        ⊎ ((e : IoError E) × ((bind_control libc fd s).0 ≡ err e)
            × (log.calls (bind_control libc fd s).1 ≡ log.calls s ++ closed fd ∷ []))
  unfolding bind_control
  bind_control-calls fd s =
      let s1 = (libc.bind fd control_addr s).1 in
      elim (Bool-cases (libc.bind fd control_addr s).0) [
        | inl e ↦ inl (rw (bind_control, e), rw (bind_control, e) (log.bind_logs fd s))
        | inr e ↦ inr (
          os (libc.last_os_error s1),
          rw (bind_control, e),
          rw (bind_control, e) (log.close_logs fd s1 ∙ rw (log.bind_logs fd s)),
        )
      ]

  -- What `open_control` leaves: nothing, a socket that was closed, or an open one.
  pub data Opening (s : S) : Type 0 where
    no_socket :
        (e : IoError E)
        → (open_control libc 2 s).0 ≡ err e
        → log.calls (open_control libc 2 s).1 ≡ log.calls s
        → Opening s
    not_bound :
        (fd : ℕ) (e : IoError E)
        → (open_control libc 2 s).0 ≡ err e
        → log.calls (open_control libc 2 s).1 ≡ log.calls s ++ opened fd ∷ closed fd ∷ []
        → Opening s
    is_open :
        (fd : ℕ)
        → (open_control libc 2 s).0 ≡ ok fd
        → log.calls (open_control libc 2 s).1 ≡ log.calls s ++ opened fd ∷ []
        → Opening s

  open_control-Opening : (s : S) → Opening s
  unfolding open_control
  open_control-Opening s =
      let s1 = (libc.socket 31 1 s).1 in
      let logs = log.socket_logs 31 1 s in
      elim (Option-cases (libc.socket 31 1 s).0) [
        | inl e ↦
            no_socket (os (libc.last_os_error s1)) (rw (open_control, e))
              (rw (open_control, e) (logs ∙ rw (e) (append-nil (log.calls s))))
        | inr (fd, e) ↦
            let s2 = libc.set_timeout fd 2 s1 in
            let before = log.set_timeout_logs fd 2 s1 ∙ logs ∙ rw (e) in
            elim (bind_control-calls fd s2) [
              | inl (good, kept) ↦
                  is_open fd (rw (open_control, e) good) (rw (open_control, e) (kept ∙ before))
              | inr (why, bad, left) ↦ not_bound fd why (rw (open_control, e) bad) (
                  rw (open_control, e)
                    (left
                      ∙ rw (before) (append_assoc (log.calls s) (opened fd ∷ []) (closed fd ∷ []))))
            ]
      ]

  write_command-calls :
      (fd opcode index : ℕ) (params : List ℕ) (s : S)
      → ((write_command libc fd opcode index params s).0 ≡ ok tt
          × log.calls (write_command libc fd opcode index params s).1
            ≡ log.calls s ++ wrote fd (encode_command opcode index params) ∷ [])
        ⊎ ((e : IoError E) × ((write_command libc fd opcode index params s).0 ≡ err e)
            × (log.calls (write_command libc fd opcode index params s).1 ≡ log.calls s))
  unfolding write_command
  write_command-calls fd opcode index params s =
      let bytes = encode_command opcode index params in
      let logs = log.write_logs fd bytes s in
      elim (Bool-cases (libc.write fd bytes s).0) [
        | inl e ↦ inl (rw (write_command, e), rw (write_command, e) (logs ∙ rw (e)))
        | inr e ↦ inr (
          os (libc.last_os_error (libc.write fd bytes s).1),
          rw (write_command, e),
          rw (write_command, e) (logs ∙ rw (e) (append-nil (log.calls s))),
        )
      ]

  -- What the body of a command leaves on an open descriptor.
  ask-calls :
      (opcode index : ℕ) (params : List ℕ) (fd : ℕ) (s : S)
      → let p =
          ask libc
            (λ e. err (io e))
            no_reply
            too_late
            (command_done opcode)
            opcode
            index
            params
            fd
            s in
        ((e : IoError E) × (p.0 ≡ err (io e)) × (log.calls p.1 ≡ log.calls s))
        ⊎ (log.calls p.1 ≡ log.calls s ++ wrote fd (encode_command opcode index params) ∷ [])
  unfolding ask
  ask-calls opcode index params fd s =
      let s1 = (write_command libc fd opcode index params s).1 in
      elim (write_command-calls fd opcode index params s) [
        | inl (good, logs) ↦ inr (
            rw (ask, good)
              (read_loop-calls no_reply too_late (command_done opcode) 16 fd s1 ∙ logs))
        | inr (e, bad, kept) ↦ inl (e, rw (ask, bad), rw (ask, bad) kept)
      ]

  -- The calls that a command adds, which make a session with its result.
  abbrev pub Logs : List ℕ → (S → Result (SetAddressError E) (Unit {0}) × S) → S → Type 0
  Logs frame command s =
      (new : List Call) × (log.calls (command s).1 ≡ log.calls s ++ new)
      × Session frame (command s).0 new

  -- The rest of a command on the open descriptor `fd`, whose calls so far are those `before` and
  -- its opening.
  asked_on :
      (opcode index : ℕ) (params : List ℕ) (fd : ℕ) (s : S) (before : List Call)
      → log.calls s ≡ before ++ opened fd ∷ []
      → let p =
          ask libc
            (λ e. err (io e))
            no_reply
            too_late
            (command_done opcode)
            opcode
            index
            params
            fd
            s in
        (new : List Call) × (log.calls (libc.close fd p.1) ≡ before ++ new)
        × Session (encode_command opcode index params) p.0 new
  asked_on opcode index params fd s before logs =
      let bytes = encode_command opcode index params in
      let p =
        ask libc (λ e. err (io e)) no_reply too_late (command_done opcode) opcode index params fd
          s in
      elim (ask-calls opcode index params fd s) [
        | inl (e, bad, kept) ↦ (
          opened fd ∷ closed fd ∷ [],
          log.close_logs fd p.1
              ∙ rw (kept, logs) (append_assoc before (opened fd ∷ []) (closed fd ∷ [])),
          rw (bad) (dropped fd e),
        )
        | inr sends ↦ (
          opened fd ∷ wrote fd bytes ∷ closed fd ∷ [],
          log.close_logs fd p.1
              ∙ rw (sends, logs, append_assoc before (opened fd ∷ []) (wrote fd bytes ∷ []))
                  (append_assoc before (opened fd ∷ wrote fd bytes ∷ []) (closed fd ∷ [])),
          asked fd p.0,
        )
      ]

  -- A command opens at most one descriptor, writes at most its own frame to it, and closes it on
  -- every return; a command that does not answer with an error of the system has written its frame.
  pub run_command-Session :
      (opcode index : ℕ) (params : List ℕ) (s : S)
      → Logs (encode_command opcode index params) (run_command libc opcode index params) s
  unfolding run_command with_control
  run_command-Session opcode index params s =
      let here = log.calls s in
      elim (open_control-Opening s) [
        | no_socket e bad kept ↦
            rw (run_command, with_control, bad) ([], kept ∙ sym (append-nil here), refused e)
        | not_bound fd e bad logs ↦
            rw (run_command, with_control, bad) (opened fd ∷ closed fd ∷ [], logs, dropped fd e)
        | is_open fd good logs ↦
            rw (run_command, with_control, good)
              (asked_on opcode index params fd (open_control libc 2 s).1 here logs)
      ]
