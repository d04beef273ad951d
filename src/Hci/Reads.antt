-- ===== src/Hci/Reads.antt =====
-- What a command answers, as a function of the reads of its descriptor.
use pax.Prelude.{
  ℕ, zero, suc, ◌+◌, ◌^◌, ◌<◌, ◌≡◌, refl, true, ◌||◌, Option, none, some, List, [], ◌∷◌, ◌++◌,
  length, ◌==◌, All, Option-cases, inl, inr, ==_iff, ◌∙◌,
}
use pax.Hci.{SetAddressError, Result, ok}
use pax.Hci.Wire.{MgmtEvent, command_done, encode_command, ev_cmd_complete, ev_cmd_status}
use pax.Hci.Mgmt.{
  Libc, open_control, write_command, verdict, read_loop, ask, with_control, no_reply, too_late,
  run_command,
}
use pax.Hci.Framing.{verdict-reply, reply, of_status}

-- The first answer that a list gives.
abbrev pub find_map : {A B : Type 0} → (A → Option B) → List A → Option B
find_map f [] = none
find_map f (x ∷ xs) = elim (f x) [ some b ↦ some b | none ↦ find_map f xs ]

abbrev pub unwrap_or : {A : Type 0} → Option A → A → A
unwrap_or none d = d
unwrap_or (some a) d = a

pub find_map-append :
    {A B : Type 0} (f : A → Option B) (xs : List A) (y : A) (zs : List A) (b : B)
    → All (λ x. f x ≡ none) xs
    → f y ≡ some b
    → find_map f (xs ++ y ∷ zs) ≡ some b
find_map-append f [] y zs b none_before hit = rw (hit)
find_map-append f (x ∷ xs) y zs b (skip, none_before) hit =
    rw (skip) (find_map-append f xs y zs b none_before hit)

module _ {S E : Type 0} (libc : Libc S E) (fd : ℕ) where
  -- The next reads of a descriptor.
  abbrev pub reads : ℕ → S → List (Option (List ℕ))
  reads zero s = []
  reads (suc k) s = (libc.read fd 1024 s).0 ∷ reads k (libc.read fd 1024 s).1

  pub read_loop-reads :
      {A : Type 0} (short late : A) (event_done : MgmtEvent → Option A) (rounds : ℕ) (s : S)
      → (read_loop libc short late event_done rounds fd s).0
        ≡ unwrap_or (find_map (verdict short event_done) (reads rounds s)) late
  unfolding read_loop
  read_loop-reads short late event_done zero s = refl
  read_loop-reads short late event_done (suc rounds) s =
      elim (Option-cases (verdict short event_done (libc.read fd 1024 s).0)) [
        | inl e ↦
            rw (read_loop, reads, find_map, e)
              (read_loop-reads short late event_done rounds (libc.read fd 1024 s).1)
        | inr (a, e) ↦ rw (read_loop, reads, find_map, e)
      ]

  -- A command whose socket opens and whose bytes are written answers with the first of the next
  -- sixteen reads that ends the wait, and with a timeout when none does.
  pub run_command-reads :
      (opcode index : ℕ) (params : List ℕ) (s : S)
      → (open_control libc 2 s).0 ≡ ok fd
      → (write_command libc fd opcode index params (open_control libc 2 s).1).0 ≡ ok tt
      → (run_command libc opcode index params s).0
        ≡ unwrap_or
            (find_map
              (verdict no_reply (command_done opcode))
              (reads 16 (write_command libc fd opcode index params (open_control libc 2 s).1).1))
            too_late
  unfolding run_command with_control ask
  run_command-reads opcode index params s opens sends =
      rw (run_command, with_control, ask, opens, sends)
        (read_loop-reads no_reply too_late (command_done opcode) 16
          (write_command libc fd opcode index params (open_control libc 2 s).1).1)

  -- A command whose socket opens and whose bytes are written is answered by the first framed
  -- Command Complete or Command Status for its opcode among the next sixteen reads, when the reads
  -- before it do not end the wait: the result is the status of that reply. Opcode, event code and
  -- length have 16 bits.
  pub run_command-replied :
      (opcode index : ℕ) (params : List ℕ) (s : S) (before after : List (Option (List ℕ)))
      (code other status : ℕ) (rest tail : List ℕ)
      → (open_control libc 2 s).0 ≡ ok fd
      → (write_command libc fd opcode index params (open_control libc 2 s).1).0 ≡ ok tt
      → reads 16 (write_command libc fd opcode index params (open_control libc 2 s).1).1
        ≡ before ++ some (encode_command code other (reply opcode status rest) ++ tail) ∷ after
      → All
          (λ got.
            verdict {A = Result (SetAddressError E) (Unit {0})} no_reply (command_done opcode) got
            ≡ none)
          before
      → (code == ev_cmd_complete || code == ev_cmd_status) ≡ true
      → code < 2 ^ 16
      → opcode < 2 ^ 16
      → 3 + length rest < 2 ^ 16
      → (run_command libc opcode index params s).0 ≡ of_status status
  run_command-replied opcode index params s before after code other status rest tail opens sends
        arrives skipped terminal hc ho hr =
      let ends = verdict-reply no_reply opcode code other opcode status rest tail hc ho hr in
      let own = (==_iff opcode opcode).1 refl in
      run_command-reads opcode index params s opens sends
      ∙ rw (
        arrives,
        find_map-append (verdict no_reply (command_done opcode)) before
            (some (encode_command code other (reply opcode status rest) ++ tail)) after
            (of_status status) skipped (ends ∙ rw (terminal, own)),
      )
