-- ===== src/Hci/Tests.antt =====
-- The commands against a kernel that has its answers ready.
use pax.Prelude.{
  ℕ, ◌≡◌, ◌∷◌, refl, true, false, Option, none, some, List, [], ◌++◌, replicate, arith,
}
use pax.Hci.{err, command}
use pax.Hci.Wire.{encode_command, parse_event, command_done, op_set_public_address, bdaddr_le}
use pax.Hci.Mgmt.{
  Libc, verdict, read_loop, with_control, ask, open_control, bind_control, write_command,
  run_command, spoof_public_address, read_controller_info, read_inner,
}
use pax.Hci.Framing.{reply, parse_event-encode_command}
use pax.Hci.Reads.{run_command-replied}
use pax.Hci.Sent.{Call, CallLog, Logs, opened, wrote, closed, run_command-Session}
use pax.Hci.Spoof.{Spoofing, frame_power, frame_address, spoof_public_address-Spoofing}

-- The calls so far, and the reads to come.
abbrev Kernel : Type 0
Kernel = List Call × List (List ℕ)

abbrev next_read : Kernel → Option (List ℕ) × Kernel
next_read (log, []) = (none, (log, []))
next_read (log, bytes ∷ more) = (some bytes, (log, more))

abbrev kernel : Libc Kernel ℕ
kernel = record {
  socket = λ family protocol k. (some 3, (k.0 ++ opened 3 ∷ [], k.1));
  set_timeout = λ fd secs k. k;
  bind = λ fd addr k. (true, k);
  write = λ fd bytes k. (true, (k.0 ++ wrote fd bytes ∷ [], k.1));
  read = λ fd size k. next_read k;
  close = λ fd k. (k.0 ++ closed fd ∷ [], k.1);
  last_os_error = λ k. 1;
}

next_read-calls : (k : Kernel) → (next_read k).1.0 ≡ k.0
next_read-calls (log, []) = refl
next_read-calls (log, bytes ∷ more) = refl

abbrev kernel_log : CallLog kernel
kernel_log = record {
  calls = λ k. k.0;
  socket_logs = λ family protocol k. refl;
  set_timeout_logs = λ fd secs k. refl;
  bind_logs = λ fd k. refl;
  write_logs = λ fd bytes k. refl;
  read_logs = λ fd size k. next_read-calls k;
  close_logs = λ fd k. refl;
}

-- An event for another opcode, and the answer to a change of the address: rejected.
abbrev noise : List ℕ
noise = 1 ∷ 0 ∷ 0 ∷ 0 ∷ 3 ∷ 0 ∷ 5 ∷ 0 ∷ 0 ∷ []

abbrev busy : Kernel
busy = ([], noise ∷ (encode_command 2 0 (reply 0x39 0x0B []) ++ []) ∷ [])

abbrev address : List ℕ
address = 0x1E ∷ 0x03 ∷ 0xE0 ∷ 0xD2 ∷ 0x10 ∷ 0xCB ∷ []

set_public_address_framing :
    encode_command op_set_public_address 0 (bdaddr_le address)
    ≡ 0x39 ∷ 0x00 ∷ 0x00 ∷ 0x00 ∷ 0x06 ∷ 0x00 ∷ 0xCB ∷ 0x10 ∷ 0xD2 ∷ 0xE0 ∷ 0x03 ∷ 0x1E ∷ []
unfolding encode_command bdaddr_le
set_public_address_framing = refl

read_controller_info_run :
    (read_controller_info kernel 0
      ([], (1 ∷ 0 ∷ 0 ∷ 0 ∷ 12 ∷ 0 ∷ 4 ∷ 0 ∷ 0 ∷ 1 ∷ 2 ∷ 3 ∷ 4 ∷ 5 ∷ 6 ∷ 9 ∷ 2 ∷ 0 ∷ []) ∷ [])).0
    ≡ some (record { manufacturer = 2; hci_version = 9 })
unfolding read_controller_info read_inner with_control ask read_loop verdict open_control
    bind_control write_command
read_controller_info_run = refl

parse_event-encode_command_example :
    parse_event (encode_command 2 0 (0x39 ∷ 0 ∷ 0x0B ∷ []) ++ 7 ∷ [])
    ≡ some (record { event_code = 2; params = 0x39 ∷ 0 ∷ 0x0B ∷ [] })
parse_event-encode_command_example =
    parse_event-encode_command 2 0 (0x39 ∷ 0 ∷ 0x0B ∷ []) (7 ∷ []) (omega arith) (omega arith)

run_command-replied_example : (run_command kernel 0x39 0 address busy).0 ≡ err (command 0x0B)
unfolding open_control bind_control write_command verdict command_done
run_command-replied_example =
    run_command-replied kernel 3 0x39 0 address busy (some noise ∷ []) (replicate 14 none) 2 0 0x0B
      [] [] refl refl refl (refl, tt) refl (omega arith) (omega arith) (omega arith)

run_command-Session_example :
    Logs kernel kernel_log (encode_command 0x39 0 address) (run_command kernel 0x39 0 address) busy
run_command-Session_example = run_command-Session kernel kernel_log 0x39 0 address busy

spoof_public_address-Spoofing_example :
    (new : List Call) × ((spoof_public_address kernel 0 address busy).1.0 ≡ new)
    × Spoofing
        (frame_power 0 false)
        (frame_address 0 address)
        (frame_power 0 true)
        (spoof_public_address kernel 0 address busy).0
        new
spoof_public_address-Spoofing_example =
    spoof_public_address-Spoofing kernel kernel_log 0 address busy
