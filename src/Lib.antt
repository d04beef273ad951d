-- ===== src/Lib.antt =====
-- Verification of pax, a Bluetooth toolkit in Rust (crates/).
--
-- The program. `pax-core` has the value types: addresses, device ids, releases of the
-- specification, 802 standards, hardware, and the transit events that every operation emits.
-- `pax-transport` has the interface of a backend and its implementations, of which the in-memory
-- mock is the reference one. `pax-pairing` and `pax-transfer` are workflows over any backend:
-- pairing with retries and in batches, uploads with retries. `pax-diagnostics` reads the events:
-- it sorts them, sums them up, splits them along a dimension and flags anomalies.
--
-- The files.
--   Prelude, Str: shared helpers; a text is the list of its UTF-8 bytes.
--   Core: crates/pax-core/src. Core/Address, Core/Uuid, Core/Spec, Core/Device, Core/Peer and
--     Core/Event stand for the source files of these names; so do the others.
--   Transport: crates/pax-transport/src/{error,pairing,transfer,backend,mock}.rs. The trait
--     `Backend` is a record of operations on a state; an operation `Op S A` takes the state to a
--     result and the state that it leaves. Transport/Mock is `MockBackend`: the mutexes' contents
--     are the field `state`, the observer is the list `emitted` of the events it was given.
--     Transport/Mock/Instance makes the mock a `Backend`. Transport/Retry says what a bounded
--     retry of an operation does.
--   Transport/Obex: crates/pax-transport/src/android/obex_opp.rs, the OBEX Object Push client over
--     a stream given as a record of `write_all`, `flush` and `read_exact`.
--   Transport/Radio, Transport/Btleplug: crates/pax-transport/src/btleplug.rs, and what it shares
--     with bluez.rs: the backend's fields around the state `world` of the host, the emission of
--     events, and a device's way through a scan.
--   Transport/Bluez: crates/pax-transport/src/bluez.rs, and Transport/Bluez/{Obex,Wpa,PortAuth} for
--     crates/pax-transport/src/bluez/{obex,wpa,port_auth}.rs. The agent has a callback for each kind
--     of prompt; the calls of BlueZ are handed them while it is registered.
--   Transport/Android: crates/pax-transport/src/android.rs, over the calls of the JNI.
--   Hci: crates/pax-hci/src/lib.rs, the commands on the `mgmt` socket: Hci/Wire has the bytes,
--     Hci/Mgmt the calls of libc around them.
--   Transport/Ios: crates/pax-transport/src/ios.rs, the delegation to btleplug.
--   Cli: crates/pax-cli/src/main.rs; a command is a sequence of steps on the backend's state and the
--     lines that are printed.
--   Pairing: crates/pax-pairing/src (`pair_device`, `pair_devices`, `pair_discovered`, the
--     agents). An agent is a function of the request and of a world that it may change.
--   Transfer: crates/pax-transfer/src (`upload_file`, `upload_files`, `upload_bytes` and the
--     progress observer).
--   Diagnostics: crates/pax-diagnostics/src (recorder, metrics, analyzer).
-- The workflows take the backend as a parameter; the theorems about them hold for every backend
-- and are applied to the mock. `async` code is modelled as the sequence of its steps, since no
-- workflow but `buffer_unordered` interleaves them, and that function is a parameter.
--
-- Bounds and fuel. A `HashMap` is an association list with one entry for a key, a `BTreeMap` a
-- list sorted by its keys, a `HashSet` a list without repetitions. The counters and the clock
-- are natural numbers, since a run stays far below 2^64 events and 2^128 nanoseconds; the number
-- of attempts is saturated at 2^32 - 1 as in the source. `slice::chunks` runs on the length of
-- the slice as fuel, which is enough since each round takes at least one byte. The retry loops
-- are recursion on the rounds left, so that they always end. The loop of `put_file` has a round
-- more than the object has bytes, which is enough since each sends at least one.
--
-- A read loop of the HCI crate has sixteen rounds in the source. The loops over BlueZ run until a
-- deadline: they have fuel, and `none` is a run that is out of it. A push has a round for each
-- nanosecond of its deadline, which is enough when the clock goes on whenever the status is asked
-- for; a pairing window has a round for each quarter of a second. The discovery over BlueZ has one
-- for each event of its stream. The loop over Android's bonded devices needs a round more than the
-- iterator has devices, which is enough since each takes one of them.
--
-- Outside code. The crates `libc`, `bluer`, `btleplug` and `zbus` and the file system are records
-- of calls (`Libc`, `Bluer`, `Agents`, `Inquiry`, `Central`, `Obexd`, `Supplicant`, `Manager`,
-- `Jni`, `Files`) on a state of the host; a call gives an answer or an error, whose text is all that
-- the code uses of it. What a theorem assumes of them is among its hypotheses.
--
-- Not modelled: the push of the Android backend over an RFCOMM socket, with its JNI stream; the
-- parser of the command line, which clap generates, and the dispatch of the commands; the Java
-- companion app; the tasks that repeat a refresh of the port-auth states.
-- The analyzer's `sort_by_key` stands as an insertion sort, stable as the one of Rust's library;
-- `to_lowercase` and `encode_utf16` of that library and `buffer_unordered` of the futures
-- crate are parameters.
pub mod Prelude
pub mod Str
pub mod Core
pub mod Transport
pub mod Pairing
pub mod Transfer
pub mod Diagnostics
pub mod Hci
pub mod Cli
