-- ===== src/Transport/Bluez/Push.antt =====
-- `push_file` over BlueZ: the object is staged in a temporary file, pushed by `obexd`, and its
-- progress becomes events.
pub mod Payload
use pax.Prelude.{
  ℕ, ◌+◌, ◌-◌, max, Bool, true, false, Option, none, some, List, [], ◌∷◌, ◌++◌, ltb, ◌==◌, ◌||◌,
  if◌then◌else◌,
}
use pax.Str.{Str, codes, decimal}
use pax.Core.Address
use pax.Core.Time.{Timestamp, saturating_since}
use pax.Core.Device.{DeviceId}
use pax.Core.Event.{
  TransitEventKind, transfer_started, transfer_progress, transfer_completed, data_chunk, outbound,
  error,
}
use pax.Transport.Error.{TransportError, backend, display, Result, ok, err, Op}
use pax.Transport.Backend.{Connection}
use pax.Transport.Transfer.{OutboundFile, TransferReceipt, len}
use pax.Transport.Radio.{Answer, done, failed, Call, Radio, moved, emit}
use pax.Transport.Bluez.{Bluer}
use pax.Transport.Bluez.Obex.{Obexd, object_push}

-- The file system in a state `W` of the host, and what is used of the standard library's texts:
-- the characters of a UTF-8 text (each as its bytes) and whether one is alphanumeric.
pub record Files (W : Type 0) : Type 0 where
  pub temp_dir : W → Str
  pub process_id : W → ℕ
  pub create : Str → Call W (Unit {0})
  pub write_all : Str → List ℕ → Call W (Unit {0})
  pub flush : Str → Call W (Unit {0})
  pub remove_file : Str → W → W
  pub join_path : Str → Str → Str
  pub to_string_lossy : Str → Str
  pub chars : Str → List Str
  pub is_alphanumeric : Str → Bool

module _ {W : Type 0} (files : Files W) where
  abbrev pub kept_char : Str → Bool
  kept_char (c ∷ []) = c == b'.' || c == b'-' || c == b'_' || files.is_alphanumeric (c ∷ [])
  kept_char c = files.is_alphanumeric c

  unfoldable pub safe_chars : List Str → Str
  safe_chars [] = []
  safe_chars (c ∷ cs) = (if kept_char c then c else codes "_") ++ safe_chars cs

  -- A call of the file system in front of the rest.
  abbrev pub io : {A : Type 0} → Call W (Unit {0}) → Call W A → Call W A
  io call next w = let (a, w1) = call w in elim a [ done u ↦ next w1 | failed e ↦ (failed e, w1) ]

  unfoldable pub stage_temp_file : OutboundFile → Call W Str
  unfolding safe_chars decimal
  stage_temp_file file w =
      let name =
        codes "pax-obex-"
        ++ decimal (files.process_id w)
        ++ codes "-"
        ++ safe_chars (files.chars file.name) in
      let path = files.join_path (files.temp_dir w) name in
      io (files.create path)
        (io (files.write_all path file.bytes) (io (files.flush path) (λ w. (done path, w)))) w

-- What the progress closure changes: the backend's events, and its two variables.
pub record Pushing (W : Type 0) : Type 0 where
  pub radio : Radio W
  pub last : ℕ
  pub chunks : ℕ

module _ {W D E : Type 0} (bluer : Bluer W D E) where
  -- The closure that is handed to `object_push`; `w` is the host when it is called.
  unfoldable pub on_progress : DeviceId → ℕ → ℕ → W → Pushing W → Pushing W
  unfolding emit
  on_progress peer total transferred w p =
      let delta = transferred - p.last in
      let here = moved p.radio w in
      let told = emit bluer.now peer (data_chunk outbound delta) here in
      record {
        radio =
            emit bluer.now peer (transfer_progress transferred total)
              (if ltb 0 delta then told else here);
        last = transferred;
        chunks = if ltb 0 delta then p.chunks + 1 else p.chunks;
      }

  -- The rest of `push_file`, behind the push that began at `start`.
  unfoldable pub settle :
      DeviceId → Str → Timestamp → Result ℕ → ℕ → Radio W → Result TransferReceipt × Radio W
  unfolding emit
  settle peer name start (ok bytes) chunks r =
      let duration = saturating_since (bluer.now r.world) start in
      (
        ok (record {
          object_name = name;
          bytes = bytes;
          chunks = max chunks 1;
          duration = duration;
        }),
        emit bluer.now peer (transfer_completed bytes duration) r,
      )
  settle peer name start (err e) chunks r = (err e, emit bluer.now peer (error (display e)) r)

  module _ (files : Files W) (obexd : Obexd W) (fuel : ℕ) (conn : Connection)
      (file : OutboundFile) where
    -- The end of a push: the events of its outcome, and the staged file is removed.
    unfoldable pub finish :
        Str → Timestamp → Result ℕ × W × Pushing W → Result TransferReceipt × Radio W
    unfolding settle
    finish path start (result, w, p) =
        let (receipt, r) = settle conn.peer file.name start result p.chunks (moved p.radio w) in
        (receipt, moved r (files.remove_file path r.world))

    unfoldable pub push_staged :
        Str → Timestamp → Radio W → Option (Result TransferReceipt × Radio W)
    unfolding finish on_progress emit object_push Address.display
    push_staged path start r =
        let total = len file in
        let started = emit bluer.now conn.peer (transfer_started file.name total) r in
        elim (object_push obexd (on_progress conn.peer total) fuel (Address.display conn.peer.addr)
          (files.to_string_lossy path) r.world (record { radio = started; last = 0; chunks = 0 })) [
            | none ↦ none
            | some p ↦ some (finish path start p)
          ]

    unfoldable pub push_file : Radio W → Option (Result TransferReceipt × Radio W)
    unfolding push_staged stage_temp_file
    push_file r =
        let start = bluer.now r.world in
        let (staged, w) = stage_temp_file files file r.world in
        elim staged [
          | failed e ↦ some (err (backend (codes "staging temp file: " ++ e)), moved r w)
          | done path ↦ push_staged path start (moved r w)
        ]
