-- ===== src/Transfer/Upload.antt =====
-- crates/pax-transfer/src/upload.rs: connect, push with retries, disconnect.
pub mod Runs
use pax.Prelude.{
  ℕ, zero, suc, ◌+◌, ◌-◌, ◌^◌, Bool, true, false, Option, none, some, List, [], ◌∷◌, ◌++◌, min,
  if◌then◌else◌,
}
use pax.Str.{Str, codes}
use pax.Core.Device.{DeviceId}
use pax.Transport.Error.{TransportError, transfer_failed, Result, ok, err, Op, ◌>>=◌}
use pax.Transport.Backend.{Backend, Connection}
use pax.Transport.Transfer.{OutboundFile, new_file, TransferReceipt}

pub record UploadOptions : Type 0 where
  pub retries : ℕ
  pub disconnect_after : Bool

abbrev pub default_options : UploadOptions
default_options = record { retries = 1; disconnect_after = true }

-- The aborts in mid-flight, which are retried.
unfoldable pub is_transient : TransportError → Bool
is_transient (transfer_failed n reason) = true
is_transient _ = false

abbrev pub or_no_attempts : Option TransportError → TransportError
or_no_attempts none = transfer_failed 0 (codes "no attempts made")
or_no_attempts (some e) = e

-- `retries.saturating_add(1)` of a u32.
abbrev pub max_attempts : ℕ → ℕ
max_attempts retries = min (retries + 1) (2 ^ 32 - 1)

module _ {S A : Type 0} (b : Backend S A) where
  -- `for _ in 0..max_attempts`, with the rounds left.
  unfoldable pub push_loop :
      Connection → OutboundFile → ℕ → Option TransportError → Op S TransferReceipt
  unfolding is_transient
  push_loop conn file zero last_err s = (err (or_no_attempts last_err), s)
  push_loop conn file (suc k) last_err s =
      let (r, s') = b.push_file conn file s in
      elim r [
        | ok receipt ↦ (ok receipt, s')
        | err e ↦ elim (is_transient e) [
          | true ↦ push_loop conn file k (some e) s'
          | false ↦ (err e, s')
        ]
      ]

  unfoldable pub push_with_retries : Connection → OutboundFile → ℕ → Op S TransferReceipt
  unfolding push_loop
  push_with_retries conn file retries = push_loop conn file (max_attempts retries) none

  -- The best-effort disconnect, whose result is dropped.
  abbrev pub hang_up : Bool → Connection → S → S
  hang_up true conn s = (b.disconnect conn s).1
  hang_up false conn s = s

  unfoldable pub upload_file : DeviceId → OutboundFile → UploadOptions → Op S TransferReceipt
  unfolding push_with_retries
  upload_file target file options = do
    conn ← b.connect target
    λ s.
        let (result, s') = push_with_retries conn file options.retries s in
        (result, hang_up options.disconnect_after conn s')

  -- The loop over the files, up to the first that fails.
  unfoldable pub push_all :
      Connection → ℕ → List OutboundFile → List TransferReceipt → Op S (List TransferReceipt)
  unfolding push_with_retries
  push_all conn retries [] receipts s = (ok receipts, s)
  push_all conn retries (file ∷ files) receipts s =
      let (r, s') = push_with_retries conn file retries s in
      elim r [
        | ok receipt ↦ push_all conn retries files (receipts ++ receipt ∷ []) s'
        | err e ↦ (err e, s')
      ]

  unfoldable pub upload_files :
      DeviceId → List OutboundFile → UploadOptions → Op S (List TransferReceipt)
  unfolding push_all
  upload_files target files options = do
    conn ← b.connect target
    λ s.
        let (result, s') = push_all conn options.retries files [] s in
        (result, hang_up options.disconnect_after conn s')

  unfoldable pub upload_bytes : DeviceId → Str → List ℕ → UploadOptions → Op S TransferReceipt
  unfolding upload_file
  upload_bytes target name bytes options = upload_file target (new_file name bytes) options
