-- ===== src/Transport/Transfer.antt =====
-- crates/pax-transport/src/transfer.rs: the object to push and the receipt.
use pax.Prelude.{ℕ, Option, none, some, List, length}
use pax.Str.{Str}
use pax.Core.Time.{Duration}

pub record OutboundFile : Type 0 where
  pub name : Str
  pub mime_type : Option Str
  pub bytes : List ℕ

abbrev pub new_file : Str → List ℕ → OutboundFile
new_file name bytes = record { name = name; mime_type = none; bytes = bytes }

abbrev pub with_mime : OutboundFile → Str → OutboundFile
with_mime f mime = record f { mime_type = some mime }

abbrev pub len : OutboundFile → ℕ
len f = length f.bytes

pub record TransferReceipt : Type 0 where
  pub object_name : Str
  pub bytes : ℕ
  pub chunks : ℕ
  pub duration : Duration
