-- ===== src/Transfer/Progress.antt =====
-- crates/pax-transfer/src/progress.rs: the observer that turns events into progress updates. The
-- callback is the list of the updates that it was called with. `fraction`, a float, is left out.
use pax.Prelude.{ℕ, Bool, true, false, List, [], ◌∷◌, ◌++◌}
use pax.Str.{Str}
use pax.Core.Event.{
  TransitEvent, TransitEventKind, transfer_started, transfer_progress, transfer_completed,
}

pub record ProgressUpdate : Type 0 where
  pub object : Str
  pub transferred : ℕ
  pub total : ℕ
  pub done : Bool

pub record ProgressObserver : Type 0 where
  pub object : Str
  pub total : ℕ
  pub updates : List ProgressUpdate

abbrev pub new_observer : ProgressObserver
new_observer = record { object = []; total = 0; updates = [] }

abbrev report : ProgressUpdate → ProgressObserver → ProgressObserver
report u p = record p { updates = p.updates ++ u ∷ [] }

unfoldable pub on_kind : TransitEventKind → ProgressObserver → ProgressObserver
on_kind (transfer_started name total_bytes) p =
    report (record { object = name; transferred = 0; total = total_bytes; done = false })
      (record p { object = name; total = total_bytes })
on_kind (transfer_progress transferred total) p =
    report (record { object = p.object; transferred = transferred; total = total; done = false }) p
on_kind (transfer_completed bytes duration) p =
    report (record { object = p.object; transferred = bytes; total = bytes; done = true }) p
on_kind _ p = p

unfoldable pub on_event : TransitEvent → ProgressObserver → ProgressObserver
unfolding on_kind
on_event e p = on_kind e.kind p
