-- ===== src/Diagnostics/Recorder.antt =====
-- crates/pax-diagnostics/src/recorder.rs: the observer that keeps every event.
use pax.Prelude.{ℕ, Bool, List, [], ◌∷◌, ◌++◌, length, ◌==◌}
use pax.Core.Event.{TransitEvent}

pub record Recorder : Type 0 where
  pub events : List TransitEvent

abbrev pub new_recorder : Recorder
new_recorder = record { events = [] }

unfoldable pub on_event : TransitEvent → Recorder → Recorder
on_event e r = record r { events = r.events ++ e ∷ [] }

abbrev pub recorded : Recorder → ℕ
recorded r = length r.events

abbrev pub is_empty : Recorder → Bool
is_empty r = recorded r == 0

abbrev pub drain : Recorder → List TransitEvent × Recorder
drain r = (r.events, record { events = [] })
