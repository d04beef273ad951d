-- ===== src/Core/Observe.antt =====
-- crates/pax-core/src/observe.rs: observers of the events, over the state `S` that they act on.
use pax.Prelude.{List, [], ◌∷◌}
use pax.Core.Event.{TransitEvent}

-- The trait: what `on_event` does.
abbrev pub Observer : Type 0 → Type 0
Observer S = TransitEvent → S → S

-- `NoopObserver`.
abbrev pub noop_observer : {S : Type 0} → Observer S
noop_observer event s = s

-- `FanOut`: the observers are told in turn.
unfoldable pub fan_out : {S : Type 0} → List (Observer S) → Observer S
fan_out [] event s = s
fan_out (o ∷ os) event s = fan_out os event (o event s)
