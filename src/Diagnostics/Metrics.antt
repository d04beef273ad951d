-- ===== src/Diagnostics/Metrics.antt =====
-- crates/pax-diagnostics/src/metrics.rs: the dimensions to split by, and the summary of a set of
-- events. The throughput, a float, is left out.
pub mod Sums
use pax.Prelude.{
  ℕ, ◌+◌, Bool, true, false, Option, none, some, List, [], ◌∷◌, min, max, ltb, if◌then◌else◌,
  is_yes,
}
use pax.Str.{Str, codes, Str-discrete}
use pax.Core.Time.{Duration, Timestamp, zero_duration, saturating_since}
use pax.Core.Spec.{display_context, display_transport}
use pax.Core.Standards.{dotted, display_port_auth}
use pax.Core.Hardware.{model_label}
use pax.Core.Device.{display_id}
use pax.Core.Event.{TransitEvent, payload_bytes, is_failure, label}

pub data SplitBy : Type 0 where
  controller spec transport radio_standard port_auth event_kind peer : SplitBy

unfoldable pub title : SplitBy → Str
title controller = codes "Controller hardware"
title spec = codes "Bluetooth specification"
title transport = codes "Transport"
title radio_standard = codes "IEEE 802.15.x radio standard"
title port_auth = codes "IEEE 802.1X port-auth state"
title event_kind = codes "Event kind"
title peer = codes "Peer device"

unfoldable pub key : SplitBy → TransitEvent → Str
unfolding model_label display_context display_transport dotted display_port_auth label display_id
key controller e = model_label e.origin.local
key spec e = display_context e.origin.spec
key transport e = display_transport e.origin.spec.transport
key radio_standard e = dotted e.origin.standards.radio_standard
key port_auth e = display_port_auth e.origin.standards.port_auth
key event_kind e = label e.kind
key peer e = display_id e.origin.peer

pub record Metrics : Type 0 where
  pub events : ℕ
  pub bytes : ℕ
  pub failures : ℕ
  pub warnings : ℕ
  pub first_at : Option Timestamp
  pub last_at : Option Timestamp

abbrev pub default_metrics : Metrics
default_metrics = record {
  events = 0;
  bytes = 0;
  failures = 0;
  warnings = 0;
  first_at = none;
  last_at = none;
}

abbrev pub earlier : Option Timestamp → Timestamp → Timestamp
earlier none t = t
earlier (some u) t = record { nanos = min u.nanos t.nanos }

abbrev pub later : Option Timestamp → Timestamp → Timestamp
later none t = t
later (some u) t = record { nanos = max u.nanos t.nanos }

-- `event.kind.label() == "warning"`.
unfoldable pub is_warning : TransitEvent → Bool
is_warning e = is_yes (Str-discrete (label e.kind) (codes "warning"))

unfoldable pub record_event : Metrics → TransitEvent → Metrics
unfolding payload_bytes is_failure
record_event m e = record {
  events = m.events + 1;
  bytes = m.bytes + payload_bytes e.kind;
  failures = if is_failure e.kind then m.failures + 1 else m.failures;
  warnings = if is_warning e then m.warnings + 1 else m.warnings;
  first_at = some (earlier m.first_at e.at);
  last_at = some (later m.last_at e.at);
}

-- The loop of `from_events`.
unfoldable pub record_all : Metrics → List TransitEvent → Metrics
record_all m [] = m
record_all m (e ∷ es) = record_all (record_event m e) es

unfoldable pub from_events : List TransitEvent → Metrics
unfolding record_all
from_events es = record_all default_metrics es

abbrev pub span_between : Option Timestamp → Option Timestamp → Duration
span_between (some a) (some b) = saturating_since b a
span_between _ _ = zero_duration

unfoldable pub span : Metrics → Duration
span m = span_between m.first_at m.last_at

unfoldable pub has_failures : Metrics → Bool
has_failures m = ltb 0 m.failures
