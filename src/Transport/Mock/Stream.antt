-- ===== src/Transport/Mock/Stream.antt =====
-- The event stream of the mock: numbered without a gap, and in the order of time.
pub mod Kept
pub mod Calls
use pax.Prelude.{ℕ, ◌+◌, ◌≤◌, ◌<◌, ◌≡◌, List, [], ◌∷◌, ◌++◌, arith, refl}
use pax.Core.Time.{Duration}
use pax.Core.Event.{EventOrigin, TransitEvent, TransitEventKind}
use pax.Transport.Mock.{MockBackend, emit}

-- The events are numbered from `n` up to `m`, and their times do not decrease from `lo` to `hi`.
unfoldable pub From : ℕ → ℕ → List TransitEvent → ℕ → ℕ → Type 0
From n lo [] m hi = (n ≡ m) × (lo ≤ hi)
From n lo (e ∷ es) m hi = (e.seq ≡ n) × (lo ≤ e.at.nanos) × From (n + 1) e.at.nanos es m hi

pub From-snoc :
    (n lo : ℕ) (es : List TransitEvent) (m t dt : ℕ) (e : TransitEvent)
    → e.seq ≡ m
    → e.at.nanos ≡ t
    → From n lo es m t
    → From n lo (es ++ e ∷ []) (m + 1) (t + dt)
unfolding From
From-snoc n lo [] m t dt e hs ht (h1, h2) = (omega arith, omega arith, (omega arith, omega arith))
From-snoc n lo (x ∷ es) m t dt e hs ht (h1, h2, h3) =
    (h1, h2, From-snoc (n + 1) x.at.nanos es m t dt e hs ht h3)

pub From-later :
    (n lo : ℕ) (es : List TransitEvent) (m t dt : ℕ) → From n lo es m t → From n lo es m (t + dt)
unfolding From
From-later n lo [] m t dt (h1, h2) = (h1, omega arith)
From-later n lo (x ∷ es) m t dt (h1, h2, h3) = (h1, h2, From-later (n + 1) x.at.nanos es m t dt h3)

unfoldable pub IsStream : MockBackend → Type 0
unfolding From
IsStream b = From 0 0 b.emitted b.state.seq b.state.clock_ns

pub emit-IsStream :
    (o : EventOrigin) (k : TransitEventKind) (dt : Duration) (b : MockBackend)
    → IsStream b
    → IsStream (emit o k dt b)
unfolding emit IsStream
emit-IsStream o k dt b h =
    From-snoc 0 0 b.emitted b.state.seq b.state.clock_ns dt.nanos _ refl refl h
