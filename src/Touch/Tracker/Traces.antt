-- ===== src/Touch/Tracker/Traces.antt =====
-- Runs of the tracker: the reports and the ticks of the monitor's clock, in the order in which
-- the goroutine of internal/touch/linux.go handles them.
use mathlib.Core.Path.{ap}
use gtkaskpass_yubikey.Base.{
  ℕ, ◌+◌, ◌≡◌, ◌≤◌, refl, true, false, not, List, [], ◌∷◌, Bytes, All, arith, is_empty,
}
use gtkaskpass_yubikey.Base.Maps.{retain, All-retain, retain-All}
use gtkaskpass_yubikey.Touch.Descriptor.{Layout}
use gtkaskpass_yubikey.Touch.Tracker.{
  Tracker, idle, active, stale_after, report, expire, before_deadline,
}
use gtkaskpass_yubikey.Touch.Tracker.Pending.{
  IsChannel, IsTracker, IsTracker-later, report-IsTracker, expire-IsTracker,
}

-- What happens to one device's tracker, each event at its time.
pub data Event : Type 0 where
  arrives : Layout → Bytes → Event
  ticks : Event

abbrev pub handle : Event → ℕ → Tracker → Tracker
handle (arrives layout text) now t = report t layout text now
handle ticks now t = expire t now

abbrev pub run : List (ℕ × Event) → Tracker → Tracker
run [] t = t
run ((now, event) ∷ rest) t = run rest (handle event now t)

-- The times do not decrease from `first`, and none is later than `last`.
abbrev pub InOrder : ℕ → ℕ → List (ℕ × Event) → Type 0
InOrder first last [] = first ≤ last
InOrder first last ((now, event) ∷ rest) = (first ≤ now) × InOrder now last rest

handle-IsTracker :
    (event : Event) (now : ℕ) (t : Tracker) → IsTracker t now → IsTracker (handle event now t) now
handle-IsTracker (arrives layout text) now t v = report-IsTracker t layout text now v
handle-IsTracker ticks now t v = expire-IsTracker t now v

pub run-IsTracker :
    (events : List (ℕ × Event)) (first last : ℕ) (t : Tracker)
    → InOrder first last events
    → IsTracker t first
    → IsTracker (run events t) last
run-IsTracker [] first last t h v = IsTracker-later t first last h v
run-IsTracker ((now, event) ∷ rest) first last t h v =
    run-IsTracker rest now last (handle event now t) h.1
      (handle-IsTracker event now t (IsTracker-later t first now h.0 v))

idle-IsTracker : (now : ℕ) → IsTracker idle now
idle-IsTracker now = record { cap = omega arith; distinct = tt; channels = tt }

-- The channels of every run from an idle tracker, over events in the order of their times, are at
-- most 32, all different, none of them 0 or the broadcast channel, and none waits for longer than
-- three seconds after the last event.
pub history-IsTracker :
    (events : List (ℕ × Event)) (last : ℕ)
    → InOrder 0 last events
    → IsTracker (run events idle) last
history-IsTracker events last h = run-IsTracker events 0 last idle h (idle-IsTracker 0)

none_left :
    (pending : List (ℕ × ℕ)) (now later : ℕ)
    → now + stale_after ≤ later
    → All (IsChannel now) pending
    → All (λ p. before_deadline later p.0 p.1 ≡ true) pending
    → is_empty pending ≡ true
none_left [] now later h v a = refl
none_left ((cid, deadline) ∷ pending) now later h v a = ground (arith, h, v.0.2, a.0)

-- Whatever reports came, in the order of their times, a tick that comes three seconds after them
-- or later leaves the device not waiting for a touch.
pub active-expire :
    (events : List (ℕ × Event)) (last later : ℕ)
    → InOrder 0 last events
    → last + stale_after ≤ later
    → active (expire (run events idle) later) ≡ false
unfolding expire
active-expire events last later ordered h =
    let t = run events idle in
    let v = history-IsTracker events last ordered in
    ap not (
      none_left (retain (before_deadline later) t.pending) last later h
        (All-retain (IsChannel last) (before_deadline later) t.pending v.channels)
        (retain-All (before_deadline later) t.pending))
