-- ===== src/Touch/Monitor/Rounds.antt =====
-- The polling of the readers and the loop in `Run` of internal/touch/linux.go.
use gtkaskpass_yubikey.Base.{
  ℕ, zero, suc, ◌+◌, Bool, true, false, not, ◌&&◌, ◌||◌, Option, none, some, List, [], ◌∷◌, Bytes,
  codes, leb, if◌then◌else◌,
}
use gtkaskpass_yubikey.Touch.Tracker.{Tracker, active, report, expire}
use gtkaskpass_yubikey.Touch.Monitor.{
  Monitor, Poll, Read, Reader, Scan, diagnose, find, input, note, over, put, release, remove, retry,
  start, touched,
}
use gtkaskpass_yubikey.Touch.Monitor.Scans.{rescan}

-- The reader's tracker is new, and the sink is told if that changes whether the device waits.
unfoldable pub settle : Bytes → Reader → Tracker → Monitor → Monitor
settle path r tracker m =
    let r' : Reader = record r { tracker = tracker; is_active = active tracker } in
    let m' = put path r' m in
    if active tracker && r.is_active || not (active tracker) && not r.is_active
    then m'
    else note (touched r.device (active tracker)) m'

abbrev pub tracked : Bytes → (Reader → Tracker) → Option Reader → Monitor → Monitor
tracked path f none m = m
tracked path f (some r) m = settle path r (f r) m

-- `r.tracker.Report(...)` or `r.tracker.Expire(...)`, and then the test of `r.active`
abbrev pub track : Bytes → (Reader → Tracker) → Monitor → Monitor
track path f m = tracked path f (find path m) m

abbrev pub max_burst : ℕ
max_burst = 64

-- The loop over the reports that are there
unfoldable pub read_burst : ℕ → Bytes → List Read → Monitor → Monitor
read_burst zero path reads m = m
read_burst (suc n) path [] m = m
read_burst (suc n) path (retry ∷ reads) m = m
read_burst (suc n) path (over ∷ reads) m = remove path m
read_burst (suc n) path (input text now ∷ reads) m =
    read_burst n path reads (track path (λ r. report r.tracker r.layout text now) m)

-- The body of the loop over the readers. A reader that is removed does not expire.
unfoldable pub poll_reader : Poll → Bytes → Monitor → Monitor
poll_reader p path m =
    if p.is_gone path
    then remove path m
    else let m' = if p.is_readable path then read_burst max_burst path (p.reads path) m else m in
      track path (λ r. expire r.tracker (p.time path)) m'

unfoldable pub poll_readers : Poll → List (Bytes × Reader) → Monitor → Monitor
poll_readers p [] m = m
poll_readers p ((path, r) ∷ readers) m = poll_readers p readers (poll_reader p path m)

unfoldable pub poll : Poll → Monitor → Monitor
poll p m =
    let m' =
      if p.fails
      then record (diagnose (codes "touch monitor: HID polling failed") m) { covered = false }
      else m in
    poll_readers p m.readers m'

-- What one round of `Run` gets from the system.
pub record Pass : Type 0 where
  pub now : ℕ
  pub scan : Scan
  pub polled : Poll

abbrev pub is_due : ℕ → Option ℕ → Bool
is_due now none = true
is_due now (some t) = leb t now

abbrev pub second : ℕ
second = 1_000_000_000

-- The body of `Run`
unfoldable pub pass : Pass → Monitor → Monitor
pass p m = poll p.polled (
    if is_due p.now m.next_scan
    then rescan p.scan (record m { next_scan = some (p.now + second) })
    else m)

unfoldable pub passes : List Pass → Monitor → Monitor
passes [] m = m
passes (p ∷ ps) m = passes ps (pass p m)

abbrev pub release_all : List (Bytes × Reader) → Monitor → Monitor
release_all [] m = m
release_all ((path, r) ∷ readers) m = release_all readers (release r m)

-- What `Run` defers
unfoldable pub close : Monitor → Monitor
close m = release_all m.readers (record m { covered = false })

-- `Run`: rounds until the context is cancelled.
unfoldable pub run : List Pass → Monitor
run ps = close (passes ps start)
