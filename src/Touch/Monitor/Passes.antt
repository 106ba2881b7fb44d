-- ===== src/Touch/Monitor/Passes.antt =====
-- Every round of the monitor keeps what it has said of each device true.
use gtkaskpass_yubikey.Base64.{◌>>=◌}
use gtkaskpass_yubikey.Base.{
  ℕ, zero, suc, ◌<◌, ◌≡◌, refl, false, Option, none, some, List, [], ◌∷◌, Bytes, Bytes-discrete,
  is_empty, codes, length, leb, ◌==◌, if◌then◌else◌, if_cases, arith,
}
use gtkaskpass_yubikey.Base.Maps.{lookup, lookup-delete}
use gtkaskpass_yubikey.Service.Popups.{max_devices}
use gtkaskpass_yubikey.Touch.Descriptor.{Layout, Outcome, done, bad, fuel, descriptor}
use gtkaskpass_yubikey.Touch.Tracker.{active, report}
use gtkaskpass_yubikey.Touch.Monitor.{
  Node, Reader, Monitor, Opened, Scan, Read, retry, over, input, Poll, start, find, bounded,
  is_character, usb, is_size, open_reader, with_layout, remove, removed,
}
use gtkaskpass_yubikey.Touch.Monitor.Scans.{
  Counts, want, is_same, opened_at, watch, watch_again, node_path, described, visited, visit,
  visit_all, is_seen, drop_unseen, listed, concluded, rescan,
}
use gtkaskpass_yubikey.Touch.Monitor.Rounds.{
  Pass, track, max_burst, read_burst, poll_reader, poll_readers, poll, pass, passes, is_due,
}
use gtkaskpass_yubikey.Touch.Monitor.Watching.{
  told, IsWatched, Watched, remove-Watched, track-Watched, diagnose-Watched, open-Watched,
}

-- A reader that is opened is under its path, and idle.
abbrev IsFresh : Bytes → Option Reader → Type 0
IsFresh path none = Unit {0}
IsFresh path (some r) =
    (r.device.path ≡ path) × (r.is_active ≡ active r.tracker) × (r.is_active ≡ false)

with_layout-IsFresh :
    (path : Bytes) (st : Node) (name : Option Bytes) (l : Outcome Layout)
    → IsFresh path (with_layout path st name l)
with_layout-IsFresh path st name bad = tt
with_layout-IsFresh path st name fuel = tt
with_layout-IsFresh path st name (done layout) =
    if_cases (IsFresh path) (is_empty layout) (λ e. tt) (λ e. (refl, refl, refl))

bind-IsFresh :
    {A : Type 0} (path : Bytes) (o : Option A) (f : A → Option Reader)
    → ((a : A) → IsFresh path (f a))
    → IsFresh path (o >>= f)
bind-IsFresh path none f h = tt
bind-IsFresh path (some a) f h = h a

open-IsFresh : (path : Bytes) (o : Option Opened) → IsFresh path (open_reader path o)
unfolding open_reader
open-IsFresh path o = bind-IsFresh path o _ λ o. bind-IsFresh path o.stat _ λ st.
    bind-IsFresh path (if is_character st then o.bus else none) _ λ bus.
      bind-IsFresh path (if bus == usb then o.size else none) _ λ size.
        bind-IsFresh path (if is_size size then o.text else none) _
          λ text. with_layout-IsFresh path st o.name (descriptor text)

opened-Watched :
    (path : Bytes) (o : Option Reader) (m : Monitor) (k : Counts)
    → IsFresh path o
    → find path m ≡ none
    → length m.readers < max_devices
    → Watched m
    → Watched (opened_at path o (m, k)).0
opened-Watched path none m k f e fits w = w
opened-Watched path (some r) m k f e fits w = open-Watched m path r e fits (f.0, f.1) f.2 w

watch-Watched :
    (scan : Scan) (path : Bytes) (m : Monitor) (k : Counts)
    → find path m ≡ none
    → Watched m
    → Watched (watch scan path (m, k)).0
unfolding watch
watch-Watched scan path m k e w =
    if_cases (λ (p : Monitor × Counts). Watched p.0) (leb max_devices (length m.readers))
      (λ full. w)
      (λ room.
        opened-Watched path (open_reader path (scan.opens path)) m k
          (open-IsFresh path (scan.opens path)) e (ground arith) w)

removed-none :
    (m : Monitor) (path : Bytes) (o : Option Reader)
    → find path m ≡ o
    → find path (removed path o m) ≡ none
removed-none m path none e = e
removed-none m path (some r) e = ground (arith, lookup-delete Bytes-discrete path path m.readers)

remove-none : (m : Monitor) (path : Bytes) → find path (remove path m) ≡ none
unfolding remove
remove-none m path = removed-none m path (find path m) refl

watch_again-Watched :
    (scan : Scan) (path : Bytes) (o : Option Reader) (m : Monitor) (k : Counts)
    → find path m ≡ o
    → Watched m
    → Watched (watch_again scan path o (m, k)).0
watch_again-Watched scan path none m k e w = watch-Watched scan path m k e w
watch_again-Watched scan path (some r) m k e w =
    if_cases (λ (p : Monitor × Counts). Watched p.0) (is_same (scan.lstat path) r) (λ same. w)
      (λ other.
        watch-Watched scan path (remove path m) k (remove-none m path) (remove-Watched m path w))

described-Watched :
    (scan : Scan) (sys_path : Bytes) (l : Outcome Layout) (m : Monitor) (k : Counts)
    → Watched m
    → Watched (described scan sys_path l (m, k)).0
described-Watched scan sys_path bad m k w = w
described-Watched scan sys_path fuel m k w = w
described-Watched scan sys_path (done layout) m k w =
    let path = node_path sys_path in
    if_cases (λ (p : Monitor × Counts). Watched p.0) (is_empty layout) (λ e. w)
      (λ e. watch_again-Watched scan path (find path m) m (want path k) refl w)

visited-Watched :
    (scan : Scan) (sys_path : Bytes) (o : Option Bytes) (m : Monitor) (k : Counts)
    → Watched m
    → Watched (visited scan sys_path o (m, k)).0
visited-Watched scan sys_path none m k w = w
visited-Watched scan sys_path (some text) m k w =
    described-Watched scan sys_path (descriptor text) m k w

visit-Watched :
    (scan : Scan) (sys_path : Bytes) (mk : Monitor × Counts)
    → Watched mk.0
    → Watched (visit scan sys_path mk).0
unfolding visit
visit-Watched scan sys_path (m, k) w =
    visited-Watched scan sys_path (bounded (scan.contents sys_path)) m k w

visit_all-Watched :
    (scan : Scan) (paths : List Bytes) (mk : Monitor × Counts)
    → Watched mk.0
    → Watched (visit_all scan paths mk).0
unfolding visit_all
visit_all-Watched scan [] mk w = w
visit_all-Watched scan (p ∷ paths) mk w =
    visit_all-Watched scan paths (visit scan p mk) (visit-Watched scan p mk w)

drop_unseen-Watched :
    (seen : List Bytes) (readers : List (Bytes × Reader)) (m : Monitor)
    → Watched m
    → Watched (drop_unseen seen readers m)
unfolding drop_unseen
drop_unseen-Watched seen [] m w = w
drop_unseen-Watched seen ((path, r) ∷ readers) m w =
    if_cases Watched (is_seen seen path) (λ e. drop_unseen-Watched seen readers m w)
      (λ e. drop_unseen-Watched seen readers (remove path m) (remove-Watched m path w))

concluded-Watched : (mk : Monitor × Counts) → Watched mk.0 → Watched (concluded mk)
concluded-Watched (m, k) w =
    let w' = drop_unseen-Watched k.seen m.readers m w in
    diagnose-Watched _ _ (record {
      cap = w'.cap;
      distinct = w'.distinct;
      faithful = w'.faithful;
      told_waits = w'.told_waits;
    })

rescan-Watched : (scan : Scan) (m : Monitor) → Watched m → Watched (rescan scan m)
unfolding rescan
rescan-Watched scan m w = concluded-Watched _ (visit_all-Watched scan (listed scan.paths).0 _ w)

burst-Watched :
    (n : ℕ) (path : Bytes) (reads : List Read) (m : Monitor)
    → Watched m
    → Watched (read_burst n path reads m)
unfolding read_burst
burst-Watched zero path reads m w = w
burst-Watched (suc n) path [] m w = w
burst-Watched (suc n) path (retry ∷ reads) m w = w
burst-Watched (suc n) path (over ∷ reads) m w = remove-Watched m path w
burst-Watched (suc n) path (input text now ∷ reads) m w =
    burst-Watched n path reads (track path (λ r. report r.tracker r.layout text now) m)
      (track-Watched m path (λ r. report r.tracker r.layout text now) w)

poll_reader-Watched :
    (p : Poll) (path : Bytes) (m : Monitor) → Watched m → Watched (poll_reader p path m)
unfolding poll_reader
poll_reader-Watched p path m w =
    if_cases Watched (p.is_gone path) (λ e. remove-Watched m path w)
      (λ e. track-Watched _ path _ (
        if_cases Watched (p.is_readable path) (λ r. burst-Watched max_burst path (p.reads path) m w)
          (λ r. w)))

poll_readers-Watched :
    (p : Poll) (readers : List (Bytes × Reader)) (m : Monitor)
    → Watched m
    → Watched (poll_readers p readers m)
unfolding poll_readers
poll_readers-Watched p [] m w = w
poll_readers-Watched p ((path, r) ∷ readers) m w =
    poll_readers-Watched p readers (poll_reader p path m) (poll_reader-Watched p path m w)

poll-Watched : (p : Poll) (m : Monitor) → Watched m → Watched (poll p m)
unfolding poll
poll-Watched p m w = poll_readers-Watched p m.readers _ (
    if_cases Watched p.fails
      (λ e.
        let d = diagnose-Watched (codes "touch monitor: HID polling failed") m w in
        record {
          cap = d.cap;
          distinct = d.distinct;
          faithful = d.faithful;
          told_waits = d.told_waits;
        })
      (λ e. w))

pass-Watched : (p : Pass) (m : Monitor) → Watched m → Watched (pass p m)
unfolding pass
pass-Watched p m w = poll-Watched p.polled _ (
    if_cases Watched (is_due p.now m.next_scan)
      (λ e. rescan-Watched p.scan _ (record {
        cap = w.cap;
        distinct = w.distinct;
        faithful = w.faithful;
        told_waits = w.told_waits;
      }))
      (λ e. w))

start-Watched : Watched start
unfolding told lookup
start-Watched = record { cap = omega arith; distinct = tt; faithful = tt; told_waits = λ q. refl }

passes_from : (ps : List Pass) (m : Monitor) → Watched m → Watched (passes ps m)
unfolding passes
passes_from [] m w = w
passes_from (p ∷ ps) m w = passes_from ps (pass p m) (pass-Watched p m w)

-- Whatever the system answers, after any number of rounds there are at most 32 readers, one under each
-- path and under the path of its device; each reader's flag is whether its tracker waits; and what was
-- said last of the device at a path, that it waits or not, is what its reader's flag says, and that it
-- does not wait if no reader is there.
pub passes-Watched : (ps : List Pass) → IsWatched (passes ps start).readers (passes ps start).events
passes-Watched ps = passes_from ps start start-Watched
