-- ===== src/Touch/Monitor.antt =====
-- `Monitor` of internal/touch/linux.go: it looks for FIDO interfaces once a second, reads what they
-- report in between, and says which devices wait. What the system answers is an argument; the events
-- are noted, the latest first. The map `readers` is an association list, and a file descriptor is the
-- path it was opened at.
pub mod Scans
pub mod Rounds
pub mod Watching
pub mod Passes
pub mod Endings
pub mod Desired
use gtkaskpass_yubikey.Base64.{◌>>=◌}
use gtkaskpass_yubikey.Base.{
  ℕ, zero, suc, ◌+◌, ◌*◌, ◌/◌, ◌%◌, Bool, true, false, not, ◌&&◌, ◌||◌, Option, none, some, List,
  [], ◌∷◌, ◌++◌, Bytes, Bytes-discrete, codes, decide, is_empty, is_some, length, ltb, leb, ◌==◌,
  if◌then◌else◌,
}
use gtkaskpass_yubikey.Base.Maps.{lookup, insert, delete}
use gtkaskpass_yubikey.Text.Paths.{base_name}
use gtkaskpass_yubikey.Text.Decimal.{decimal}
use gtkaskpass_yubikey.Service.Popups.{Device, max_devices}
use gtkaskpass_yubikey.Touch.Descriptor.{Layout, Outcome, done, bad, fuel, descriptor}
use gtkaskpass_yubikey.Touch.Tracker.{Tracker, idle, active, report, expire}

-- The fields of `unix.Stat_t` that are compared.
pub record Node : Type 0 where
  pub mode : ℕ
  pub ino : ℕ
  pub rdev : ℕ
  pub ctim : ℕ × ℕ

pub record Reader : Type 0 where
  pub device : Device
  pub layout : Layout
  pub tracker : Tracker
  pub stat : Node
  pub is_active : Bool

pub data Event : Type 0 where
  touched : Device → Bool → Event
  diagnosed : Bytes → Event

-- The monitor and the variables of `Run`; `next_scan` is none for the zero time.
pub record Monitor : Type 0 where
  pub readers : List (Bytes × Reader)
  pub covered : Bool
  pub last_diagnostic : Bytes
  pub next_scan : Option ℕ
  pub events : List Event

-- What the calls on an opened node answer.
pub record Opened : Type 0 where
  pub stat : Option Node
  pub bus : Option ℕ
  pub size : Option ℕ
  pub text : Option Bytes
  pub name : Option Bytes

-- What a scan sees; the contents of a file are none where it cannot be read.
pub record Scan : Type 0 where
  pub paths : Option (List Bytes)
  pub contents : Bytes → Option Bytes
  pub lstat : Bytes → Option Node
  pub opens : Bytes → Option Opened

-- What read(2) answers: to try again, an end, or a report and the time then.
pub data Read : Type 0 where
  retry : Read
  over : Read
  input : Bytes → ℕ → Read

pub record Poll : Type 0 where
  pub fails : Bool
  pub is_gone : Bytes → Bool
  pub is_readable : Bytes → Bool
  pub reads : Bytes → List Read
  pub time : Bytes → ℕ

abbrev pub start : Monitor
start = record {
  readers = [];
  covered = false;
  last_diagnostic = [];
  next_scan = none;
  events = [];
}

abbrev pub note : Event → Monitor → Monitor
note e m = record m { events = e ∷ m.events }

abbrev pub find : Bytes → Monitor → Option Reader
find path m = lookup Bytes-discrete path m.readers

abbrev pub put : Bytes → Reader → Monitor → Monitor
put path r m = record m { readers = insert Bytes-discrete path r m.readers }

-- `readBounded`
abbrev pub bounded : Option Bytes → Option Bytes
bounded none = none
bounded (some b) = if ltb 4096 (length b) then none else some b

abbrev pub usb : ℕ
usb = 3

abbrev pub is_character : Node → Bool
is_character st = st.mode / 4096 % 16 == 2

abbrev pub named : Option Bytes → Bytes
named none = codes "FIDO2 security key"
named (some name) = if is_empty name then codes "FIDO2 security key" else name

abbrev pub opened_with : Bytes → Node → Layout → Option Bytes → Option Reader
opened_with path st layout name =
    if is_empty layout
    then none
    else some (record {
      device = record {
        path = path;
        label = named name ++ (codes " (" ++ (base_name path ++ codes ")"));
      };
      layout = layout;
      tracker = idle;
      stat = st;
      is_active = false;
    })

abbrev pub with_layout : Bytes → Node → Option Bytes → Outcome Layout → Option Reader
with_layout path st name bad = none
with_layout path st name fuel = none
with_layout path st name (done layout) = opened_with path st layout name

abbrev pub is_size : ℕ → Bool
is_size n = leb 1 n && leb n 4096

-- `open`
unfoldable pub open_reader : Bytes → Option Opened → Option Reader
open_reader path opened = do
  o ← opened
  st ← o.stat
  bus ← (if is_character st then o.bus else none)
  size ← (if bus == usb then o.size else none)
  text ← (if is_size size then o.text else none)
  with_layout path st o.name (descriptor text)

-- `m.state(r.device, false)` if the reader is active
abbrev pub release : Reader → Monitor → Monitor
release r m = if r.is_active then note (touched r.device false) m else m

abbrev pub removed : Bytes → Option Reader → Monitor → Monitor
removed path none m = m
removed path (some r) m = record (release r m) {
  readers = delete Bytes-discrete path m.readers;
  covered = false;
}

-- `remove`, of a reader that is there
unfoldable pub remove : Bytes → Monitor → Monitor
remove path m = removed path (find path m) m

unfoldable pub diagnose : Bytes → Monitor → Monitor
diagnose text m =
    if decide (Bytes-discrete text m.last_diagnostic)
    then m
    else record (note (diagnosed text) m) { last_diagnostic = text }
