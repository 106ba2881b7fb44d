-- ===== src/Tests/MonitorTests.antt =====
-- A device that waits for a touch, in the model of internal/touch/linux.go.
use gtkaskpass_yubikey.Base.{
  ℕ, zero, suc, ◌≡◌, refl, true, false, none, some, [], ◌∷◌, Bytes, Bytes-discrete, ℕ_discrete,
  codes,
}
use gtkaskpass_yubikey.Base.Maps.{lookup, insert, delete, retain}
use gtkaskpass_yubikey.Text.{after_last}
use gtkaskpass_yubikey.Text.Decimal.{digits}
use gtkaskpass_yubikey.Service.Popups.{new}
use gtkaskpass_yubikey.Touch.Descriptor.{
  read_item, join_bytes, main_tag, global_item, local_item, input_item, main_item, item, items,
  collect, finish, descriptor,
}
use gtkaskpass_yubikey.Touch.Tracker.{command, header, numbered, report, expire}
use gtkaskpass_yubikey.Touch.Monitor.{Node, input, start, open_reader, remove, diagnose}
use gtkaskpass_yubikey.Touch.Monitor.Scans.{watch, visit, visit_all, drop_unseen, rescan}
use gtkaskpass_yubikey.Touch.Monitor.Rounds.{
  Pass, settle, read_burst, poll_reader, poll_readers, poll, pass, passes, close, run,
}
use gtkaskpass_yubikey.Touch.Monitor.Watching.{told, IsWatched}
use gtkaskpass_yubikey.Touch.Monitor.Passes.{passes-Watched}
use gtkaskpass_yubikey.Touch.Monitor.Endings.{run-told}
use gtkaskpass_yubikey.Touch.Monitor.Desired.{tell, run-undesired}

program : Unit {0}
unfolding ℕ_discrete Bytes-discrete lookup insert delete retain after_last digits descriptor items
    item main_item input_item local_item global_item read_item join_bytes main_tag collect finish
    command header numbered report expire open_reader remove diagnose watch visit visit_all
    drop_unseen rescan settle read_burst poll_reader poll_readers poll pass passes close run told
program = tt

abbrev text : Bytes
text =
    0x06 ∷ 0xd0 ∷ 0xf1 ∷ 0x09 ∷ 0x01 ∷ 0xa1 ∷ 0x01 ∷ 0x75 ∷ 0x08 ∷ 0x95 ∷ 0x40 ∷ 0x81 ∷ 0x02 ∷ 0xc0
    ∷ []

abbrev zeros : ℕ → Bytes
zeros zero = []
zeros (suc n) = 0 ∷ zeros n

abbrev request : Bytes
request = 1 ∷ 2 ∷ 3 ∷ 4 ∷ 0xbb ∷ 0 ∷ 1 ∷ 2 ∷ zeros 56

abbrev node : Node
node = record { mode = 0x2180; ino = 5; rdev = 6; ctim = (7, 8) }

abbrev first : Pass
first = record {
  now = 0;
  scan = record {
    paths = some (codes "/sys/class/hidraw/hidraw0" ∷ []);
    contents = λ p. some text;
    lstat = λ p. some node;
    opens = λ p.
        some (record {
          stat = some node;
          bus = some 3;
          size = some 14;
          text = some text;
          name = none;
        });
  };
  polled = record {
    fails = false;
    is_gone = λ p. false;
    is_readable = λ p. true;
    reads = λ p. input request 10 ∷ [];
    time = λ p. 20;
  };
}

abbrev path : Bytes
path = codes "/dev/hidraw0"

waits : told path (passes (first ∷ []) start).events ≡ true
unfolding program
waits = refl

is_covered : (passes (first ∷ []) start).covered ≡ true
unfolding program
is_covered = refl

passes-Watched_example :
    IsWatched (passes (first ∷ []) start).readers (passes (first ∷ []) start).events
passes-Watched_example = passes-Watched (first ∷ [])

run-told_example : told path (run (first ∷ [])).events ≡ false
run-told_example = run-told (first ∷ []) path

run-undesired_example :
    lookup Bytes-discrete path (tell (run (first ∷ [])).events (new [])).desired ≡ none
run-undesired_example = run-undesired (first ∷ []) [] path
