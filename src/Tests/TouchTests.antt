-- ===== src/Tests/TouchTests.antt =====
-- A FIDO descriptor and reports of a device, in the model of internal/touch/report.go.
use gtkaskpass_yubikey.Base.{
  ℕ, zero, suc, ◌≡◌, ◌⊎◌, ◌+◌, refl, Bool, true, false, List, [], ◌∷◌, Bytes, ℕ_discrete, arith,
  All,
}
use gtkaskpass_yubikey.Base.Maps.{lookup, insert, delete, retain, Distinct}
use gtkaskpass_yubikey.Touch.Descriptor.{
  Layout, done, bad, read_item, join_bytes, main_tag, global_item, local_item, input_item,
  main_item, item, items, collect, finish, descriptor,
}
use gtkaskpass_yubikey.Touch.Descriptor.Layouts.{IsReport, descriptor-IsReport}
use gtkaskpass_yubikey.Touch.Descriptor.Ends.{descriptor-total}
use gtkaskpass_yubikey.Touch.Tracker.{
  idle, active, stale_after, command, header, numbered, report, expire,
}
use gtkaskpass_yubikey.Touch.Tracker.Reports.{IsData}
use gtkaskpass_yubikey.Touch.Tracker.Pending.{IsTracker}
use gtkaskpass_yubikey.Touch.Tracker.Traces.{
  Event, arrives, ticks, run, history-IsTracker, active-expire,
}
use gtkaskpass_yubikey.Touch.Tracker.Opening.{IsTouchRequest, report-opens}

-- The usage page of FIDO, a collection, and one input report of 64 bytes.
abbrev text : Bytes
text =
    0x06 ∷ 0xd0 ∷ 0xf1 ∷ 0x09 ∷ 0x01 ∷ 0xa1 ∷ 0x01 ∷ 0x75 ∷ 0x08 ∷ 0x95 ∷ 0x40 ∷ 0x81 ∷ 0x02 ∷ 0xc0
    ∷ []

program : Unit {0}
unfolding ℕ_discrete lookup insert delete retain descriptor items item main_item input_item
    local_item global_item read_item join_bytes main_tag collect finish command header numbered
    report expire
program = tt

read : descriptor text ≡ done ((0, 64) ∷ [])
unfolding program
read = refl

abbrev layout : Layout
layout = (0, 64) ∷ []

-- The byte 0, so many times.
abbrev zeros : ℕ → Bytes
zeros zero = []
zeros (suc n) = 0 ∷ zeros n

-- Channel 0x01020304 asks for a touch.
abbrev request : Bytes
request = 1 ∷ 2 ∷ 3 ∷ 4 ∷ 0xbb ∷ 0 ∷ 1 ∷ 2 ∷ zeros 56

abbrev events : List (ℕ × Event)
events = (10, arrives layout request) ∷ (20, ticks) ∷ []

waits : active (run events idle) ≡ true
unfolding program
waits = refl

descriptor-IsReport_example : (n : Bool) × All (IsReport n) layout × Distinct ℕ_discrete layout
unfolding program
descriptor-IsReport_example = descriptor-IsReport text layout refl

descriptor-total_example : ((l : Layout) × (descriptor text ≡ done l)) ⊎ (descriptor text ≡ bad)
descriptor-total_example = descriptor-total text

history-IsTracker_example : IsTracker (run events idle) 20
history-IsTracker_example = history-IsTracker events 20 (ground arith, (ground arith, ground arith))

active-expire_example : active (expire (run events idle) (20 + stale_after)) ≡ false
active-expire_example =
    active-expire events 20 (20 + stale_after) (ground arith, (ground arith, ground arith))
      (ground arith)

report-opens_example : (bytes : Bytes) × IsData request bytes × IsTouchRequest bytes 0x01020304
unfolding program
report-opens_example = report-opens idle layout request 10 0x01020304 refl refl
