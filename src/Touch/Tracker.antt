-- ===== src/Touch/Tracker.antt =====
-- `Tracker` of internal/touch/report.go: the channels that wait for a touch. Times are nanoseconds.
pub mod Opening
pub mod Pending
pub mod Reports
pub mod Traces
use gtkaskpass_yubikey.Base.{
  ℕ, ◌+◌, ◌*◌, ◌/◌, ◌%◌, ◌^◌, ◌-◌, Bool, true, false, not, ◌&&◌, ◌||◌, Option, none, some, List, [],
  ◌∷◌, Bytes, ℕ_discrete, length, drop, ltb, leb, ◌==◌, is_empty, is_some, if◌then◌else◌,
}
use gtkaskpass_yubikey.Base.Maps.{lookup, insert, delete, retain}
use gtkaskpass_yubikey.Touch.Descriptor.{Layout}

abbrev pub keepalive : ℕ
keepalive = 0xbb

abbrev pub cbor_response : ℕ
cbor_response = 0x90

abbrev pub error_response : ℕ
error_response = 0xbf

abbrev pub init_response : ℕ
init_response = 0x86

abbrev pub up_needed : ℕ
up_needed = 2

abbrev pub processing : ℕ
processing = 1

abbrev pub max_channels : ℕ
max_channels = 32

abbrev pub stale_after : ℕ
stale_after = 3 * 1_000_000_000

-- The channels with their deadlines.
pub record Tracker : Type 0 where
  pub pending : List (ℕ × ℕ)

abbrev pub idle : Tracker
idle = record { pending = [] }

-- `Active`
abbrev pub active : Tracker → Bool
active t = not (is_empty t.pending)

abbrev pub is_pending : ℕ → Tracker → Bool
is_pending cid t = is_some (lookup ℕ_discrete cid t.pending)

abbrev renew : Tracker → ℕ → ℕ → Tracker
renew t cid now = record t { pending = insert ℕ_discrete cid (now + stale_after) t.pending }

abbrev close : Tracker → ℕ → Tracker
close t cid = record t { pending = delete ℕ_discrete cid t.pending }

-- The switch of `Report` on the command; `status` is the first data byte.
unfoldable pub command : Tracker → ℕ → ℕ → ℕ → ℕ → ℕ → Tracker
command t cid cmd len status now =
    if cmd == keepalive
    then if not (len == 1)
      then t
      else if status == up_needed
      then if is_pending cid t || ltb (length t.pending) max_channels then renew t cid now else t
      else if status == processing
      then if is_pending cid t then renew t cid now else t
      else t
    else if cmd == cbor_response
    then if leb 1 len then close t cid else t
    else if cmd == error_response
    then if len == 1 then close t cid else t
    else if cmd == init_response
    then if len == 17 then close t cid else t
    else t

-- A header: the channel, the command and the length, big-endian, then data.
unfoldable pub header : Tracker → Bytes → ℕ → Tracker
header t (a ∷ b ∷ c ∷ d ∷ cmd ∷ hi ∷ lo ∷ status ∷ rest) now =
    let size = 8 + length rest in
    let cid = ((a * 256 + b) * 256 + c) * 256 + d in
    let len = hi * 256 + lo in
    if cmd / 128 % 2 == 0
    then t
    else if cid == 0 || cid == 0xffff_ffff
    then t
    else if ltb (size - 7 + 128 * (size - 5)) len
    then t
    else command t cid cmd len status now
header t _ now = t

-- `Report` once the identifier is known.
unfoldable pub numbered : Tracker → Layout → ℕ → Bytes → ℕ → Tracker
numbered t layout id report now = elim (lookup ℕ_discrete id layout) [
  | none ↦ t
  | some size ↦
      if not (length report == size)
      then t
      else header t (if id == 0 then report else drop 1 report) now
]

abbrev first_byte : Tracker → Layout → Bytes → ℕ → Tracker
first_byte t layout [] now = t
first_byte t layout (id ∷ rest) now = numbered t layout id (id ∷ rest) now

-- `Report`
unfoldable pub report : Tracker → Layout → Bytes → ℕ → Tracker
report t layout text now =
    if is_some (lookup ℕ_discrete 0 layout)
    then numbered t layout 0 text now
    else first_byte t layout text now

abbrev before_deadline : ℕ → ℕ → ℕ → Bool
before_deadline now cid deadline = ltb now deadline

-- `Expire`
unfoldable pub expire : Tracker → ℕ → Tracker
expire t now = record t { pending = retain (before_deadline now) t.pending }
