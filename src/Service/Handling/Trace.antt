-- ===== src/Service/Handling/Trace.antt =====
-- What the events of `Handle` of internal/service/service.go must be: which frame may be sent when, and
-- where the PIN and the device of each event come from.
use gtkaskpass_yubikey.Base.{
  ◌≡◌, Bool, true, false, not, is_empty, Option, none, some, List, [], ◌∷◌, Bytes, codes,
  if◌then◌else◌, ◌==◌, ◌⊎◌,
}
use gtkaskpass_yubikey.Dialog.{Device}
use gtkaskpass_yubikey.Service.Handler.World.{
  Reply, Event, Log, State, Handler, accepted, window_shown, cache_reason, failed, confirmed,
  answered, cache_update, finished, acted, discovered, begun, rejected, tried, sent, acknowledged,
  committed, forgotten, saved,
}
use gtkaskpass_yubikey.Service.Handler.Windows.{is_kind}
use gtkaskpass_yubikey.Service.Handler.Attempts.{is_accepted, is_among}
use gtkaskpass_yubikey.Service.Handler.Delivery.{is_delivered}
use gtkaskpass_yubikey.Service.Handling.Rules.{Ensures}

-- How far the exchange of frames is.
pub data Phase : Type 0 where
  quiet opened : Phase
  offered : Bytes → Phase
  delivered : Bytes → Phase
  ended : Phase

abbrev after_ack : Phase → Phase
after_ack (offered v) = delivered v
after_ack _ = ended

abbrev after_reply : Reply → Phase → Phase
after_reply (accepted b) p = opened
after_reply window_shown p = p
after_reply (cache_reason r) p = p
after_reply (failed n) p = ended
after_reply confirmed p = ended
after_reply (answered v) p = offered v
after_reply (cache_update b) p = p
after_reply finished p = ended

unfoldable pub phase : Log → Phase
phase [] = quiet
phase (sent r ok ∷ log) = after_reply r (phase log)
phase (acknowledged none ∷ log) = ended
phase (acknowledged (some a) ∷ log) =
    let p = phase log in if is_delivered a then after_ack p else ended
phase (e ∷ log) = phase log

-- The value that was entered last, by the user or from the store, and whether it is to be kept.
unfoldable pub entry : Log → Option (Bytes × Bool)
entry [] = none
entry (acted (some a) ∷ log) =
    let rest = entry log in if is_kind a (codes "submit") then some (a.value, a.remember) else rest
entry (begun id r ∷ log) = some (r.secret, false)
entry (e ∷ log) = entry log

-- There is such a value, and it was not tried.
unfoldable pub is_fresh : Log → Bool
is_fresh [] = false
is_fresh (acted (some a) ∷ log) =
    let rest = is_fresh log in if is_kind a (codes "submit") then true else rest
is_fresh (begun id r ∷ log) = not (is_empty r.secret)
is_fresh (tried d v r ∷ log) = false
is_fresh (e ∷ log) = is_fresh log

-- The device that accepted that value, at the last attempt.
unfoldable pub verified : Log → Option Device
verified [] = none
verified (acted (some a) ∷ log) =
    let rest = verified log in if is_kind a (codes "submit") then none else rest
verified (begun id r ∷ log) = none
verified (tried d v r ∷ log) = if is_accepted r.status then some d else none
verified (e ∷ log) = verified log

-- The devices at the last enumeration.
unfoldable pub connected : Log → List Device
connected [] = []
connected (discovered none ∷ log) = []
connected (discovered (some devices) ∷ log) = devices
connected (e ∷ log) = connected log

-- If PINs are verified, a device has accepted the value.
abbrev pub Vouched : Bool → Log → Type 0
Vouched false log = Unit {0}
Vouched true log = (d : Device) × (verified log ≡ some d)

abbrev pub MaySend : Bool → Reply → Log → Type 0
MaySend verify (accepted b) log = phase log ≡ quiet
MaySend verify window_shown log = phase log ≡ opened
MaySend verify (cache_reason r) log = phase log ≡ opened
MaySend verify (failed n) log = ((n == 0) ≡ false) × ((phase log ≡ quiet) ⊎ (phase log ≡ opened))
MaySend verify confirmed log = phase log ≡ opened
MaySend verify (answered v) log =
    (phase log ≡ opened) × ((b : Bool) × (entry log ≡ some (v, b))) × Vouched verify log
MaySend verify (cache_update b) log = (v : Bytes) × (phase log ≡ delivered v)
MaySend verify finished log = (v : Bytes) × (phase log ≡ delivered v)

-- An event may come after these.
abbrev pub Allowed : Bool → Event → Log → Type 0
Allowed verify (acted a) log = phase log ≡ opened
Allowed verify (discovered devices) log = phase log ≡ opened
Allowed verify (begun id r) log = phase log ≡ opened
Allowed verify (rejected id n) log =
    (phase log ≡ opened) × ((n == 0) ≡ false) × (verified log ≡ none)
Allowed verify (tried d v r) log =
    (phase log ≡ opened)
    × (is_among d (connected log) ≡ true)
    × ((b : Bool) × (entry log ≡ some (v, b)))
    × (is_fresh log ≡ true)
Allowed verify (sent r ok) log = MaySend verify r log
Allowed verify (acknowledged a) log = (v : Bytes) × (phase log ≡ offered v)
Allowed verify (committed id v ok) log =
    (phase log ≡ delivered v) × (entry log ≡ some (v, true)) × Vouched verify log
Allowed verify (forgotten key) log =
    (v : Bytes) × (phase log ≡ delivered v) × (entry log ≡ some (v, false))
Allowed verify (saved fingerprint name) log =
    (v : Bytes) × (d : Device) × (phase log ≡ delivered v)
    × (verified log ≡ some d)
    × (d.stable_id ≡ name)

-- Every event was allowed when it came.
unfoldable pub Safe : Bool → Log → Type 0
Safe verify [] = Unit {0}
Safe verify (e ∷ log) = Allowed verify e log × Safe verify log

-- The request is accepted and not answered.
pub record IsOpen (verify : Bool) (log : Log) : Type 0 where
  pub is_opened : phase log ≡ opened
  pub safe : Safe verify log

-- A handler whose events are allowed, however it ends.
abbrev pub Safely :
    {W A : Type 0} → Bool → (Log → Type 0) → Handler W A → (A → Log → Type 0) → Type 0
Safely verify P m Q = Ensures State.log (Safe verify) (Safe verify) P m Q
