-- ===== src/Service/Popups.antt =====
-- `TouchPopups` of internal/service/touch.go: one passive window for each device that waits for a
-- touch. A popup's goroutine is the two flags of its record: its context is cancelled, and its
-- `done` channel is closed. A pass of `Run` is one step: what ends while a pass runs counts as
-- ended before it or after it.
pub mod Passes
pub mod Starts
pub mod Sessions
pub mod Dismissals
use gtkaskpass_yubikey.Base.{
  ℕ, ◌+◌, ◌%◌, ◌^◌, Bool, true, false, not, ◌&&◌, ◌||◌, Option, none, some, List, [], ◌∷◌, Bytes,
  Bytes-discrete, ℕ_discrete, codes, decide, is_empty, is_some, length, ltb, leb, ◌==◌,
  if◌then◌else◌,
}
use gtkaskpass_yubikey.Base.Maps.{lookup, insert, delete, retain}

abbrev pub max_devices : ℕ
max_devices = 32

-- `SessionKeys` of internal/service/worker.go
abbrev pub session_keys : List Bytes
session_keys =
    codes "DISPLAY"
    ∷ codes "WAYLAND_DISPLAY"
    ∷ codes "XAUTHORITY"
    ∷ codes "XDG_RUNTIME_DIR"
    ∷ codes "DBUS_SESSION_BUS_ADDRESS"
    ∷ codes "LANG"
    ∷ codes "LC_ALL"
    ∷ codes "LC_CTYPE"
    ∷ codes "XDG_ACTIVATION_TOKEN"
    ∷ codes "DESKTOP_STARTUP_ID"
    ∷ []

pub record Device : Type 0 where
  pub path : Bytes
  pub label : Bytes

pub record DesiredTouch : Type 0 where
  pub device : Device
  pub epoch : ℕ

pub record Popup : Type 0 where
  pub epoch : ℕ
  pub is_cancelled : Bool
  pub is_done : Bool

-- The shared half of `TouchPopups`. `is_woken` is the mailbox of one place.
pub record Mailbox : Type 0 where
  pub env : List (Bytes × Bytes)
  pub desired : List (Bytes × DesiredTouch)
  pub epoch : ℕ
  pub is_woken : Bool
  pub has_failed : Bool

-- The variables of `Run`.
pub record Running : Type 0 where
  pub popups : List (Bytes × Popup)
  pub finished : List (Bytes × ℕ)

-- `env[k]`, the empty string when it is missing
abbrev pub value_of : Bytes → List (Bytes × Bytes) → Bytes
value_of k env = elim (lookup Bytes-discrete k env) [ none ↦ [] | some v ↦ v ]

abbrev pub copy_env :
    List Bytes → List (Bytes × Bytes) → List (Bytes × Bytes) → List (Bytes × Bytes)
copy_env [] env copied = copied
copy_env (k ∷ keys) env copied =
    let v = value_of k env in
    copy_env keys env (if not (is_empty v) then insert Bytes-discrete k v copied else copied)

-- `NewTouchPopups`
unfoldable pub new : List (Bytes × Bytes) → Mailbox
new env = record {
  env =
      delete Bytes-discrete (codes "DESKTOP_STARTUP_ID")
        (delete Bytes-discrete (codes "XDG_ACTIVATION_TOKEN") (copy_env session_keys env []));
  desired = [];
  epoch = 0;
  is_woken = false;
  has_failed = false;
}

-- `Available`
unfoldable pub available : Mailbox → Bool
available p =
    (not (is_empty (value_of (codes "DISPLAY") p.env))
      || not (is_empty (value_of (codes "WAYLAND_DISPLAY") p.env)))
    && not p.has_failed

abbrev pub signal : Mailbox → Mailbox
signal p = record p { is_woken = true }

abbrev pub is_new : Mailbox → Device → Bool
is_new p d =
    not (is_some (lookup Bytes-discrete d.path p.desired)) && ltb (length p.desired) max_devices

abbrev pub add_desired : Mailbox → Device → Mailbox
add_desired p d =
    let epoch = (p.epoch + 1) % 2 ^ 64 in
    record p {
      epoch = epoch;
      desired = insert Bytes-discrete d.path (record { device = d; epoch = epoch }) p.desired;
    }

-- `SetTouch`
unfoldable pub set_touch : Mailbox → Device → Bool → Mailbox
set_touch p d true = signal (if is_new p d then add_desired p d else p)
set_touch p d false = signal (record p { desired = delete Bytes-discrete d.path p.desired })

abbrev is_wanted : List (Bytes × DesiredTouch) → Bytes → Popup → Bool
is_wanted desired path r = elim (lookup Bytes-discrete path desired) [
  | none ↦ false
  | some want ↦ want.epoch == r.epoch
]

abbrev checked : List (Bytes × DesiredTouch) → Bytes → Popup → Popup
checked desired path r = if is_wanted desired path r then r else record r { is_cancelled = true }

-- The loop over the popups: those not wanted are cancelled, those that ended are recorded.
unfoldable pub check_popups :
    List (Bytes × DesiredTouch) → List (Bytes × Popup) → List (Bytes × ℕ) → Running
check_popups desired [] finished = record { popups = []; finished = finished }
check_popups desired ((path, r) ∷ rest) finished =
    let later =
      check_popups desired rest
        (if r.is_done then insert Bytes-discrete path r.epoch finished else finished) in
    if r.is_done
    then later
    else record later { popups = (path, checked desired path r) ∷ later.popups }

-- `finished[path]`, zero when it is missing
abbrev pub finished_epoch : Bytes → List (Bytes × ℕ) → ℕ
finished_epoch path finished = elim (lookup Bytes-discrete path finished) [ none ↦ 0 | some e ↦ e ]

abbrev is_skipped : Bytes → DesiredTouch → List (Bytes × Popup) → List (Bytes × ℕ) → Bool
is_skipped path want popups finished =
    is_some (lookup Bytes-discrete path popups)
    || finished_epoch path finished == want.epoch
    || leb max_devices (length popups)

abbrev opened : DesiredTouch → Popup
opened want = record { epoch = want.epoch; is_cancelled = false; is_done = false }

-- The loop over the desired devices.
unfoldable pub start_popups :
    List (Bytes × DesiredTouch) → List (Bytes × Popup) → List (Bytes × ℕ) → List (Bytes × Popup)
start_popups [] popups finished = popups
start_popups ((path, want) ∷ rest) popups finished =
    start_popups rest
      (if is_skipped path want popups finished
        then popups
        else insert Bytes-discrete path (opened want) popups)
      finished

abbrev is_desired : List (Bytes × DesiredTouch) → Bytes → ℕ → Bool
is_desired desired path epoch = is_some (lookup Bytes-discrete path desired)

-- One turn of the loop of `Run`, once it was woken.
unfoldable pub pass : List (Bytes × DesiredTouch) → Running → Running
pass desired run =
    let kept = check_popups desired run.popups run.finished in
    let finished = retain (is_desired desired) kept.finished in
    record { popups = start_popups desired kept.popups finished; finished = finished }
