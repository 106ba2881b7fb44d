-- ===== src/Service/Handler/Attempts.antt =====
-- `Handle` of internal/service/service.go in its main loop: a value is entered, and a PIN is verified.
use gtkaskpass_yubikey.Base.{
  ℕ, zero, suc, Bool, true, false, not, ◌&&◌, ◌||◌, Option, none, some, List, [], ◌∷◌, ◌++◌, Bytes,
  Bytes-discrete, codes, decide, if◌then◌else◌, ◌==◌, is_empty,
}
use gtkaskpass_yubikey.Base.Int.{ℤ, pos, negsuc}
use gtkaskpass_yubikey.Text.Decimal.{itoa}
use gtkaskpass_yubikey.Askpass.{validate}
use gtkaskpass_yubikey.Cache.Identity.{Identity}
use gtkaskpass_yubikey.Cache.Store.{Lookup}
use gtkaskpass_yubikey.Dialog.{
  Device, View, Action, Status, Verdict, accepted, invalid, blocked, temporary_block, error, busy,
}
use gtkaskpass_yubikey.Service.Handler.World.{
  Context, tried, Handler, pure, stop, out_of_fuel, note, has_window, ◌>>=◌, ◌>>◌, call,
  begin_cache, reject_cache,
}
use gtkaskpass_yubikey.Service.Handler.Windows.{
  is_kind, fail, show, action, is_stale, await_action, check_over, check_cancelled, show_or_fail,
  next_action,
}
use gtkaskpass_yubikey.Service.Handler.Devices.{discover}

-- What the request is about: the fingerprint of `k`, the identity, whether it is cached and verified.
pub record Job : Type 0 where
  pub fingerprint : Bytes
  pub id : Identity
  pub eligible : Bool
  pub verify : Bool

-- The variables of the loop.
pub record Locals : Type 0 where
  pub id : Identity
  pub selected : Device
  pub candidate : Lookup
  pub value : Bytes
  pub remember : Bool
  pub view : View

-- What one round ends with: `goto selectDevice`, `continue`, or `break`.
pub data Round : Type 0 where
  reselect : View → Round
  again : Locals → Round
  entered : Locals → Round

abbrev pub retries_text : ℤ → Bytes
retries_text (pos n) = (10 ∷ codes "PIN attempts remaining: ") ++ itoa (pos n)
retries_text (negsuc n) = []

abbrev pub disconnected_message : Bytes
disconnected_message =
    codes "Selected device disconnected or changed. Cancel and start a new request."

-- "Verifying PIN…", in UTF-8
abbrev pub busy_message : Bytes
busy_message = codes "Verifying PIN" ++ (0xe2 ∷ 0x80 ∷ 0xa6 ∷ [])

-- `d.Connection == selected.Connection && d.Path == selected.Path` for one of the devices
unfoldable pub is_among : Device → List Device → Bool
is_among selected [] = false
is_among selected (d ∷ devices) =
    (decide (Bytes-discrete d.connection selected.connection)
      && decide (Bytes-discrete d.path selected.path))
    || is_among selected devices

abbrev pub is_present : Device → Option (List Device) → Bool
is_present selected none = false
is_present selected (some devices) = is_among selected devices

abbrev pub is_accepted : Status → Bool
is_accepted accepted = true
is_accepted _ = false

abbrev pub is_rejected : Status → Bool
is_rejected invalid = true
is_rejected blocked = true
is_rejected temporary_block = true
is_rejected _ = false

abbrev pub is_invalid : Status → Bool
is_invalid invalid = true
is_invalid _ = false

module _ {W : Type 0} (c : Context W) (job : Job) where
  -- `clear(value); value = nil; candidate = s.Cache.Begin(id, caller); view.TTL = candidate.TTL`
  unfoldable pub renew : Locals → Handler W Locals
  renew l = do
    candidate ← begin_cache c l.id
    pure (record l {
      value = [];
      candidate = candidate;
      view = record l.view { ttl = candidate.ttl };
    })

  -- `if candidate.Generation != 0 { s.Cache.Reject(id, candidate.Generation) }`
  unfoldable pub reject_candidate : Locals → Handler W (Unit {0})
  reject_candidate l =
      if l.candidate.generation == 0 then pure tt else reject_cache c l.id l.candidate.generation

  -- The action with which the value is entered.
  abbrev pub enter : Locals → Action → Handler W Round
  enter l a =
      if is_kind a (codes "change") && job.verify
      then pure (reselect l.view)
      else if not (is_kind a (codes "submit"))
      then fail c 1
      else if not (validate a.value)
      then pure
          (again (record l { view = record l.view { message = codes "Invalid response format." } }))
      else pure (entered (record l { value = a.value; remember = a.remember }))

  -- `if len(value) == 0 { ... }`
  unfoldable pub ask_value : ℕ → Locals → Handler W Round
  ask_value fuel l =
      if not (is_empty l.value)
      then pure (entered l)
      else do show_or_fail c l.view; a ← next_action c fuel; enter l a

  -- The device has gone.
  unfoldable pub disconnect : {A : Type 0} → ℕ → Locals → Handler W A
  disconnect fuel l = do
    reject_candidate l
    show c (record l.view { stage = error; message = disconnected_message })
    await_action c fuel
    fail c 1

  -- `if ui != nil { busy := view; ...; if show(busy) != nil { return } }`
  unfoldable pub show_busy : View → Handler W (Unit {0})
  show_busy view = do
    open_window ← has_window
    shown ←
        if open_window
        then show c (record view { stage = busy; message = busy_message })
        else pure true
    if shown then pure tt else stop

  -- `s.Devices.Verify`
  unfoldable pub verify_pin : Device → Bytes → Handler W Verdict
  verify_pin selected value = do
    r ← call c (c.env.verifies selected value)
    note (tried selected value r)
    pure r

  -- `if eligible { candidate = s.Cache.Begin(id, caller); view.TTL = candidate.TTL }`
  unfoldable pub renew_eligible : Locals → Handler W Locals
  renew_eligible l = if job.eligible then renew l else pure l

  -- The store after a verdict that is not acceptance; the value is cleared.
  unfoldable pub discard : Status → Locals → Handler W Locals
  discard status l =
      if not (is_rejected status)
      then pure (record l { value = [] })
      else do reject_candidate l; renew_eligible (record l { value = [] })

  abbrev pub with_verdict : Verdict → Locals → Locals
  with_verdict r l = record l {
    view = record l.view { message = r.message ++ retries_text r.retries };
  }

  -- The PIN was not accepted.
  unfoldable pub refuse : ℕ → Verdict → Locals → Handler W Round
  refuse fuel r l = do
    l' ← discard r.status l
    let shown = with_verdict r l'
    if is_invalid r.status
        then pure (again shown)
        else do show_or_fail c (record shown.view { stage = error }); action c fuel; fail c 1

  -- The PIN was accepted; a stored one may have been forgotten meanwhile.
  unfoldable pub accept : Locals → Handler W Round
  accept l = do
    stale ← is_stale c l.id l.candidate
    if stale then (renew l >>= λ l'. pure (again l')) else pure (entered l)

  -- The verdict on the PIN
  unfoldable pub judge : ℕ → Verdict → Locals → Handler W Round
  judge fuel r l = do
    check_cancelled c
    check_over c
    if is_accepted r.status then accept l else refuse fuel r l

  -- The device is enumerated again, and the PIN is verified.
  unfoldable pub attempt : ℕ → Locals → Handler W Round
  attempt fuel l = do
    devices ← discover c
    if not (is_present l.selected devices)
        then disconnect fuel l
        else do show_busy l.view; r ← verify_pin l.selected l.value; judge fuel r l

  -- The rest of a round once there is a value.
  unfoldable pub verify_value : ℕ → Locals → Handler W Round
  verify_value fuel l = if not job.verify then pure (entered l) else do
    stale ← is_stale c l.id l.candidate
    if stale then (renew l >>= λ l'. pure (again l')) else attempt fuel l

  abbrev pub continue_round : ℕ → Round → Handler W Round
  continue_round fuel (reselect v) = pure (reselect v)
  continue_round fuel (again l) = pure (again l)
  continue_round fuel (entered l) = verify_value fuel l

  -- One round of the loop.
  unfoldable pub round : ℕ → Locals → Handler W Round
  round fuel l = do check_over c; r ← ask_value fuel l; continue_round fuel r

  -- The loop: it ends with a value, or with the view for another selection.
  unfoldable pub rounds : (fuel n : ℕ) → Locals → Handler W Round
  rounds fuel zero l = out_of_fuel
  rounds fuel (suc n) l = do
    r ← round fuel l
    elim r [
      | reselect v ↦ pure (reselect v)
      | again l' ↦ rounds fuel n l'
      | entered l' ↦ pure (entered l')
    ]
