-- ===== src/Service/Handler/Delivery.antt =====
-- `Handle` of internal/service/service.go from the end of its loop on: the value is sent, and what the
-- adapter reports decides what is stored.
use gtkaskpass_yubikey.Base.{
  Bool, true, false, not, ◌&&◌, ◌||◌, Option, none, some, [], Bytes, Bytes-discrete, codes, decide,
  if◌then◌else◌, ◌==◌, is_empty,
}
use gtkaskpass_yubikey.Base.Int.{pos}
use gtkaskpass_yubikey.Ipc.Handle.{is_version}
use gtkaskpass_yubikey.Cache.Identity.{Key, Identity, Identity-discrete}
use gtkaskpass_yubikey.Cache.Resolve.{resolve}
use gtkaskpass_yubikey.Cache.Store.{Reason, disabled}
use gtkaskpass_yubikey.Dialog.{View, close}
use gtkaskpass_yubikey.Service.Handler.World.{
  Ack, answered, cache_update, finished, acknowledged, saved, Context, Handler, pure, stop, note,
  has_window, ◌>>=◌, ◌>>◌, call, commit_cache, forget_cache,
}
use gtkaskpass_yubikey.Service.Handler.Windows.{send, check_over, check_cancelled}
use gtkaskpass_yubikey.Service.Handler.Devices.{bound}
use gtkaskpass_yubikey.Service.Handler.Attempts.{Job, Locals}

abbrev pub is_disabled : Reason → Bool
is_disabled disabled = true
is_disabled _ = false

-- `ack.Op == "delivered" && ack.Version == 2`
abbrev pub is_delivered : Ack → Bool
is_delivered ack = decide (Bytes-discrete ack.op (codes "delivered")) && is_version 2 ack.version

-- `dialog.View{Stage: "close"}`
abbrev pub close_view : View
close_view = record {
  request = none;
  stage = close;
  message = [];
  ttl = pos 0;
  devices = [];
  selected = pos 0;
  change_device = false;
}

module _ {W : Type 0} (c : Context W) where
  -- `if ui != nil { _ = ui.Show(dialog.View{Stage: "close"}) }`
  unfoldable pub close_window : Handler W (Unit {0})
  close_window = do
    open_window ← has_window
    if open_window then (call c (c.env.shows close_view) >> pure tt) else pure tt

  abbrev pub require : Option Ack → Handler W (Unit {0})
  require none = stop
  require (some ack) = if is_delivered ack then pure tt else stop

  -- The value is sent, and the adapter reports that it has written it.
  unfoldable pub hand_over : Bytes → Handler W (Unit {0})
  hand_over value = do
    ok ← send c (answered value)
    (if ok then pure tt else stop)
    ack ← call c c.env.acknowledges
    note (acknowledged ack)
    require ack

module _ {W : Type 0} (c : Context W) (job : Job) where
  -- The identity of the key now, on this device
  abbrev pub identity_now : Locals → Option Identity → Option Identity
  identity_now l none = none
  identity_now l (some id) = some (if job.verify then bound id l.selected else id)

  abbrev pub commit_if : Locals → Option Identity → Handler W Bool
  commit_if l none = pure false
  commit_if l (some id) =
      if decide (Identity-discrete id l.id)
      then commit_cache c l.candidate.token l.id l.value
      else pure false

  -- `if remember && len(value) > 0 { ... } else if !remember { ... }`
  unfoldable pub store_value : Key → Locals → Handler W Bool
  store_value key l =
      if not l.remember
      then (forget_cache c l.id.key >> pure false)
      else if is_empty l.value
      then pure false
      else do files ← call c c.env.files; commit_if l (identity_now l (resolve files key))

  -- `if candidate.Token != 0 { ... }`, with whether the preference is saved
  unfoldable pub settle : Key → Locals → Handler W Bool
  settle key l =
      if l.candidate.token == 0
      then pure
          (job.verify && (is_disabled l.candidate.reason || not job.eligible || not l.remember))
      else do
        stored ← store_value key l
        (if c.request.trace then send c (cache_update stored) else pure true)
        pure (job.verify && (stored || not l.remember))

  -- `if savePreference && s.Preferences != nil { ... }`
  unfoldable pub save_preference : Bool → Locals → Handler W (Unit {0})
  save_preference saves l = if not (saves && c.has_preferences) then pure tt else do
    call c (c.env.saves job.fingerprint l.selected.stable_id)
    note (saved job.fingerprint l.selected.stable_id)

  -- The end of the request.
  unfoldable pub deliver : Key → Locals → Handler W (Unit {0})
  deliver key l = do
    check_over c
    check_cancelled c
    close_window c
    hand_over c l.value
    saves ← settle key l
    save_preference saves l
    send c finished
    pure tt
