-- ===== src/Service/Handler/Windows.antt =====
-- The frames, the window and the store's readings that `Handle` of internal/service/service.go calls.
use gtkaskpass_yubikey.Base.{
  ℕ, zero, suc, Bool, true, false, not, Option, none, some, Bytes, Bytes-discrete, codes, decide,
  if◌then◌else◌, ◌==◌,
}
use gtkaskpass_yubikey.Cache.Identity.{Identity}
use gtkaskpass_yubikey.Cache.Store.{Lookup}
use gtkaskpass_yubikey.Dialog.{View, Action}
use gtkaskpass_yubikey.Service.Handler.World.{
  Reply, window_shown, failed, confirmed, answered, Context, acted, sent, Handler, pure, stop,
  out_of_fuel, note, has_window, set_window, ◌>>=◌, ◌>>◌, call, current_cache,
}

-- `r.Event == "result"`
abbrev pub is_result : Reply → Bool
is_result (failed code) = true
is_result confirmed = true
is_result (answered value) = true
is_result _ = false

abbrev pub is_kind : Action → Bytes → Bool
is_kind a kind = decide (Bytes-discrete a.kind kind)

module _ {W : Type 0} (c : Context W) where
  -- `send`: a result closes the window.
  unfoldable pub send : Reply → Handler W Bool
  send reply = do
    open_window ← has_window
    set_window (if is_result reply then false else open_window)
    ok ← call c (c.env.sends reply)
    note (sent reply ok)
    pure ok

  -- `finish(code); return`
  unfoldable pub fail : {A : Type 0} → ℕ → Handler W A
  fail code = send (failed code) >> stop

  -- `show`, with whether it succeeds. It opens the window if there is none.
  unfoldable pub show : View → Handler W Bool
  show view = do
    open_window ← has_window
    opened ← if open_window then pure true else call c c.env.opens
    set_window opened
    if opened then call c (c.env.shows view) else pure false

  -- `action`: the next action that is not "shown". It needs as much fuel as there are actions.
  unfoldable pub action : ℕ → Handler W (Option Action)
  action zero = out_of_fuel
  action (suc fuel) = do
    a ← call c c.env.acts
    note (acted a)
    elim a [
      | none ↦ pure none
      | some x ↦
          if not (is_kind x (codes "shown"))
          then pure (some x)
          else do (if c.request.trace then send window_shown else pure true); action fuel
    ]

  -- `candidate.Generation != 0 && !s.Cache.Current(id, candidate.Generation)`
  unfoldable pub is_stale : Identity → Lookup → Handler W Bool
  is_stale id candidate =
      if candidate.generation == 0
      then pure false
      else do ok ← current_cache c id candidate.generation; pure (not ok)

  -- `if ui != nil { _, _ = action() }`
  unfoldable pub await_action : ℕ → Handler W (Unit {0})
  await_action fuel = do
    open_window ← has_window
    if open_window then action fuel >> pure tt else pure tt

  -- `ui != nil && ui.Cancelled()`
  unfoldable pub window_cancelled : Handler W Bool
  window_cancelled = do
    open_window ← has_window
    if open_window then call c c.env.is_cancelled else pure false

  -- `if ctx.Err() != nil { return }`
  unfoldable pub check_over : Handler W (Unit {0})
  check_over = do over ← call c c.env.is_over; if over then stop else pure tt

  -- `if ui != nil && ui.Cancelled() { finish(1); return }`
  unfoldable pub check_cancelled : Handler W (Unit {0})
  check_cancelled = do cancelled ← window_cancelled; if cancelled then fail 1 else pure tt

  -- `if show(v) != nil { finish(2); return }`
  unfoldable pub show_or_fail : View → Handler W (Unit {0})
  show_or_fail view = do shown ← show view; if shown then pure tt else fail 2

  -- `a, e := action(); if e != nil { return }`
  unfoldable pub next_action : ℕ → Handler W Action
  next_action fuel = do a ← action fuel; elim a [ none ↦ stop | some x ↦ pure x ]
