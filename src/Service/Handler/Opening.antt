-- ===== src/Service/Handler/Opening.antt =====
-- `Handle` of internal/service/service.go before the key of the request: the frames that open it, and
-- the requests that ask for no value.
use gtkaskpass_yubikey.Base.{
  ℕ, Bool, true, false, not, ◌&&◌, none, some, List, [], Bytes, Bytes-discrete, codes, decide,
  if◌then◌else◌, is_empty,
}
use gtkaskpass_yubikey.Base.Int.{pos, negsuc}
use gtkaskpass_yubikey.Base.Maps.{lookup}
use gtkaskpass_yubikey.Askpass.{Request, Mode, input, confirm, notify, parse}
use gtkaskpass_yubikey.Dialog.{View, Stage}
use gtkaskpass_yubikey.Service.Handler.World.{
  accepted, confirmed, Context, Handler, pure, stop, ◌>>=◌, ◌>>◌, call,
}
use gtkaskpass_yubikey.Service.Handler.Windows.{
  is_kind, send, fail, show, action, show_or_fail, next_action,
}

abbrev pub is_notify : Mode → Bool
is_notify notify = true
is_notify _ = false

-- The view of a request at first.
abbrev pub opening_view : Request → View
opening_view req = record {
  request = some req;
  stage = Stage.input;
  message = [];
  ttl = pos 0;
  devices = [];
  selected = negsuc 0;
  change_device = false;
}

-- `in.Env["XDG_RUNTIME_DIR"]`
abbrev pub runtime_of : List (Bytes × Bytes) → Bytes
runtime_of env = elim (lookup Bytes-discrete (codes "XDG_RUNTIME_DIR") env) [
  | none ↦ []
  | some v ↦ v
]

-- The runtime directory of the request is not that of the service.
abbrev pub is_foreign : Bytes → Bytes → Bool
is_foreign runtime own = not (is_empty runtime) && not (decide (Bytes-discrete runtime own))

module _ {W : Type 0} (c : Context W) where
  -- `req.Mode == askpass.Notify && req.Touch && s.TouchMonitored != nil && s.TouchMonitored()`
  unfoldable pub is_monitored : Request → Handler W Bool
  is_monitored req =
      if is_notify req.mode && req.touch && c.has_monitor
      then call c c.env.monitored
      else pure false

  -- A request that is parsed, up to the test of its runtime directory
  unfoldable pub open_request : Request → Handler W (Unit {0})
  open_request req = do
    ok ← send c (accepted (is_notify req.mode))
    (if ok then pure tt else stop)
    monitored ← is_monitored req
    (if monitored then stop else pure tt)
    if is_foreign (runtime_of c.request.env) c.runtime then fail c 2 else pure tt

  -- `askpass.Parse`
  unfoldable pub parse_request : Handler W Request
  parse_request = elim (parse c.request.args c.request.hint) [
    | none ↦ fail c 2
    | some req ↦ pure req
  ]

  -- A notification: the window stays until ssh ends the request.
  unfoldable pub notify_user : {A : Type 0} → ℕ → View → Handler W A
  notify_user fuel view = do
    shown ← show c view
    (if shown then (action c fuel >> pure tt) else pure tt)
    stop

  -- A question: anything but "submit" refuses.
  unfoldable pub confirm_user : {A : Type 0} → ℕ → View → Handler W A
  confirm_user fuel view = do
    show_or_fail c view
    a ← next_action c fuel
    (if is_kind a (codes "submit") then pure tt else fail c 1)
    send c confirmed
    stop

  -- `if req.Mode != askpass.Input { ... }`
  unfoldable pub answer_at_once : ℕ → Request → Handler W (Unit {0})
  answer_at_once fuel req = elim req.mode [
    | input ↦ pure tt
    | confirm ↦ confirm_user fuel (opening_view req)
    | notify ↦ notify_user fuel (opening_view req)
  ]
