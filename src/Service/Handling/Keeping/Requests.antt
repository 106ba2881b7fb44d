-- ===== src/Service/Handling/Keeping/Requests.antt =====
-- A whole request of `Handle`, internal/service/service.go, keeps what calls keep.
use gtkaskpass_yubikey.Base.{ℕ, Option, none, some}
use gtkaskpass_yubikey.Askpass.{Request, Mode, input, confirm, notify, parse}
use gtkaskpass_yubikey.Cache.Identity.{Key}
use gtkaskpass_yubikey.Cache.Store.{Store}
use gtkaskpass_yubikey.Dialog.{View}
use gtkaskpass_yubikey.Service.Handler.World.{Log, Context, pure}
use gtkaskpass_yubikey.Service.Handler.Windows.{fail}
use gtkaskpass_yubikey.Service.Handler.Opening.{
  opening_view, is_monitored, open_request, parse_request, notify_user, confirm_user,
  answer_at_once,
}
use gtkaskpass_yubikey.Service.Handler.Attempts.{Job}
use gtkaskpass_yubikey.Service.Handler.Sessions.{absolute_key, prepare, lock_hardware}
use gtkaskpass_yubikey.Service.Handler.{handle}
use gtkaskpass_yubikey.Service.Handling.Keeping.{Keeps, Closed, keeps_rules, Keeps-bind}
use gtkaskpass_yubikey.Service.Handling.Keeping.Deliveries.{sessions-Keeps, deliver-Keeps}
use gtkaskpass_yubikey.Service.Handling.Keeping.Choices.{
  send-Keeps, fail-Keeps, show-Keeps, show_or_fail-Keeps, action-Keeps, next_action-Keeps,
}

module _ {W : Type 0} (c : Context W) {O : Store → Log → Type 0} (closed : Closed c O) where
  is_monitored-Keeps : (req : Request) → Keeps O (is_monitored c req)
  unfolding is_monitored
  is_monitored-Keeps req = search keeps_rules depth 12

  open_request-Keeps : (req : Request) → Keeps O (open_request c req)
  unfolding open_request
  open_request-Keeps req = search (keeps_rules, send-Keeps, is_monitored-Keeps, fail-Keeps) depth 12

  notify_user-Keeps :
      {A : Type 0} (fuel : ℕ) (view : View) → Keeps O (notify_user c {A = A} fuel view)
  unfolding notify_user
  notify_user-Keeps fuel view = search (keeps_rules, show-Keeps, action-Keeps) depth 12

  confirm_user-Keeps :
      {A : Type 0} (fuel : ℕ) (view : View) → Keeps O (confirm_user c {A = A} fuel view)
  unfolding confirm_user
  confirm_user-Keeps fuel view =
      search (keeps_rules, show_or_fail-Keeps, next_action-Keeps, fail-Keeps, send-Keeps) depth 12

  parsed-Keeps :
      (o : Option Request)
      → Keeps O {W = W} {A = Request} (elim o [ none ↦ fail c 2 | some req ↦ pure req ])
  parsed-Keeps none = fail-Keeps c closed 2
  parsed-Keeps (some req) = search keeps_rules

  answer-Keeps :
      (fuel : ℕ) (req : Request) (mode : Mode)
      → Keeps O {W = W} {A = Unit {0}} (elim mode [
        | input ↦ pure tt
        | confirm ↦ confirm_user c fuel (opening_view req)
        | notify ↦ notify_user c fuel (opening_view req)
      ])
  answer-Keeps fuel req input = search keeps_rules
  answer-Keeps fuel req confirm = confirm_user-Keeps fuel (opening_view req)
  answer-Keeps fuel req notify = notify_user-Keeps fuel (opening_view req)

  absolute_key-Keeps : (key : Key) → Keeps O (absolute_key c key)
  unfolding absolute_key
  absolute_key-Keeps key = search keeps_rules depth 12

  prepare-Keeps : (req : Request) → Keeps O (prepare c req)
  unfolding prepare
  prepare-Keeps req = search (keeps_rules, absolute_key-Keeps) depth 12

  lock_hardware-Keeps : (job : Job) → Keeps O (lock_hardware c job)
  unfolding lock_hardware
  lock_hardware-Keeps job = search keeps_rules depth 12

  pub handle-Keeps : (fuel : ℕ) → Keeps O (handle c fuel)
  unfolding handle parse_request answer_at_once
  handle-Keeps fuel = Keeps-bind _ _ (parsed-Keeps (parse c.request.args c.request.hint)) λ req.
      Keeps-bind _ _ (open_request-Keeps req) λ t.
        Keeps-bind _ _ (answer-Keeps fuel req req.mode) λ t.
          search (keeps_rules, prepare-Keeps, lock_hardware-Keeps, sessions-Keeps, deliver-Keeps)
            depth 12
