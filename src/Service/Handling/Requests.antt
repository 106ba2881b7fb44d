-- ===== src/Service/Handling/Requests.antt =====
-- The events of one request, Service/Handler: each is allowed when it comes.
use gtkaskpass_yubikey.Base.{
  ℕ, ◌≡◌, refl, sym, ◌∙◌, Bool, false, ◌&&◌, Option, none, some, [], ◌∷◌, codes, inl,
}
use gtkaskpass_yubikey.Askpass.{Request, Mode, input, confirm, notify, parse}
use gtkaskpass_yubikey.Dialog.{View}
use gtkaskpass_yubikey.Service.Handler.World.{
  Log, State, Context, Outcome, done, returned, exhausted, accepted, confirmed, sent, pure, ◌>>=◌,
  ◌>>◌,
}
use gtkaskpass_yubikey.Service.Handler.Windows.{is_kind, fail}
use gtkaskpass_yubikey.Service.Handler.Opening.{
  is_notify, is_foreign, runtime_of, opening_view, is_monitored, open_request, parse_request,
  notify_user, confirm_user, answer_at_once,
}
use gtkaskpass_yubikey.Service.Handler.Sessions.{is_pin_title, lock_hardware, sessions}
use gtkaskpass_yubikey.Service.Handler.Delivery.{deliver}
use gtkaskpass_yubikey.Service.Handler.Attempts.{Job}
use gtkaskpass_yubikey.Cache.Identity.{Key}
use gtkaskpass_yubikey.Service.Handling.Entered.{IsFinal}
use gtkaskpass_yubikey.Service.Handler.{handle}
use gtkaskpass_yubikey.Service.Handling.Rules.{
  Ends, Ensures, Ensures-pure, Ensures-stop, Ensures-if, Ensures-bind, Ensures-given,
}
use gtkaskpass_yubikey.Service.Handling.Trace.{Safe, IsOpen, Safely, phase, quiet}
use gtkaskpass_yubikey.Service.Handling.Windows.{
  call-Safely, show-Safely, send-Safely, fail-Safely, open-fail, open-show_or_fail,
  next_action-HasHeard, action-HasHeard,
}
use gtkaskpass_yubikey.Service.Handling.Sessions.{prepare-Safely, lock-Safely, sessions-Safely}
use gtkaskpass_yubikey.Service.Handling.Delivery.{deliver-Safely}

-- The request asks for the PIN of a security key, and the service verifies PINs.
abbrev pub must_verify : {W : Type 0} → Context W → Option Request → Bool
must_verify c none = false
must_verify c (some req) = c.verify_pin && is_pin_title req.title

record IsQuiet (verify : Bool) (log : Log) : Type 0 where
  is_in : phase log ≡ quiet
  safe : Safe verify log

accepted-IsOpen :
    (verify b ok : Bool) (log : Log)
    → IsQuiet verify log
    → IsOpen verify (sent (accepted b) ok ∷ log)
unfolding phase Safe
accepted-IsOpen verify b ok log q = record { is_opened = refl; safe = (q.is_in, q.safe) }

module _ {W : Type 0} (c : Context W) where
  monitored-Safely :
      {R X P : Log → Type 0} (req : Request) → Ensures State.log R X P (is_monitored c req) (λ b. P)
  unfolding is_monitored
  monitored-Safely req =
      Ensures-if ((is_notify req.mode && req.touch) && c.has_monitor) (λ e. call-Safely c _)
        (λ e. Ensures-pure λ log p. p)

module _ {W : Type 0} (c : Context W) {verify : Bool} where
  open_request-Safely :
      (req : Request) → Safely verify (IsQuiet verify) (open_request c req) (λ t. IsOpen verify)
  unfolding open_request
  open_request-Safely req =
      Ensures-bind {Q = λ ok. IsOpen verify} (send-Safely c _ λ ok. accepted-IsOpen verify _ ok)
        λ ok.
          Ensures-bind {Q = λ t. IsOpen verify}
            (Ensures-if ok (λ e. Ensures-pure λ log o. o) (λ e. Ensures-stop λ log o. o.safe))
            λ t. Ensures-bind (monitored-Safely c req) λ monitored.
              Ensures-bind {Q = λ t. IsOpen verify}
                (Ensures-if monitored (λ e. Ensures-stop λ log o. o.safe)
                  (λ e. Ensures-pure λ log o. o))
                λ t.
                  Ensures-if (is_foreign (runtime_of c.request.env) c.runtime)
                    (λ e. open-fail c (λ log o. o) 2 refl) (λ e. Ensures-pure λ log o. o)

  notify-Safely :
      {A : Type 0} {Q : A → Log → Type 0} (fuel : ℕ) (view : View)
      → Safely verify (IsOpen verify) (notify_user c fuel view) Q
  unfolding notify_user
  notify-Safely fuel view = Ensures-bind (show-Safely c view) λ shown.
      Ensures-bind {Q = λ t. IsOpen verify}
        (Ensures-if shown
          (λ e. Ensures-bind (action-HasHeard c fuel) λ a. Ensures-pure λ log h. h.is_open)
          (λ e. Ensures-pure λ log o. o))
        λ t. Ensures-stop λ log o. o.safe

  confirm-Safely :
      {A : Type 0} {Q : A → Log → Type 0} (fuel : ℕ) (view : View)
      → Safely verify (IsOpen verify) (confirm_user c fuel view) Q
  unfolding confirm_user Safe
  confirm-Safely fuel view = Ensures-bind (open-show_or_fail c (λ log o. o) view) λ t.
      Ensures-bind (next_action-HasHeard c fuel) λ a.
        Ensures-bind {Q = λ t. IsOpen verify}
          (Ensures-if (is_kind a (codes "submit")) (λ e. Ensures-pure λ log h. h.is_open)
            (λ e. open-fail c (λ log h. h.is_open) 1 refl))
          λ t.
            Ensures-bind {Q = λ ok. Safe verify}
              (send-Safely c confirmed λ ok log o. (o.is_opened, o.safe))
              λ ok. Ensures-stop λ log h. h

  answer-Safely :
      (fuel : ℕ) (req : Request) (mode : Mode)
      → Safely {W = W} verify
          (IsOpen verify)
          (elim mode [
            | input ↦ pure tt
            | confirm ↦ confirm_user c fuel (opening_view req)
            | notify ↦ notify_user c fuel (opening_view req)
          ])
          (λ t. IsOpen verify)
  answer-Safely fuel req input = Ensures-pure λ log o. o
  answer-Safely fuel req confirm = confirm-Safely fuel (opening_view req)
  answer-Safely fuel req notify = notify-Safely fuel (opening_view req)

parsed-Safely :
    {W : Type 0} (c : Context W) (o : Option Request)
    → Safely
        (must_verify c o)
        (IsQuiet (must_verify c o))
        (elim o [ none ↦ fail c 2 | some req ↦ pure req ])
        (λ req log. (must_verify c o ≡ must_verify c (some req)) × IsQuiet (must_verify c o) log)
unfolding Safe
parsed-Safely c none = fail-Safely c 2 λ ok log q. ((refl, inl q.is_in), q.safe)
parsed-Safely c (some req) = Ensures-pure λ log q. (refl, q)

start-IsQuiet : (verify : Bool) (log : Log) → log ≡ [] → IsQuiet verify log
unfolding phase Safe
start-IsQuiet verify log e = record { is_in = rw e refl; safe = rw e tt }

module _ {W : Type 0} (c : Context W) where
  sessions_at :
      {verify : Bool} (job : Job) (fuel : ℕ) (view : View)
      → job.verify ≡ verify
      → Safely verify (IsOpen verify) (sessions c job fuel fuel view) (IsFinal verify)
  sessions_at job fuel view e = rw (← e) (sessions-Safely c job fuel fuel view)

  keyed-Safely :
      {verify : Bool} (fuel : ℕ) (req : Request) (found : Key × Job)
      → found.1.verify ≡ verify
      → Safely verify
          (IsOpen verify)
          (lock_hardware c found.1
            >> (sessions c found.1 fuel fuel (opening_view req) >>= λ l.
                deliver c found.1 found.0 l))
          (λ t. Safe verify)
  keyed-Safely fuel req found e = Ensures-bind (lock-Safely c found.1 λ log o. o) λ t.
      Ensures-bind (sessions_at found.1 fuel (opening_view req) e)
        λ l. deliver-Safely c found.1 found.0 l e

  handle-Safely :
      (fuel : ℕ)
      → Safely
          (must_verify c (parse c.request.args c.request.hint))
          (IsQuiet (must_verify c (parse c.request.args c.request.hint)))
          (handle c fuel)
          (λ t. Safe (must_verify c (parse c.request.args c.request.hint)))
  unfolding handle parse_request answer_at_once
  handle-Safely fuel = Ensures-bind (parsed-Safely c (parse c.request.args c.request.hint)) λ req.
      Ensures-given λ e. Ensures-bind (open_request-Safely c req) λ t.
        Ensures-bind (answer-Safely c fuel req req.mode) λ t.
          Ensures-bind (prepare-Safely c req)
            λ found. Ensures-given λ v. keyed-Safely fuel req found (v ∙ sym e)

collapse :
    {W : Type 0} (R : Log → Type 0) (r : Outcome (Unit {0})) (s : State W)
    → Ends State.log R R (λ t. R) (r, s)
    → R s.log
collapse R (done a) s e = e
collapse R returned s e = e
collapse R exhausted s e = e

-- In every run, whatever its environment answers and whatever fuel it has, each event was allowed when
-- it came. Frames are sent in their order. Begin and Reject come while the request is open, Reject only
-- for a generation that is not 0 and while no device has accepted the value. A PIN is tried only on a
-- device of the last enumeration and only if it was entered, by the user or as a secret of the store that
-- is not empty, and not tried since. A value is answered only if it was entered last and, where PINs are
-- verified, accepted since. Commit, Forget and the saving of a preference come only once the adapter has
-- reported the delivery: a Commit only of the value that was delivered, entered last, to be kept and,
-- where PINs are verified, accepted; a Forget only if the value is not to be kept.
pub handle-Safe :
    {W : Type 0} (c : Context W) (fuel : ℕ) (s : State W)
    → s.log ≡ []
    → Safe (must_verify c (parse c.request.args c.request.hint)) (handle c fuel s).1.log
handle-Safe c fuel s e =
    let run = handle c fuel s in
    collapse (Safe _) run.0 run.1 ((handle-Safely c fuel).at s (start-IsQuiet _ s.log e))
