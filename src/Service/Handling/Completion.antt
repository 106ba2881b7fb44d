-- ===== src/Service/Handling/Completion.antt =====
-- With fuel for the user's actions, `Handle` of internal/service/service.go ends: the whole of it.
use gtkaskpass_yubikey.Base.{
  ℕ, suc, ◌+◌, ◌*◌, ◌≤◌, ◌≢◌, not, ◌&&◌, ◌||◌, Option, none, some, Bytes, codes, decide, is_empty,
  ◌==◌, arith,
}
use gtkaskpass_yubikey.Text.Paths.{is_abs}
use gtkaskpass_yubikey.Askpass.{Request, Mode, input, confirm, notify, parse}
use gtkaskpass_yubikey.Cache.Identity.{Identity, Key, Identity-discrete}
use gtkaskpass_yubikey.Service.Handler.World.{
  Ack, State, Context, Outcome, done, returned, exhausted, pure,
}
use gtkaskpass_yubikey.Service.Handler.Windows.{is_kind, fail}
use gtkaskpass_yubikey.Service.Handler.Opening.{
  is_notify, is_foreign, runtime_of, opening_view, is_monitored, open_request, parse_request,
  notify_user, confirm_user, answer_at_once,
}
use gtkaskpass_yubikey.Service.Handler.Attempts.{Job, Locals}
use gtkaskpass_yubikey.Service.Handler.Sessions.{absolute_key, prepare, lock_hardware}
use gtkaskpass_yubikey.Service.Handler.Delivery.{
  is_delivered, close_window, require, hand_over, commit_if, store_value, settle, save_preference,
  deliver,
}
use gtkaskpass_yubikey.Service.Handler.{handle}
use gtkaskpass_yubikey.Service.Handling.Rules.{
  Ends, Ensures-pure, Ensures-stop, Ensures-if, Ensures-bind,
}
use gtkaskpass_yubikey.Service.Handling.Patience.{
  IsPatient, Halts, Ever, Never, call-Halts, note-Halts, has_window-Halts, send-Halts, fail-Halts,
  show-Halts, show_or_fail-Halts, commit_cache-Halts, forget_cache-Halts, check_over-Halts,
  check_cancelled-Halts,
}
use gtkaskpass_yubikey.Service.Handling.Halting.{Below, lowers, action-Halts, next_action-Halts}
use gtkaskpass_yubikey.Service.Handling.Rounds.{sessions-Halts}

module _ {W : Type 0} (c : Context W) {patience : W → ℕ} (h : IsPatient c.env patience)
    (b : ℕ) where
  opened-Halts : (req : Request) → Halts patience (Below b) (open_request c req) (λ t. Below b)
  unfolding open_request is_monitored
  opened-Halts req = Ensures-bind (send-Halts c h (lowers b) _) λ ok.
      Ensures-bind {Q = λ t. Below b}
        (Ensures-if ok (λ e. Ensures-pure λ n p. p) (λ e. Ensures-stop λ n p. tt))
        λ t.
          Ensures-bind {Q = λ m. Below b}
            (Ensures-if ((is_notify req.mode && req.touch) && c.has_monitor)
              (λ e. call-Halts c h (lowers b) _ h.monitored_le) (λ e. Ensures-pure λ n p. p))
            λ monitored.
              Ensures-bind {Q = λ t. Below b}
                (Ensures-if monitored (λ e. Ensures-stop λ n p. tt) (λ e. Ensures-pure λ n p. p))
                λ t.
                  Ensures-if (is_foreign (runtime_of c.request.env) c.runtime)
                    (λ e. fail-Halts c h (lowers b) 2) (λ e. Ensures-pure λ n p. p)

  parsed-Halts :
      (o : Option Request)
      → Halts {W = W} {A = Request} patience
          (Below b)
          (elim o [ none ↦ fail c 2 | some req ↦ pure req ])
          (λ req. Below b)
  parsed-Halts none = fail-Halts c h (lowers b) 2
  parsed-Halts (some req) = Ensures-pure λ n p. p

  answer-Halts :
      (fuel : ℕ) (req : Request) (mode : Mode)
      → b ≤ fuel
      → Halts patience
          (Below b)
          (elim mode [
            | input ↦ pure tt
            | confirm ↦ confirm_user c fuel (opening_view req)
            | notify ↦ notify_user c fuel (opening_view req)
          ])
          (λ t. Below b)
  unfolding confirm_user notify_user
  answer-Halts fuel req input le = Ensures-pure λ n p. p
  answer-Halts fuel req confirm le =
      Ensures-bind (show_or_fail-Halts c h (lowers b) (opening_view req)) λ t.
        Ensures-bind (next_action-Halts c h b fuel le) λ a.
          Ensures-bind {Q = λ t. Below b}
            (Ensures-if (is_kind a (codes "submit")) (λ e. Ensures-pure λ n p. omega arith)
              (λ e. fail-Halts c h (λ i n le p. omega arith) 1))
            λ t. Ensures-bind (send-Halts c h (lowers b) _) λ ok. Ensures-stop λ n p. tt
  answer-Halts fuel req notify le =
      Ensures-bind (show-Halts c h (lowers b) (opening_view req)) λ shown.
        Ensures-bind {Q = λ t. Below b}
          (Ensures-if shown
            (λ e. Ensures-bind (action-Halts c h b fuel le) λ a. Ensures-pure λ n p. omega arith)
            (λ e. Ensures-pure λ n p. p))
          λ t. Ensures-stop λ n p. tt

  key-Halts : (key : Key) → Halts patience (Below b) (absolute_key c key) (λ found. Below b)
  unfolding absolute_key
  key-Halts key =
      Ensures-if (is_empty key.path || is_abs key.path) (λ e. Ensures-pure λ n p. p)
        (λ e.
          Ensures-bind (call-Halts c h (lowers b) _ (h.directory_le _)) λ d. Ensures-pure λ n p. p)

  prepare-Halts : (req : Request) → Halts patience (Below b) (prepare c req) (λ found. Below b)
  unfolding prepare
  prepare-Halts req =
      Ensures-bind (key-Halts _) λ found.
        Ensures-bind (call-Halts c h (lowers b) _ h.files_le) λ files. Ensures-pure λ n p. p

  lock-Halts : (job : Job) → Halts patience (Below b) (lock_hardware c job) (λ t. Below b)
  unfolding lock_hardware
  lock-Halts job =
      Ensures-bind {Q = λ m. Below b}
        (Ensures-if job.verify (λ e. call-Halts c h (lowers b) _ h.acquires_le)
          (λ e. Ensures-pure λ n p. p))
        λ locked. Ensures-if locked (λ e. Ensures-pure λ n p. p) (λ e. Ensures-stop λ n p. tt)

  require-Halts : (ack : Option Ack) → Halts patience (Below b) (require c ack) (λ t. Below b)
  require-Halts none = Ensures-stop λ n p. tt
  require-Halts (some ack) =
      Ensures-if (is_delivered ack) (λ e. Ensures-pure λ n p. p) (λ e. Ensures-stop λ n p. tt)

  hand_over-Halts : (value : Bytes) → Halts patience (Below b) (hand_over c value) (λ t. Below b)
  unfolding hand_over
  hand_over-Halts value = Ensures-bind (send-Halts c h (lowers b) _) λ ok.
      Ensures-bind {Q = λ t. Below b}
        (Ensures-if ok (λ e. Ensures-pure λ n p. p) (λ e. Ensures-stop λ n p. tt))
        λ t.
          Ensures-bind (call-Halts c h (lowers b) _ h.acknowledges_le)
            λ ack. Ensures-bind (note-Halts c h (lowers b) _) λ t. require-Halts ack

  commit_if-Halts :
      (job : Job) (l : Locals) (id : Option Identity)
      → Halts patience (Below b) (commit_if c job l id) (λ ok. Below b)
  commit_if-Halts job l none = Ensures-pure λ n p. p
  commit_if-Halts job l (some id) =
      Ensures-if (decide (Identity-discrete id l.id)) (λ e. commit_cache-Halts c h (lowers b) _ _ _)
        (λ e. Ensures-pure λ n p. p)

  store-Halts :
      (job : Job) (key : Key) (l : Locals)
      → Halts patience (Below b) (store_value c job key l) (λ ok. Below b)
  unfolding store_value
  store-Halts job key l =
      Ensures-if (not l.remember)
        (λ e. Ensures-bind (forget_cache-Halts c h (lowers b) _) λ t. Ensures-pure λ n p. p)
        λ e.
          Ensures-if (is_empty l.value) (λ e. Ensures-pure λ n p. p)
            λ e.
              Ensures-bind (call-Halts c h (lowers b) _ h.files_le) λ files. commit_if-Halts job l _

  settle-Halts :
      (job : Job) (key : Key) (l : Locals)
      → Halts patience (Below b) (settle c job key l) (λ ok. Below b)
  unfolding settle
  settle-Halts job key l =
      Ensures-if (l.candidate.token == 0) (λ e. Ensures-pure λ n p. p)
        λ e. Ensures-bind (store-Halts job key l) λ stored.
          Ensures-bind {Q = λ ok. Below b}
            (Ensures-if c.request.trace (λ e. send-Halts c h (lowers b) _)
              (λ e. Ensures-pure λ n p. p))
            λ ok. Ensures-pure λ n p. p

  deliver-Halts :
      (job : Job) (key : Key) (l : Locals)
      → Halts patience (Below b) (deliver c job key l) (λ t. Below b)
  unfolding deliver close_window save_preference
  deliver-Halts job key l = Ensures-bind (check_over-Halts c h (lowers b)) λ t.
      Ensures-bind (check_cancelled-Halts c h (lowers b)) λ t.
        Ensures-bind
          (Ensures-bind (has_window-Halts c h (lowers b)) λ open_window.
            Ensures-if open_window
              (λ e.
                Ensures-bind (call-Halts c h (lowers b) _ (h.shows_le _))
                  λ ok. Ensures-pure λ n p. p)
              (λ e. Ensures-pure λ n p. p))
          λ t. Ensures-bind (hand_over-Halts l.value) λ t.
            Ensures-bind (settle-Halts job key l) λ saves.
              Ensures-bind
                (Ensures-if (not (saves && c.has_preferences)) (λ e. Ensures-pure λ n p. p)
                  (λ e.
                    Ensures-bind (call-Halts c h (lowers b) _ (h.saves_le _ _))
                      λ ok. note-Halts c h (lowers b) _))
                λ t. Ensures-bind (send-Halts c h (lowers b) _) λ ok. Ensures-pure λ n p. p

  handle-Halts :
      (fuel : ℕ) → 2 * b + 1 ≤ fuel → Halts patience (Below b) (handle c fuel) (λ t. Below b)
  unfolding handle parse_request answer_at_once
  handle-Halts fuel le = Ensures-bind (parsed-Halts (parse c.request.args c.request.hint)) λ req.
      Ensures-bind (opened-Halts req) λ t.
        Ensures-bind (answer-Halts fuel req req.mode (omega arith)) λ t.
          Ensures-bind (prepare-Halts req) λ found. Ensures-bind (lock-Halts found.1) λ t.
            Ensures-bind
              (sessions-Halts c found.1 h b fuel fuel (opening_view req) le (omega arith))
              λ l. deliver-Halts found.1 found.0 l

not_exhausted :
    {W : Type 0} (patience : W → ℕ) (Q : Unit {0} → ℕ → Type 0) (r : Outcome (Unit {0}))
    (s : State W)
    → Ends (λ s. patience s.world) Ever Never Q (r, s)
    → r ≢ exhausted
not_exhausted patience Q (done a) s e p = ground arith
not_exhausted patience Q returned s e p = ground arith
not_exhausted patience Q exhausted s e p = e

-- If the user takes finitely many actions, as many as `patience` says, then the handler ends by itself:
-- fuel of twice that number and three more is never exhausted.
pub handle-ends :
    {W : Type 0} (c : Context W) (patience : W → ℕ) (s : State W) (fuel : ℕ)
    → IsPatient c.env patience
    → 2 * patience s.world + 3 ≤ fuel
    → (handle c fuel s).0 ≢ exhausted
handle-ends c patience s fuel h enough =
    let run = handle c fuel s in
    not_exhausted patience (λ t. Below (suc (patience s.world))) run.0 run.1
      ((handle-Halts c h (suc (patience s.world)) fuel (omega arith)).at s (omega arith))
