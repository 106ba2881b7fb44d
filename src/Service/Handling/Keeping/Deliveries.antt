-- ===== src/Service/Handling/Keeping/Deliveries.antt =====
-- The loops of `Handle`, internal/service/service.go, and its end keep what calls keep.
use gtkaskpass_yubikey.Base.{ℕ, zero, suc, Bool, Option, none, some, Bytes}
use gtkaskpass_yubikey.Cache.Identity.{Key, Identity}
use gtkaskpass_yubikey.Cache.Store.{Store}
use gtkaskpass_yubikey.Dialog.{Device, View, Action, Verdict, Status}
use gtkaskpass_yubikey.Service.Handler.World.{Ack, Log, Context, Handler, pure}
use gtkaskpass_yubikey.Service.Handler.Attempts.{
  Job, Locals, Round, reselect, again, entered, renew, reject_candidate, enter, ask_value,
  disconnect, show_busy, verify_pin, renew_eligible, discard, refuse, accept, judge, attempt,
  verify_value, continue_round, round, rounds,
}
use gtkaskpass_yubikey.Service.Handler.Sessions.{select_device, look_up, session, sessions}
use gtkaskpass_yubikey.Service.Handler.Delivery.{
  close_window, require, hand_over, commit_if, store_value, settle, save_preference, deliver,
}
use gtkaskpass_yubikey.Service.Handling.Keeping.{Keeps, Closed, keeps_rules, Keeps-bind}
use gtkaskpass_yubikey.Service.Handling.Keeping.Choices.{
  send-Keeps, fail-Keeps, show-Keeps, show_or_fail-Keeps, action-Keeps, next_action-Keeps,
  await_action-Keeps, is_stale-Keeps, check_over-Keeps, check_cancelled-Keeps, discover-Keeps,
  choose_device-Keeps, bind_device-Keeps,
}

module _ {W : Type 0} (c : Context W) {O : Store → Log → Type 0} (closed : Closed c O)
    (job : Job) where
  renew-Keeps : (l : Locals) → Keeps O (renew c job l)
  unfolding renew
  renew-Keeps l = search keeps_rules depth 12

  reject_candidate-Keeps : (l : Locals) → Keeps O (reject_candidate c job l)
  unfolding reject_candidate
  reject_candidate-Keeps l = search keeps_rules depth 12

  enter-Keeps : (l : Locals) (a : Action) → Keeps O (enter c job l a)
  enter-Keeps l a = search (keeps_rules, fail-Keeps) depth 12

  ask_value-Keeps : (fuel : ℕ) (l : Locals) → Keeps O (ask_value c job fuel l)
  unfolding ask_value
  ask_value-Keeps fuel l =
      search (keeps_rules, show_or_fail-Keeps, next_action-Keeps, enter-Keeps) depth 12

  disconnect-Keeps :
      {A : Type 0} (fuel : ℕ) (l : Locals) → Keeps O (disconnect c job {A = A} fuel l)
  unfolding disconnect
  disconnect-Keeps fuel l =
      search (keeps_rules, reject_candidate-Keeps, show-Keeps, await_action-Keeps, fail-Keeps) depth
        12

  show_busy-Keeps : (view : View) → Keeps O (show_busy c job view)
  unfolding show_busy
  show_busy-Keeps view = search (keeps_rules, show-Keeps) depth 12

  verify_pin-Keeps : (d : Device) (value : Bytes) → Keeps O (verify_pin c job d value)
  unfolding verify_pin
  verify_pin-Keeps d value = search keeps_rules depth 12

  renew_eligible-Keeps : (l : Locals) → Keeps O (renew_eligible c job l)
  unfolding renew_eligible
  renew_eligible-Keeps l = search (keeps_rules, renew-Keeps) depth 12

  discard-Keeps : (status : Status) (l : Locals) → Keeps O (discard c job status l)
  unfolding discard
  discard-Keeps status l =
      search (keeps_rules, reject_candidate-Keeps, renew_eligible-Keeps) depth 12

  refuse-Keeps : (fuel : ℕ) (r : Verdict) (l : Locals) → Keeps O (refuse c job fuel r l)
  unfolding refuse
  refuse-Keeps fuel r l =
      search (keeps_rules, discard-Keeps, show_or_fail-Keeps, action-Keeps, fail-Keeps) depth 12

  accept-Keeps : (l : Locals) → Keeps O (accept c job l)
  unfolding accept
  accept-Keeps l = search (keeps_rules, is_stale-Keeps, renew-Keeps) depth 12

  judge-Keeps : (fuel : ℕ) (r : Verdict) (l : Locals) → Keeps O (judge c job fuel r l)
  unfolding judge
  judge-Keeps fuel r l =
      search (keeps_rules, check_cancelled-Keeps, check_over-Keeps, accept-Keeps, refuse-Keeps)
        depth 12

  attempt-Keeps : (fuel : ℕ) (l : Locals) → Keeps O (attempt c job fuel l)
  unfolding attempt
  attempt-Keeps fuel l =
      search
        (
          keeps_rules, discover-Keeps, disconnect-Keeps, show_busy-Keeps, verify_pin-Keeps,
          judge-Keeps,
        )
        depth 12

  verify_value-Keeps : (fuel : ℕ) (l : Locals) → Keeps O (verify_value c job fuel l)
  unfolding verify_value
  verify_value-Keeps fuel l =
      search (keeps_rules, is_stale-Keeps, renew-Keeps, attempt-Keeps) depth 12

  continue_round-Keeps : (fuel : ℕ) (r : Round) → Keeps O (continue_round c job fuel r)
  continue_round-Keeps fuel (reselect v) = search keeps_rules
  continue_round-Keeps fuel (again l) = search keeps_rules
  continue_round-Keeps fuel (entered l) = verify_value-Keeps fuel l

  round-Keeps : (fuel : ℕ) (l : Locals) → Keeps O (round c job fuel l)
  unfolding round
  round-Keeps fuel l =
      search (keeps_rules, check_over-Keeps, ask_value-Keeps, continue_round-Keeps) depth 12

  next_round-Keeps :
      (k : Locals → Handler W Round)
      → ((l : Locals) → Keeps O (k l))
      → (r : Round)
      → Keeps O {W = W}
          (elim r [ reselect v ↦ pure (reselect v) | again l ↦ k l | entered l ↦ pure (entered l) ])
  next_round-Keeps k h (reselect v) = search keeps_rules
  next_round-Keeps k h (again l) = h l
  next_round-Keeps k h (entered l) = search keeps_rules

  rounds-Keeps : (fuel n : ℕ) (l : Locals) → Keeps O (rounds c job fuel n l)
  unfolding rounds
  rounds-Keeps fuel zero l = search keeps_rules
  rounds-Keeps fuel (suc n) l =
      Keeps-bind _ _ (round-Keeps fuel l)
        (next_round-Keeps (rounds c job fuel n) (rounds-Keeps fuel n))

  select_device-Keeps : (fuel : ℕ) (view : View) → Keeps O (select_device c job fuel view)
  unfolding select_device
  select_device-Keeps fuel view =
      search (keeps_rules, choose_device-Keeps, bind_device-Keeps) depth 12

  look_up-Keeps : (found : View × Device × Identity) → Keeps O (look_up c job found)
  unfolding look_up
  look_up-Keeps (view, selected, id) = search (keeps_rules, send-Keeps) depth 12

  session-Keeps : (fuel : ℕ) (view : View) → Keeps O (session c job fuel view)
  unfolding session
  session-Keeps fuel view =
      search (keeps_rules, select_device-Keeps, look_up-Keeps, rounds-Keeps) depth 12

  next_session-Keeps :
      (k : View → Handler W Locals)
      → ((v : View) → Keeps O (k v))
      → (r : Round)
      → Keeps O {W = W} (elim r [ reselect v ↦ k v | again l ↦ pure l | entered l ↦ pure l ])
  next_session-Keeps k h (reselect v) = h v
  next_session-Keeps k h (again l) = search keeps_rules
  next_session-Keeps k h (entered l) = search keeps_rules

  pub sessions-Keeps : (fuel n : ℕ) (view : View) → Keeps O (sessions c job fuel n view)
  unfolding sessions
  sessions-Keeps fuel zero view = search keeps_rules
  sessions-Keeps fuel (suc n) view =
      Keeps-bind _ _ (session-Keeps fuel view)
        (next_session-Keeps (sessions c job fuel n) (sessions-Keeps fuel n))

  commit_if-Keeps : (l : Locals) (id : Option Identity) → Keeps O (commit_if c job l id)
  commit_if-Keeps l none = search keeps_rules
  commit_if-Keeps l (some id) = search keeps_rules depth 12

  store_value-Keeps : (key : Key) (l : Locals) → Keeps O (store_value c job key l)
  unfolding store_value
  store_value-Keeps key l = search (keeps_rules, commit_if-Keeps) depth 12

  settle-Keeps : (key : Key) (l : Locals) → Keeps O (settle c job key l)
  unfolding settle
  settle-Keeps key l = search (keeps_rules, store_value-Keeps, send-Keeps) depth 12

  save_preference-Keeps : (saves : Bool) (l : Locals) → Keeps O (save_preference c job saves l)
  unfolding save_preference
  save_preference-Keeps saves l = search keeps_rules depth 12

  require-Keeps : (ack : Option Ack) → Keeps O (require c ack)
  require-Keeps none = search keeps_rules
  require-Keeps (some ack) = search keeps_rules depth 12

  close_window-Keeps : Keeps O (close_window c)
  unfolding close_window
  close_window-Keeps = search keeps_rules depth 12

  hand_over-Keeps : (value : Bytes) → Keeps O (hand_over c value)
  unfolding hand_over
  hand_over-Keeps value = search (keeps_rules, send-Keeps, require-Keeps) depth 12

  pub deliver-Keeps : (key : Key) (l : Locals) → Keeps O (deliver c job key l)
  unfolding deliver
  deliver-Keeps key l =
      search
        (
          keeps_rules, check_over-Keeps, check_cancelled-Keeps, close_window-Keeps, hand_over-Keeps,
          settle-Keeps, save_preference-Keeps, send-Keeps,
        )
        depth 12
