-- ===== src/Service/Handling/Attempts.antt =====
-- The events of the main loop, Service/Handler/Attempts.
use gtkaskpass_yubikey.Base.{
  ℕ, zero, suc, ◌≡◌, refl, sym, ◌∙◌, true, not, ◌&&◌, some, codes, is_empty, ◌==◌, inl, inr, arith,
}
use gtkaskpass_yubikey.Askpass.{validate}
use gtkaskpass_yubikey.Dialog.{View, Action, Verdict, Status}
use gtkaskpass_yubikey.Service.Handler.World.{Log, Context, tried, Handler, pure}
use gtkaskpass_yubikey.Service.Handler.Windows.{is_kind}
use gtkaskpass_yubikey.Service.Handler.Attempts.{
  Job, Locals, Round, reselect, again, entered, is_among, is_present, is_accepted, is_rejected,
  is_invalid, renew, reject_candidate, enter, ask_value, disconnect, show_busy, verify_pin,
  renew_eligible, discard, refuse, accept, judge, attempt, verify_value, continue_round, round,
  rounds,
}
use gtkaskpass_yubikey.Service.Handling.Rules.{
  Ensures-pure, Ensures-stop, Ensures-out_of_fuel, Ensures-if, Ensures-bind, Ensures-from,
}
use gtkaskpass_yubikey.Service.Handling.Trace.{IsOpen, Safely, connected}
use gtkaskpass_yubikey.Service.Handling.Windows.{
  HasHeard, call-Safely, note-Safely, has_window-Safely, show-Safely, is_stale-Safely,
  reject_cache-Safely, begin_cache-Safely, open-fail, open-check_over, open-check_cancelled,
  open-show_or_fail, next_action-HasHeard, action-HasHeard, await_action-IsOpen,
}
use gtkaskpass_yubikey.Service.Handling.Devices.{discover-Safely}
use gtkaskpass_yubikey.Service.Handling.Entered.{
  IsUnvouched, found-IsUnvouched, tried-IsUnvouched, rejected-IsOpen, IsCleared, IsEntered, IsLoop,
  IsTried, AfterRound, AfterLoop, AfterEntry, HasFound, cleared-IsLoop, heard-IsEntered,
  found-HasFound, tried-IsTried, begun-IsOpen, vouched-false, vouched-some,
}

module _ {W : Type 0} (c : Context W) (job : Job) where
  renew-Safely :
      {P : Log → Type 0} (l : Locals)
      → ((log : Log) → P log → IsOpen job.verify log)
      → Safely job.verify P (renew c job l) (IsCleared job.verify)
  unfolding renew
  renew-Safely l opens =
      Ensures-bind
        (begin_cache-Safely c l.id λ r log p. begun-IsOpen job.verify l.id r log (opens log p))
        λ r. Ensures-pure λ log o. record { is_open = o; is_cleared = refl }

  reject-Safely :
      (l : Locals)
      → Safely job.verify
          (IsUnvouched job.verify)
          (reject_candidate c job l)
          (λ t. IsOpen job.verify)
  unfolding reject_candidate
  reject-Safely l =
      Ensures-if (l.candidate.generation == 0) (λ e. Ensures-pure λ log h. h.is_open)
        (λ e.
          reject_cache-Safely c l.id l.candidate.generation
            λ log h. rejected-IsOpen job.verify l.id l.candidate.generation log e h)

  enter-Safely :
      (l : Locals) (a : Action)
      → is_empty l.value ≡ true
      → Safely job.verify (HasHeard job.verify (some a)) (enter c job l a) (AfterEntry job.verify)
  enter-Safely l a blank =
      Ensures-if (is_kind a (codes "change") && job.verify) (λ e. Ensures-pure λ log h. h.is_open)
        λ e.
          Ensures-if (not (is_kind a (codes "submit")))
            (λ e. open-fail c (λ log h. h.is_open) 1 refl)
            λ submits.
              Ensures-if (not (validate a.value))
                (λ e. Ensures-pure λ log h. record { is_open = h.is_open; held = inl blank })
                (λ e. Ensures-pure λ log h. heard-IsEntered job.verify l a log (ground arith) h)

  held-IsEntered :
      (l : Locals) (log : Log)
      → not (is_empty l.value) ≡ true
      → IsLoop job.verify l log
      → IsEntered job.verify l log
  held-IsEntered l log full h = elim h.held [
    | inl e ↦ absurd (ground arith)
    | inr p ↦ record { is_open = h.is_open; entered = p.0; fresh = p.1 }
  ]

  ask_value-Safely :
      (fuel : ℕ) (l : Locals)
      → Safely job.verify (IsLoop job.verify l) (ask_value c job fuel l) (AfterEntry job.verify)
  unfolding ask_value
  ask_value-Safely fuel l =
      Ensures-if (not (is_empty l.value))
        (λ full. Ensures-pure λ log h. held-IsEntered l log full h)
        λ e.
          Ensures-from (λ log h. h.is_open)
            (Ensures-bind (open-show_or_fail c (λ log o. o) l.view)
              λ t. Ensures-bind (next_action-HasHeard c fuel) λ a. enter-Safely l a (ground arith))

  disconnect-Safely :
      {A : Type 0} {Q : A → Log → Type 0} (fuel : ℕ) (l : Locals)
      → Safely job.verify (IsUnvouched job.verify) (disconnect c job fuel l) Q
  unfolding disconnect
  disconnect-Safely fuel l = Ensures-bind (reject-Safely l) λ t.
      Ensures-bind (show-Safely c _)
        λ b. Ensures-bind (await_action-IsOpen c fuel) λ t. open-fail c (λ log o. o) 1 refl

  show_busy-Safely :
      {P : Log → Type 0} (view : View)
      → ((log : Log) → P log → IsOpen job.verify log)
      → Safely job.verify P (show_busy c job view) (λ t. P)
  unfolding show_busy
  show_busy-Safely view opens = Ensures-bind (has_window-Safely c) λ b.
      Ensures-bind (Ensures-if b (λ e. show-Safely c _) (λ e. Ensures-pure λ log p. p)) λ shown.
        Ensures-if shown (λ e. Ensures-pure λ log p. p)
          (λ e. Ensures-stop λ log p. (opens log p).safe)

  verify_pin-Safely :
      (l : Locals)
      → Safely job.verify
          (λ log. IsEntered job.verify l log × (is_among l.selected (connected log) ≡ true))
          (verify_pin c job l.selected l.value)
          (IsTried job.verify l)
  unfolding verify_pin
  verify_pin-Safely l = Ensures-bind (call-Safely c _) λ r.
      Ensures-bind
        (note-Safely c (tried l.selected l.value r)
          λ log h. tried-IsTried job.verify l r log h.0 h.1)
        λ t. Ensures-pure λ log h. h

  discard-Safely :
      (status : Status) (l : Locals)
      → Safely job.verify (IsUnvouched job.verify) (discard c job status l) (IsCleared job.verify)
  unfolding discard renew_eligible
  discard-Safely status l =
      Ensures-if (not (is_rejected status))
        (λ e. Ensures-pure λ log h. record { is_open = h.is_open; is_cleared = refl })
        λ e. Ensures-bind (reject-Safely l) λ t.
          Ensures-if job.eligible (λ e. renew-Safely _ λ log o. o)
            (λ e. Ensures-pure λ log o. record { is_open = o; is_cleared = refl })

  refuse-Safely :
      (fuel : ℕ) (r : Verdict) (l : Locals)
      → Safely job.verify (IsUnvouched job.verify) (refuse c job fuel r l) (AfterRound job.verify)
  unfolding refuse
  refuse-Safely fuel r l = Ensures-bind (discard-Safely r.status l) λ l'.
      Ensures-if (is_invalid r.status)
        (λ e. Ensures-pure λ log h. record { is_open = h.is_open; held = inl h.is_cleared })
        (λ e.
          Ensures-from (λ log h. h.is_open)
            (Ensures-bind (open-show_or_fail c (λ log o. o) _) λ t.
              Ensures-bind (action-HasHeard c fuel) λ a. open-fail c (λ log h. h.is_open) 1 refl))

  accept-Safely :
      (r : Verdict) (l : Locals)
      → is_accepted r.status ≡ true
      → Safely job.verify (IsTried job.verify l r) (accept c job l) (AfterRound job.verify)
  unfolding accept
  accept-Safely r l e = Ensures-bind (is_stale-Safely c l.id l.candidate) λ stale.
      Ensures-if stale
        (λ gone.
          Ensures-bind (renew-Safely l λ log h. h.is_open)
            λ l'. Ensures-pure λ log h. cleared-IsLoop job.verify l' log h)
        (λ holds. Ensures-pure λ log h. record {
          is_open = h.is_open;
          is_entered = h.entered;
          is_vouched = vouched-some job.verify l.selected log (h.verdict ∙ rw e refl);
        })

  judge-Safely :
      (fuel : ℕ) (r : Verdict) (l : Locals)
      → Safely job.verify (IsTried job.verify l r) (judge c job fuel r l) (AfterRound job.verify)
  unfolding judge
  judge-Safely fuel r l = Ensures-bind (open-check_cancelled c λ log h. h.is_open) λ t.
      Ensures-bind (open-check_over c λ log h. h.is_open) λ t.
        Ensures-if (is_accepted r.status) (accept-Safely r l) λ e.
          Ensures-from (λ log h. tried-IsUnvouched job.verify l r log e h) (refuse-Safely fuel r l)

  attempt-Safely :
      (fuel : ℕ) (l : Locals)
      → Safely job.verify (IsEntered job.verify l) (attempt c job fuel l) (AfterRound job.verify)
  unfolding attempt
  attempt-Safely fuel l =
      Ensures-bind {Q = HasFound job.verify l} (discover-Safely c (found-HasFound job.verify l))
        λ devices.
          Ensures-if (not (is_present l.selected devices))
            (λ e.
              Ensures-from (λ log h. found-IsUnvouched job.verify l devices log h)
                (disconnect-Safely fuel l))
            (λ e.
              Ensures-from (λ log h. (h.is_entered, sym h.found ∙ ground arith))
                (Ensures-bind (show_busy-Safely l.view λ log h. h.0.is_open)
                  λ t. Ensures-bind (verify_pin-Safely l) λ r. judge-Safely fuel r l))

  verify_value-Safely :
      (fuel : ℕ) (l : Locals)
      → Safely job.verify
          (IsEntered job.verify l)
          (verify_value c job fuel l)
          (AfterRound job.verify)
  unfolding verify_value
  verify_value-Safely fuel l =
      Ensures-if (not job.verify)
        (λ e. Ensures-pure λ log h. record {
          is_open = h.is_open;
          is_entered = h.entered;
          is_vouched = vouched-false job.verify l.selected log e;
        })
        (λ e. Ensures-bind (is_stale-Safely c l.id l.candidate) λ stale.
          Ensures-if stale
            (λ gone.
              Ensures-bind (renew-Safely l λ log h. h.is_open)
                λ l'. Ensures-pure λ log h. cleared-IsLoop job.verify l' log h)
            (λ holds. attempt-Safely fuel l))

  continue_round-Safely :
      (fuel : ℕ) (r : Round)
      → Safely job.verify
          (AfterEntry job.verify r)
          (continue_round c job fuel r)
          (AfterRound job.verify)
  continue_round-Safely fuel (reselect v) = Ensures-pure λ log o. o
  continue_round-Safely fuel (again l) = Ensures-pure λ log h. h
  continue_round-Safely fuel (entered l) = verify_value-Safely fuel l

  round-Safely :
      (fuel : ℕ) (l : Locals)
      → Safely job.verify (IsLoop job.verify l) (round c job fuel l) (AfterRound job.verify)
  unfolding round
  round-Safely fuel l =
      Ensures-bind (open-check_over c λ log h. h.is_open)
        λ t. Ensures-bind (ask_value-Safely fuel l) λ r. continue_round-Safely fuel r

  next-Safely :
      (k : Locals → Handler W Round)
      → ((l : Locals) → Safely job.verify (IsLoop job.verify l) (k l) (AfterLoop job.verify))
      → (r : Round)
      → Safely {W = W} job.verify
          (AfterRound job.verify r)
          (elim r [ reselect v ↦ pure (reselect v) | again l ↦ k l | entered l ↦ pure (entered l) ])
          (AfterLoop job.verify)
  next-Safely k h (reselect v) = Ensures-pure λ log o. o
  next-Safely k h (again l) = h l
  next-Safely k h (entered l) = Ensures-pure λ log o. o

  pub rounds-Safely :
      (fuel n : ℕ) (l : Locals)
      → Safely job.verify (IsLoop job.verify l) (rounds c job fuel n l) (AfterLoop job.verify)
  unfolding rounds
  rounds-Safely fuel zero l = Ensures-out_of_fuel λ log h. h.is_open.safe
  rounds-Safely fuel (suc n) l =
      Ensures-bind (round-Safely fuel l)
        (next-Safely (λ l'. rounds c job fuel n l') (λ l'. rounds-Safely fuel n l'))
