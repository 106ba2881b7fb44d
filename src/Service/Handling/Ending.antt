-- ===== src/Service/Handling/Ending.antt =====
-- With fuel for the user's actions, the main loop of `Handle` of internal/service/service.go ends.
use gtkaskpass_yubikey.Base.{
  ℕ, suc, ◌+◌, ◌-◌, ◌≤◌, ◌<◌, ◌≡◌, refl, true, false, not, ◌&&◌, Bytes, codes, if◌then◌else◌,
  is_empty, ◌==◌, arith,
}
use gtkaskpass_yubikey.Askpass.{validate}
use gtkaskpass_yubikey.Dialog.{Device, View, Action, Verdict, Status}
use gtkaskpass_yubikey.Service.Handler.World.{Context, pure, ◌>>=◌}
use gtkaskpass_yubikey.Service.Handler.Windows.{is_kind}
use gtkaskpass_yubikey.Service.Handler.Attempts.{
  Job, Locals, Round, reselect, again, entered, is_present, is_accepted, is_rejected, is_invalid,
  renew, reject_candidate, enter, ask_value, disconnect, show_busy, verify_pin, renew_eligible,
  discard, refuse, accept, judge, attempt, verify_value, continue_round,
}
use gtkaskpass_yubikey.Service.Handling.Rules.{
  Ensures-pure, Ensures-stop, Ensures-if, Ensures-bind, Ensures-from,
}
use gtkaskpass_yubikey.Service.Handling.Patience.{
  IsPatient, Lowers, Halts, call-Halts, note-Halts, has_window-Halts, fail-Halts, show-Halts,
  show_or_fail-Halts, is_stale-Halts, begin_cache-Halts, reject_cache-Halts, check_over-Halts,
  check_cancelled-Halts,
}
use gtkaskpass_yubikey.Service.Handling.Halting.{
  Below, lowers, action-Halts, next_action-Halts, await_action-Halts, discover-Halts,
}

-- A round that starts with a value takes no action.
abbrev pub weight : Locals → ℕ
weight l = if is_empty l.value then 0 else 1

-- After a round; `b'` is what is left of `b` once the value is there.
abbrev pub Left : (b b' : ℕ) → Round → ℕ → Type 0
Left b b' (reselect v) n = suc n < b
Left b b' (again l) n = (is_empty l.value ≡ true) × (n < b')
Left b b' (entered l) n = n < b'

abbrev pub LeftAtEnd : ℕ → Round → ℕ → Type 0
LeftAtEnd b (reselect v) n = suc n < b
LeftAtEnd b (again l) n = n < b
LeftAtEnd b (entered l) n = n < b

module _ {W : Type 0} (c : Context W) (job : Job) {patience : W → ℕ}
    (h : IsPatient c.env patience) where
  renew-Halts :
      {P : ℕ → Type 0} (l : Locals)
      → Lowers P
      → Halts patience P (renew c job l) (λ l' n. (is_empty l'.value ≡ true) × P n)
  unfolding renew
  renew-Halts l lower =
      Ensures-bind (begin_cache-Halts c h lower l.id) λ r. Ensures-pure λ n p. (refl, p)

  reject-Halts :
      {P : ℕ → Type 0} (l : Locals)
      → Lowers P
      → Halts patience P (reject_candidate c job l) (λ t. P)
  unfolding reject_candidate
  reject-Halts l lower =
      Ensures-if (l.candidate.generation == 0) (λ e. Ensures-pure λ n p. p)
        (λ e. reject_cache-Halts c h lower l.id l.candidate.generation)

  -- The value is cleared.
  retry-Halts :
      (b b' : ℕ) (l : Locals)
      → Halts patience (Below b') (renew c job l >>= λ l'. pure (again l')) (Left b b')
  retry-Halts b b' l = Ensures-bind (renew-Halts l (lowers b')) λ l'. Ensures-pure λ n p. p

  enter-Halts :
      (b : ℕ) (l : Locals) (a : Action)
      → is_empty l.value ≡ true
      → Halts patience (λ n. suc n < b) (enter c job l a) (Left b (b - 1))
  enter-Halts b l a blank =
      Ensures-if (is_kind a (codes "change") && job.verify) (λ e. Ensures-pure λ n p. p)
        λ e.
          Ensures-if (not (is_kind a (codes "submit")))
            (λ e. fail-Halts c h (λ i n le p. omega arith) 1)
            λ e.
              Ensures-if (not (validate a.value)) (λ e. Ensures-pure λ n p. (blank, omega arith))
                (λ e. Ensures-pure λ n p. omega arith)

  pub ask_value-Halts :
      (b fuel : ℕ) (l : Locals)
      → b ≤ fuel
      → Halts patience (Below b) (ask_value c job fuel l) (Left b (b + weight l - 1))
  unfolding ask_value
  ask_value-Halts b fuel l le =
      Ensures-if (not (is_empty l.value)) (λ full. Ensures-pure λ n p. ground arith)
        λ blank. Ensures-bind (show_or_fail-Halts c h (lowers b) l.view) λ t.
          Ensures-bind (next_action-Halts c h b fuel le)
            λ a. rw (weightless l blank) (enter-Halts b l a (ground arith))
    where
      weightless : (l : Locals) → not (is_empty l.value) ≡ false → b + weight l - 1 ≡ b - 1
      weightless l e = ground arith

  disconnect-Halts :
      {A : Type 0} {Q : A → ℕ → Type 0} (b fuel : ℕ) (l : Locals)
      → b ≤ fuel
      → Halts patience (Below b) (disconnect c job fuel l) Q
  unfolding disconnect
  disconnect-Halts b fuel l le = Ensures-bind (reject-Halts l (lowers b)) λ t.
      Ensures-bind (show-Halts c h (lowers b) _)
        λ shown. Ensures-bind (await_action-Halts c h b fuel le) λ t. fail-Halts c h (lowers b) 1

  show_busy-Halts :
      (b : ℕ) (view : View) → Halts patience (Below b) (show_busy c job view) (λ t. Below b)
  unfolding show_busy
  show_busy-Halts b view = Ensures-bind (has_window-Halts c h (lowers b)) λ open_window.
      Ensures-bind
        (Ensures-if open_window (λ e. show-Halts c h (lowers b) _) (λ e. Ensures-pure λ n p. p))
        λ shown. Ensures-if shown (λ e. Ensures-pure λ n p. p) (λ e. Ensures-stop λ n p. tt)

  verify_pin-Halts :
      (b : ℕ) (d : Device) (value : Bytes)
      → Halts patience (Below b) (verify_pin c job d value) (λ r. Below b)
  unfolding verify_pin
  verify_pin-Halts b d value =
      Ensures-bind (call-Halts c h (lowers b) _ (h.verifies_le d value))
        λ r. Ensures-bind (note-Halts c h (lowers b) _) λ t. Ensures-pure λ n p. p

  discard-Halts :
      (b : ℕ) (status : Status) (l : Locals)
      → Halts patience
          (Below b)
          (discard c job status l)
          (λ l' n. (is_empty l'.value ≡ true) × (n < b))
  unfolding discard renew_eligible
  discard-Halts b status l =
      Ensures-if (not (is_rejected status)) (λ e. Ensures-pure λ n p. (refl, p))
        λ e. Ensures-bind (reject-Halts l (lowers b)) λ t.
          Ensures-if job.eligible (λ e. renew-Halts _ (lowers b))
            (λ e. Ensures-pure λ n p. (refl, p))

  refuse-Halts :
      (b b' fuel : ℕ) (r : Verdict) (l : Locals)
      → b' ≤ fuel
      → Halts patience (Below b') (refuse c job fuel r l) (Left b b')
  unfolding refuse
  refuse-Halts b b' fuel r l le = Ensures-bind (discard-Halts b' r.status l) λ l'.
      Ensures-if (is_invalid r.status) (λ e. Ensures-pure λ n p. p)
        (λ e.
          Ensures-from (λ n p. p.1)
            (Ensures-bind (show_or_fail-Halts c h (lowers b') _) λ t.
              Ensures-bind (action-Halts c h b' fuel le)
                λ a. fail-Halts c h (λ i n le p. omega arith) 1))

  accept-Halts : (b b' : ℕ) (l : Locals) → Halts patience (Below b') (accept c job l) (Left b b')
  unfolding accept
  accept-Halts b b' l =
      Ensures-bind (is_stale-Halts c h (lowers b') l.id l.candidate)
        λ stale. Ensures-if stale (λ e. retry-Halts b b' l) (λ e. Ensures-pure λ n p. p)

  attempt-Halts :
      (b b' fuel : ℕ) (l : Locals)
      → b' ≤ fuel
      → Halts patience (Below b') (attempt c job fuel l) (Left b b')
  unfolding attempt judge
  attempt-Halts b b' fuel l le = Ensures-bind (discover-Halts c h (Below b') (lowers b')) λ devices.
      Ensures-if (not (is_present l.selected devices)) (λ e. disconnect-Halts b' fuel l le)
        λ e. Ensures-bind (show_busy-Halts b' l.view) λ t.
          Ensures-bind (verify_pin-Halts b' l.selected l.value) λ r.
            Ensures-bind (check_cancelled-Halts c h (lowers b')) λ t.
              Ensures-bind (check_over-Halts c h (lowers b')) λ t.
                Ensures-if (is_accepted r.status) (λ e. accept-Halts b b' l)
                  (λ e. refuse-Halts b b' fuel r l le)

  verify_value-Halts :
      (b b' fuel : ℕ) (l : Locals)
      → b' ≤ fuel
      → Halts patience (Below b') (verify_value c job fuel l) (Left b b')
  unfolding verify_value
  verify_value-Halts b b' fuel l le =
      Ensures-if (not job.verify) (λ e. Ensures-pure λ n p. p)
        λ e.
          Ensures-bind (is_stale-Halts c h (lowers b') l.id l.candidate)
            λ stale. Ensures-if stale (λ e. retry-Halts b b' l) (λ e. attempt-Halts b b' fuel l le)

  pub continue_round-Halts :
      (b b' fuel : ℕ) (r : Round)
      → b' ≤ fuel
      → Halts patience (Left b b' r) (continue_round c job fuel r) (Left b b')
  continue_round-Halts b b' fuel (reselect v) le = Ensures-pure λ n p. p
  continue_round-Halts b b' fuel (again l) le = Ensures-pure λ n p. p
  continue_round-Halts b b' fuel (entered l) le = verify_value-Halts b b' fuel l le
