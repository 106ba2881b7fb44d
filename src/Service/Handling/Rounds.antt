-- ===== src/Service/Handling/Rounds.antt =====
-- With fuel for the user's actions, `Handle` of internal/service/service.go ends: its loops, and the
-- whole of it.
use gtkaskpass_yubikey.Base.{ℕ, zero, suc, ◌+◌, ◌-◌, ◌*◌, ◌≤◌, ◌≡◌, true, not, is_empty, arith}
use gtkaskpass_yubikey.Cache.Identity.{Identity}
use gtkaskpass_yubikey.Dialog.{Device, View}
use gtkaskpass_yubikey.Service.Handler.World.{Context, Handler, pure}
use gtkaskpass_yubikey.Service.Handler.Attempts.{
  Job, Locals, Round, reselect, again, entered, round, rounds,
}
use gtkaskpass_yubikey.Service.Handler.Sessions.{select_device, look_up, session, sessions}
use gtkaskpass_yubikey.Service.Handling.Rules.{
  Ensures-pure, Ensures-out_of_fuel, Ensures-if, Ensures-bind, Ensures-from, Ensures-to,
}
use gtkaskpass_yubikey.Service.Handling.Patience.{
  IsPatient, Halts, send-Halts, begin_cache-Halts, check_over-Halts,
}
use gtkaskpass_yubikey.Service.Handling.Halting.{
  Below, lowers, choose_device-Halts, bind_device-Halts,
}
use gtkaskpass_yubikey.Service.Handling.Ending.{
  weight, Left, LeftAtEnd, ask_value-Halts, continue_round-Halts,
}

weight_le : (l : Locals) → weight l ≤ 1
weight_le l = ground arith

weight-cleared : (l : Locals) → is_empty l.value ≡ true → weight l ≡ 0
weight-cleared l e = ground arith

module _ {W : Type 0} (c : Context W) (job : Job) {patience : W → ℕ}
    (h : IsPatient c.env patience) where
  round-Halts :
      (b fuel : ℕ) (l : Locals)
      → b ≤ fuel
      → Halts patience (Below b) (round c job fuel l) (Left b (b + weight l - 1))
  unfolding round
  round-Halts b fuel l le = Ensures-bind (check_over-Halts c h (lowers b)) λ t.
      Ensures-bind (ask_value-Halts c job h b fuel l le)
        λ r. continue_round-Halts c job h b (b + weight l - 1) fuel r (omega (arith, weight_le l))

  next_round-Halts :
      (b b' : ℕ) (k : Locals → Handler W Round)
      → b' ≤ b
      → ((l : Locals) → is_empty l.value ≡ true → Halts patience (Below b') (k l) (LeftAtEnd b))
      → (r : Round)
      → Halts patience
          (Left b b' r)
          (elim r [ reselect v ↦ pure (reselect v) | again l ↦ k l | entered l ↦ pure (entered l) ])
          (LeftAtEnd b)
  next_round-Halts b b' k le f (reselect v) = Ensures-pure λ n p. p
  next_round-Halts b b' k le f (again l) = record { at = λ s p. (f l p.0).at s p.1 }
  next_round-Halts b b' k le f (entered l) = Ensures-pure λ n p. omega arith

  raise : (b b' : ℕ) (r : Round) (n : ℕ) → b' ≤ b → LeftAtEnd b' r n → LeftAtEnd b r n
  raise b b' (reselect v) n le p = omega arith
  raise b b' (again l) n le p = omega arith
  raise b b' (entered l) n le p = omega arith

  -- A round that starts without a value takes an action, and one that starts with a value ends without.
  rounds-Halts :
      (b fuel m : ℕ) (l : Locals)
      → b ≤ fuel
      → 2 * b + weight l ≤ m
      → Halts patience (Below b) (rounds c job fuel m l) (LeftAtEnd b)
  unfolding rounds
  rounds-Halts b fuel zero l le enough = Ensures-out_of_fuel λ n p. absurd (omega arith)
  rounds-Halts b fuel (suc m) l le enough = Ensures-bind (round-Halts b fuel l le) (
      next_round-Halts b (b + weight l - 1) (λ l'. rounds c job fuel m l')
        (omega (arith, weight_le l))
        λ l' e.
          Ensures-to (λ r n p. raise b (b + weight l - 1) r n (omega (arith, weight_le l)) p)
            (rounds-Halts (b + weight l - 1) fuel m l' (omega (arith, weight_le l))
              (omega (arith, weight_le l, weight-cleared l' e))))

  select-Halts :
      (b fuel : ℕ) (view : View)
      → b ≤ fuel
      → Halts patience (Below b) (select_device c job fuel view) (λ r. Below b)
  unfolding select_device
  select-Halts b fuel view le =
      Ensures-if (not job.verify) (λ e. Ensures-pure λ n p. p)
        λ e. Ensures-bind (choose_device-Halts c h b fuel fuel job.fingerprint view le le) λ found.
          Ensures-bind (bind_device-Halts c h b fuel found.0 job.id found.1 le)
            λ id. Ensures-pure λ n p. p

  look_up-Halts :
      (b : ℕ) (found : View × Device × Identity)
      → Halts patience (Below b) (look_up c job found) (λ l. Below b)
  unfolding look_up
  look_up-Halts b (view, selected, id) =
      Ensures-bind {Q = λ r. Below b}
        (Ensures-if job.eligible (λ e. begin_cache-Halts c h (lowers b) id)
          (λ e. Ensures-pure λ n p. p))
        λ r.
          Ensures-bind {Q = λ ok. Below b}
            (Ensures-if c.request.trace (λ e. send-Halts c h (lowers b) _)
              (λ e. Ensures-pure λ n p. p))
            λ ok. Ensures-pure λ n p. p

  next_session-Halts :
      (b : ℕ) (k : View → Handler W Locals)
      → ((v : View) → Halts patience (Below (b - 1)) (k v) (λ l. Below b))
      → (r : Round)
      → Halts patience
          (LeftAtEnd b r)
          (elim r [ reselect v ↦ k v | again l ↦ pure l | entered l ↦ pure l ])
          (λ l. Below b)
  next_session-Halts b k f (reselect v) = Ensures-from (λ n p. omega arith) (f v)
  next_session-Halts b k f (again l) = Ensures-pure λ n p. p
  next_session-Halts b k f (entered l) = Ensures-pure λ n p. p

  pub sessions-Halts :
      (b fuel m : ℕ) (view : View)
      → 2 * b + 1 ≤ fuel
      → b ≤ m
      → Halts patience (Below b) (sessions c job fuel m view) (λ l. Below b)
  unfolding sessions session
  sessions-Halts b fuel zero view le enough = Ensures-out_of_fuel λ n p. absurd (omega arith)
  sessions-Halts b fuel (suc m) view le enough =
      Ensures-bind
        (Ensures-bind (select-Halts b fuel view (omega arith)) λ found.
          Ensures-bind (look_up-Halts b found)
            λ l. rounds-Halts b fuel fuel l (omega arith) (omega (arith, weight_le l)))
        (next_session-Halts b (λ v. sessions c job fuel m v)
          λ v.
            Ensures-to (λ l n p. omega arith)
              (sessions-Halts (b - 1) fuel m v (omega arith) (omega arith)))
