-- ===== src/Service/Handling/Halting.antt =====
-- With fuel for the user's actions, `Handle` of internal/service/service.go ends: its windows and its
-- selection of a device.
use gtkaskpass_yubikey.Base.{
  ℕ, zero, suc, ◌+◌, ◌-◌, ◌≤◌, ◌<◌, not, Option, none, some, List, [], ◌∷◌, Bytes, codes, is_empty,
  arith, if_cases,
}
use gtkaskpass_yubikey.Cache.Identity.{Identity}
use gtkaskpass_yubikey.Dialog.{Device, View, Action}
use gtkaskpass_yubikey.Service.Handler.World.{Context, window_shown, Handler, pure, call}
use gtkaskpass_yubikey.Service.Handler.Windows.{is_kind, action, await_action, next_action}
use gtkaskpass_yubikey.Service.Handler.Devices.{
  Choice, again, chosen, discover, wait_for_device, preference, ask_device, choose_among,
  choose_round, choose_device, bind_device, picked, device_at,
}
use gtkaskpass_yubikey.Service.Handling.Rules.{
  Ensures-pure, Ensures-stop, Ensures-out_of_fuel, Ensures-if, Ensures-bind, Ensures-option,
  Ensures-from, Ensures-to,
}
use gtkaskpass_yubikey.Service.Handling.Patience.{
  cost, IsPatient, Lowers, Halts, call-Halts, note-Halts, has_window-Halts, send-Halts, fail-Halts,
  show-Halts, show_or_fail-Halts,
}

abbrev pub Below : ℕ → ℕ → Type 0
Below b n = n < b

pub lowers : (b : ℕ) → Lowers (Below b)
lowers b m n le p = omega arith

module _ {W : Type 0} (c : Context W) {patience : W → ℕ} (h : IsPatient c.env patience) where
  acts-Halts : (b : ℕ) → Halts patience (Below b) (call c c.env.acts) (λ a n. n + cost a < b)
  unfolding call
  acts-Halts b = record {
    at = λ s p. omega (arith, h.others_le (c.env.acts s.world).0, h.acts_le s.world, p);
  }

  pub action-Halts :
      (b fuel : ℕ) → b ≤ fuel → Halts patience (Below b) (action c fuel) (λ a n. n + cost a < b)
  unfolding action
  action-Halts b zero le = Ensures-out_of_fuel λ n p. absurd (omega arith)
  action-Halts b (suc fuel) le = Ensures-bind (acts-Halts b) λ a.
      Ensures-bind (note-Halts c h (λ m n le p. omega arith) _) λ t.
        Ensures-option (λ a n. n + cost a < b) (Ensures-pure λ n p. p)
          (λ x.
            Ensures-if (not (is_kind x (codes "shown"))) (λ e. Ensures-pure λ n p. p)
              λ e.
                Ensures-from (λ n p. omega arith)
                  (Ensures-bind
                    (Ensures-if c.request.trace (λ e. send-Halts c h (lowers (b - 1)) window_shown)
                      (λ e. Ensures-pure λ n p. p))
                    λ ok.
                      Ensures-to (λ a n p. omega arith) (action-Halts (b - 1) fuel (omega arith))))
          a

  pub next_action-Halts :
      (b fuel : ℕ) → b ≤ fuel → Halts patience (Below b) (next_action c fuel) (λ a n. suc n < b)
  unfolding next_action
  next_action-Halts b fuel le = Ensures-bind (action-Halts b fuel le) λ a.
      Ensures-option (λ a n. n + cost a < b) (Ensures-stop λ n p. tt)
        (λ x. Ensures-pure λ n p. omega arith) a

  pub await_action-Halts :
      (b fuel : ℕ) → b ≤ fuel → Halts patience (Below b) (await_action c fuel) (λ t. Below b)
  unfolding await_action
  await_action-Halts b fuel le = Ensures-bind (has_window-Halts c h (lowers b)) λ open_window.
      Ensures-if open_window
        (λ e. Ensures-bind (action-Halts b fuel le) λ a. Ensures-pure λ n p. omega arith)
        (λ e. Ensures-pure λ n p. p)

  pub discover-Halts : (P : ℕ → Type 0) → Lowers P → Halts patience P (discover c) (λ devices. P)
  unfolding discover
  discover-Halts P lower =
      Ensures-bind (call-Halts c h lower _ h.discovers_le)
        λ devices. Ensures-bind (note-Halts c h lower _) λ t. Ensures-pure λ n p. p

  -- A selection that is not made costs an action.
  abbrev Left : ℕ → Choice → ℕ → Type 0
  Left b (again v) n = suc n < b
  Left b (chosen v d) n = n < b

  wait-Halts :
      (b fuel : ℕ) (view : View)
      → b ≤ fuel
      → Halts patience (Below b) (wait_for_device c fuel view) (Left b)
  unfolding wait_for_device
  wait-Halts b fuel view le = Ensures-bind (show_or_fail-Halts c h (lowers b) _) λ t.
      Ensures-bind (next_action-Halts b fuel le) λ a.
        Ensures-if (is_kind a (codes "cancel")) (λ e. fail-Halts c h (λ m n le p. omega arith) 1)
          (λ e. Ensures-pure λ n p. p)

  preference-Halts :
      (b : ℕ) (fingerprint : Bytes) (devices : List Device)
      → Halts patience (Below b) (preference c fingerprint devices) (λ n. Below b)
  unfolding preference
  preference-Halts b fingerprint devices =
      Ensures-if (not c.has_preferences) (λ e. Ensures-pure λ n p. p)
        (λ e.
          Ensures-bind (call-Halts c h (lowers b) _ (h.preferred_le fingerprint))
            λ preferred. Ensures-pure λ n p. p)

  picked-Left :
      (b : ℕ) (v : View) (a : Action) (d : Option Device) (n : ℕ)
      → suc n < b
      → Left b (picked c v a d) n
  picked-Left b v a none n p = p
  picked-Left b v a (some d) n p =
      if_cases (λ r. Left b r n) (is_kind a (codes "select")) (λ e. omega arith) (λ e. p)

  ask-Halts :
      (b fuel : ℕ) (fingerprint : Bytes) (view : View) (devices : List Device)
      → b ≤ fuel
      → Halts patience (Below b) (ask_device c fuel fingerprint view devices) (Left b)
  unfolding ask_device
  ask-Halts b fuel fingerprint view devices le =
      Ensures-bind (preference-Halts b fingerprint devices) λ selected.
        Ensures-bind (show_or_fail-Halts c h (lowers b) _) λ t.
          Ensures-bind (next_action-Halts b fuel le) λ a.
            Ensures-if (is_kind a (codes "cancel"))
              (λ e. fail-Halts c h (λ m n le p. omega arith) 1)
              (λ e. Ensures-pure λ n p. picked-Left b _ a (device_at a.selected devices) n p)

  choose_among-Halts :
      (b fuel : ℕ) (fingerprint : Bytes) (view : View) (devices : Option (List Device))
      → b ≤ fuel
      → Halts patience (Below b) (choose_among c fuel fingerprint view devices) (Left b)
  choose_among-Halts b fuel fingerprint view none le = wait-Halts b fuel view le
  choose_among-Halts b fuel fingerprint view (some []) le = wait-Halts b fuel view le
  choose_among-Halts b fuel fingerprint view (some (d ∷ [])) le = Ensures-pure λ n p. p
  choose_among-Halts b fuel fingerprint view (some (d ∷ e ∷ devices)) le =
      ask-Halts b fuel fingerprint view (d ∷ e ∷ devices) le

  next-Halts :
      (b : ℕ) (k : View → Handler W (View × Device))
      → ((v : View) → Halts patience (Below (b - 1)) (k v) (λ r. Below b))
      → (r : Choice)
      → Halts patience
          (Left b r)
          (elim r [ again v ↦ k v | chosen v d ↦ pure (v, d) ])
          (λ r. Below b)
  next-Halts b k f (again v) = Ensures-from (λ n p. omega arith) (f v)
  next-Halts b k f (chosen v d) = Ensures-pure λ n p. p

  pub choose_device-Halts :
      (b fuel m : ℕ) (fingerprint : Bytes) (view : View)
      → b ≤ fuel
      → b ≤ m
      → Halts patience (Below b) (choose_device c fuel m fingerprint view) (λ r. Below b)
  unfolding choose_device choose_round
  choose_device-Halts b fuel zero fingerprint view le enough =
      Ensures-out_of_fuel λ n p. absurd (omega arith)
  choose_device-Halts b fuel (suc m) fingerprint view le enough =
      Ensures-bind
        (Ensures-bind (discover-Halts (Below b) (lowers b))
          λ devices. choose_among-Halts b fuel fingerprint view devices le)
        (next-Halts b (λ v. choose_device c fuel m fingerprint v)
          λ v.
            Ensures-to (λ r n p. omega arith)
              (choose_device-Halts (b - 1) fuel m fingerprint v (omega arith) (omega arith)))

  pub bind_device-Halts :
      (b fuel : ℕ) (view : View) (id : Identity) (d : Device)
      → b ≤ fuel
      → Halts patience (Below b) (bind_device c fuel view id d) (λ r. Below b)
  unfolding bind_device
  bind_device-Halts b fuel view id d le =
      Ensures-if (not (is_empty d.connection)) (λ e. Ensures-pure λ n p. p)
        λ e.
          Ensures-bind (show-Halts c h (lowers b) _)
            λ shown. Ensures-bind (await_action-Halts b fuel le) λ t. fail-Halts c h (lowers b) 1
