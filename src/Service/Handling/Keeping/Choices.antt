-- ===== src/Service/Handling/Keeping/Choices.antt =====
-- The choice of a device and the windows of `Handle`, internal/service/service.go, keep what calls keep.
use gtkaskpass_yubikey.Base.{ℕ, zero, suc, not, Option, none, some, List, [], ◌∷◌, Bytes, codes}
use gtkaskpass_yubikey.Cache.Identity.{Identity}
use gtkaskpass_yubikey.Cache.Store.{Store, Lookup}
use gtkaskpass_yubikey.Dialog.{Device, View}
use gtkaskpass_yubikey.Service.Handler.World.{Log, Context, Handler, Reply, pure}
use gtkaskpass_yubikey.Service.Handler.Windows.{
  send, fail, show, action, is_stale, await_action, window_cancelled, check_over, check_cancelled,
  show_or_fail, next_action, is_kind,
}
use gtkaskpass_yubikey.Service.Handler.Devices.{
  Choice, again, chosen, discover, wait_for_device, preference, ask_device, choose_among,
  choose_round, choose_device, bind_device,
}
use gtkaskpass_yubikey.Service.Handling.Keeping.{
  Keeps, Closed, keeps_rules, Keeps-option, Keeps-bind, note-Keeps, Keeps-if, call-Keeps,
}

module _ {W : Type 0} (c : Context W) {O : Store → Log → Type 0} (closed : Closed c O) where
  pub send-Keeps : (r : Reply) → Keeps O (send c r)
  unfolding send
  send-Keeps r = search keeps_rules depth 12

  pub fail-Keeps : {A : Type 0} (n : ℕ) → Keeps O (fail c {A = A} n)
  unfolding fail
  fail-Keeps n = search (keeps_rules, send-Keeps) depth 12

  pub show-Keeps : (v : View) → Keeps O (show c v)
  unfolding show
  show-Keeps v = search keeps_rules depth 12

  pub show_or_fail-Keeps : (v : View) → Keeps O (show_or_fail c v)
  unfolding show_or_fail
  show_or_fail-Keeps v = search (keeps_rules, show-Keeps, fail-Keeps) depth 12

  pub action-Keeps : (fuel : ℕ) → Keeps O (action c fuel)
  unfolding action
  action-Keeps zero = search keeps_rules
  action-Keeps (suc fuel) = Keeps-bind _ _ (call-Keeps c closed c.env.acts) λ a.
      Keeps-bind _ _ (note-Keeps c closed _) λ t. Keeps-option a _ _ (search keeps_rules) λ x.
        Keeps-if (not (is_kind x (codes "shown"))) _ _ (search keeps_rules)
          (Keeps-bind _ _ (search (keeps_rules, send-Keeps)) λ ok. action-Keeps fuel)

  pub next_action-Keeps : (fuel : ℕ) → Keeps O (next_action c fuel)
  unfolding next_action
  next_action-Keeps fuel =
      Keeps-bind _ _ (action-Keeps fuel)
        λ a. Keeps-option a _ _ (search keeps_rules) λ x. search keeps_rules

  pub await_action-Keeps : (fuel : ℕ) → Keeps O (await_action c fuel)
  unfolding await_action
  await_action-Keeps fuel = search (keeps_rules, action-Keeps) depth 12

  pub is_stale-Keeps : (id : Identity) (r : Lookup) → Keeps O (is_stale c id r)
  unfolding is_stale
  is_stale-Keeps id r = search keeps_rules depth 12

  pub check_over-Keeps : Keeps O (check_over c)
  unfolding check_over
  check_over-Keeps = search keeps_rules depth 12

  window_cancelled-Keeps : Keeps O (window_cancelled c)
  unfolding window_cancelled
  window_cancelled-Keeps = search keeps_rules depth 12

  pub check_cancelled-Keeps : Keeps O (check_cancelled c)
  unfolding check_cancelled
  check_cancelled-Keeps = search (keeps_rules, window_cancelled-Keeps, fail-Keeps) depth 12

  pub discover-Keeps : Keeps O (discover c)
  unfolding discover
  discover-Keeps = search keeps_rules depth 12

  wait_for_device-Keeps : (fuel : ℕ) (view : View) → Keeps O (wait_for_device c fuel view)
  unfolding wait_for_device
  wait_for_device-Keeps fuel view =
      search (keeps_rules, show_or_fail-Keeps, next_action-Keeps, fail-Keeps) depth 12

  preference-Keeps :
      (fingerprint : Bytes) (devices : List Device) → Keeps O (preference c fingerprint devices)
  unfolding preference
  preference-Keeps fingerprint devices = search keeps_rules depth 12

  ask_device-Keeps :
      (fuel : ℕ) (fingerprint : Bytes) (view : View) (devices : List Device)
      → Keeps O (ask_device c fuel fingerprint view devices)
  unfolding ask_device
  ask_device-Keeps fuel fingerprint view devices =
      search (keeps_rules, preference-Keeps, show_or_fail-Keeps, next_action-Keeps, fail-Keeps)
        depth 12

  choose_among-Keeps :
      (fuel : ℕ) (fingerprint : Bytes) (view : View) (devices : Option (List Device))
      → Keeps O (choose_among c fuel fingerprint view devices)
  choose_among-Keeps fuel fingerprint view none = wait_for_device-Keeps fuel view
  choose_among-Keeps fuel fingerprint view (some []) = wait_for_device-Keeps fuel view
  choose_among-Keeps fuel fingerprint view (some (d ∷ [])) = search keeps_rules
  choose_among-Keeps fuel fingerprint view (some (d ∷ e ∷ devices)) =
      ask_device-Keeps fuel fingerprint view (d ∷ e ∷ devices)

  choose_round-Keeps :
      (fuel : ℕ) (fingerprint : Bytes) (view : View)
      → Keeps O (choose_round c fuel fingerprint view)
  unfolding choose_round
  choose_round-Keeps fuel fingerprint view =
      search (keeps_rules, discover-Keeps, choose_among-Keeps) depth 12

  chosen-Keeps :
      (k : View → Handler W (View × Device))
      → ((v : View) → Keeps O (k v))
      → (r : Choice) → Keeps O (elim r [ again v ↦ k v | chosen v d ↦ pure (v, d) ])
  chosen-Keeps k h (again v) = h v
  chosen-Keeps k h (chosen v d) = search keeps_rules

  pub choose_device-Keeps :
      (fuel n : ℕ) (fingerprint : Bytes) (view : View)
      → Keeps O (choose_device c fuel n fingerprint view)
  unfolding choose_device
  choose_device-Keeps fuel zero fingerprint view = search keeps_rules
  choose_device-Keeps fuel (suc n) fingerprint view =
      Keeps-bind _ _ (choose_round-Keeps fuel fingerprint view)
        (chosen-Keeps (choose_device c fuel n fingerprint) (choose_device-Keeps fuel n fingerprint))

  pub bind_device-Keeps :
      (fuel : ℕ) (view : View) (id : Identity) (d : Device) → Keeps O (bind_device c fuel view id d)
  unfolding bind_device
  bind_device-Keeps fuel view id d =
      search (keeps_rules, show-Keeps, await_action-Keeps, fail-Keeps) depth 12
