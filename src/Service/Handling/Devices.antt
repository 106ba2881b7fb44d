-- ===== src/Service/Handling/Devices.antt =====
-- The events of the selection of a device, Service/Handler/Devices.
use gtkaskpass_yubikey.Base.{
  ℕ, zero, suc, refl, Bool, not, Option, none, some, List, [], ◌∷◌, Bytes, codes, is_empty,
}
use gtkaskpass_yubikey.Cache.Identity.{Identity}
use gtkaskpass_yubikey.Dialog.{Device, View}
use gtkaskpass_yubikey.Service.Handler.World.{Log, State, Context, discovered, Handler, pure}
use gtkaskpass_yubikey.Service.Handler.Windows.{is_kind}
use gtkaskpass_yubikey.Service.Handler.Devices.{
  Choice, again, chosen, discover, wait_for_device, preference, ask_device, choose_among,
  choose_round, choose_device, bind_device,
}
use gtkaskpass_yubikey.Service.Handling.Rules.{
  Ensures, Ensures-pure, Ensures-out_of_fuel, Ensures-if, Ensures-bind,
}
use gtkaskpass_yubikey.Service.Handling.Trace.{Safe, IsOpen, Safely, phase}
use gtkaskpass_yubikey.Service.Handling.Windows.{
  call-Safely, note-Safely, show-Safely, open-fail, open-show_or_fail, next_action-HasHeard,
  await_action-IsOpen,
}

module _ {W : Type 0} (c : Context W) where
  pub discover-Safely :
      {R X P : Log → Type 0} {Q : Option (List Device) → Log → Type 0}
      → ((devices : Option (List Device)) (log : Log)
          → P log
          → Q devices (discovered devices ∷ log))
      → Ensures State.log R X P (discover c) Q
  unfolding discover
  discover-Safely h = Ensures-bind (call-Safely c _) λ devices.
      Ensures-bind (note-Safely c (discovered devices) (h devices)) λ t. Ensures-pure λ log q. q

  preference-Safely :
      {R X P : Log → Type 0} (fingerprint : Bytes) (devices : List Device)
      → Ensures State.log R X P (preference c fingerprint devices) (λ n. P)
  unfolding preference
  preference-Safely fingerprint devices =
      Ensures-if (not c.has_preferences) (λ e. Ensures-pure λ log p. p)
        (λ e. Ensures-bind (call-Safely c _) λ preferred. Ensures-pure λ log p. p)

module _ {W : Type 0} (c : Context W) {verify : Bool} where
  found-IsOpen :
      (devices : Option (List Device)) (log : Log)
      → IsOpen verify log
      → IsOpen verify (discovered devices ∷ log)
  unfolding phase Safe
  found-IsOpen devices log o = record { is_opened = o.is_opened; safe = (o.is_opened, o.safe) }

  wait-Safely :
      (fuel : ℕ) (view : View)
      → Safely verify (IsOpen verify) (wait_for_device c fuel view) (λ r. IsOpen verify)
  unfolding wait_for_device
  wait-Safely fuel view = Ensures-bind (open-show_or_fail c (λ log o. o) _) λ t.
      Ensures-bind (next_action-HasHeard c fuel) λ a.
        Ensures-if (is_kind a (codes "cancel")) (λ e. open-fail c (λ log h. h.is_open) 1 refl)
          (λ e. Ensures-pure λ log h. h.is_open)

  ask-Safely :
      (fuel : ℕ) (fingerprint : Bytes) (view : View) (devices : List Device)
      → Safely verify
          (IsOpen verify)
          (ask_device c fuel fingerprint view devices)
          (λ r. IsOpen verify)
  unfolding ask_device
  ask-Safely fuel fingerprint view devices =
      Ensures-bind (preference-Safely c fingerprint devices) λ selected.
        Ensures-bind (open-show_or_fail c (λ log o. o) _) λ t.
          Ensures-bind (next_action-HasHeard c fuel) λ a.
            Ensures-if (is_kind a (codes "cancel")) (λ e. open-fail c (λ log h. h.is_open) 1 refl)
              (λ e. Ensures-pure λ log h. h.is_open)

  choose_among-Safely :
      (fuel : ℕ) (fingerprint : Bytes) (view : View) (devices : Option (List Device))
      → Safely verify
          (IsOpen verify)
          (choose_among c fuel fingerprint view devices)
          (λ r. IsOpen verify)
  choose_among-Safely fuel fingerprint view none = wait-Safely fuel view
  choose_among-Safely fuel fingerprint view (some []) = wait-Safely fuel view
  choose_among-Safely fuel fingerprint view (some (d ∷ [])) = Ensures-pure λ log o. o
  choose_among-Safely fuel fingerprint view (some (d ∷ e ∷ devices)) =
      ask-Safely fuel fingerprint view (d ∷ e ∷ devices)

  next-Safely :
      (k : View → Handler W (View × Device))
      → ((v : View) → Safely verify (IsOpen verify) (k v) (λ r. IsOpen verify))
      → (r : Choice)
      → Safely verify
          (IsOpen verify)
          (elim r [ again v ↦ k v | chosen v d ↦ pure (v, d) ])
          (λ r. IsOpen verify)
  next-Safely k h (again v) = h v
  next-Safely k h (chosen v d) = Ensures-pure λ log o. o

  pub choose_device-Safely :
      (fuel n : ℕ) (fingerprint : Bytes) (view : View)
      → Safely verify (IsOpen verify) (choose_device c fuel n fingerprint view) (λ r. IsOpen verify)
  unfolding choose_device choose_round
  choose_device-Safely fuel zero fingerprint view = Ensures-out_of_fuel λ log o. o.safe
  choose_device-Safely fuel (suc n) fingerprint view =
      Ensures-bind
        (Ensures-bind (discover-Safely c found-IsOpen)
          λ devices. choose_among-Safely fuel fingerprint view devices)
        (next-Safely (λ v. choose_device c fuel n fingerprint v)
          (λ v. choose_device-Safely fuel n fingerprint v))

  pub bind_device-Safely :
      (fuel : ℕ) (view : View) (id : Identity) (d : Device)
      → Safely verify (IsOpen verify) (bind_device c fuel view id d) (λ r. IsOpen verify)
  unfolding bind_device
  bind_device-Safely fuel view id d =
      Ensures-if (not (is_empty d.connection)) (λ e. Ensures-pure λ log o. o)
        λ e.
          Ensures-bind (show-Safely c _)
            λ b. Ensures-bind (await_action-IsOpen c fuel) λ t. open-fail c (λ log o. o) 1 refl
