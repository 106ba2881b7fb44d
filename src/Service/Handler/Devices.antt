-- ===== src/Service/Handler/Devices.antt =====
-- `Handle` of internal/service/service.go at `selectDevice`: which security key the PIN is for.
use gtkaskpass_yubikey.Base.{
  ℕ, zero, suc, ◌+◌, not, ◌&&◌, Option, none, some, List, [], ◌∷◌, ◌++◌, Bytes, Bytes-discrete,
  codes, decide, if◌then◌else◌, ◌==◌, is_empty,
}
use gtkaskpass_yubikey.Base.Int.{ℤ, pos, negsuc}
use gtkaskpass_yubikey.Cache.Identity.{Identity}
use gtkaskpass_yubikey.Dialog.{Device, View, Action, wait, choose, error}
use gtkaskpass_yubikey.Service.Handler.World.{
  Context, discovered, Handler, pure, out_of_fuel, note, ◌>>=◌, ◌>>◌, call,
}
use gtkaskpass_yubikey.Service.Handler.Windows.{
  is_kind, fail, show, await_action, show_or_fail, next_action,
}

-- The last device with the preferred name, and how many there are.
unfoldable pub matching : Bytes → ℕ → List Device → ℤ × ℕ
matching preferred i [] = (negsuc 0, 0)
matching preferred i (d ∷ devices) =
    let (selected, n) = matching preferred (i + 1) devices in
    if not (is_empty preferred) && decide (Bytes-discrete d.stable_id preferred)
    then (if n == 0 then pos i else selected, n + 1)
    else (selected, n)

-- `view.Selected`: the preferred device, if it is the only one of its name.
unfoldable pub preselected : Bytes → List Device → ℤ
preselected preferred devices =
    let (selected, n) = matching preferred 0 devices in if n == 1 then selected else negsuc 0

-- `devices[a.Selected]`, if the index is in range
abbrev pub device_at : ℤ → List Device → Option Device
device_at (negsuc n) devices = none
device_at (pos n) [] = none
device_at (pos zero) (d ∷ devices) = some d
device_at (pos (suc n)) (d ∷ devices) = device_at (pos n) devices

-- What one round of the loop ends with; the view is kept for the next one.
pub data Choice : Type 0 where
  again : View → Choice
  chosen : View → Device → Choice

-- `id.Stamp += "\x00device:" + selected.Connection`
abbrev pub bound : Identity → Device → Identity
bound id d = record id { stamp = id.stamp ++ (0 ∷ (codes "device:" ++ d.connection)) }

abbrev pub wait_message : Bytes
wait_message = codes "Connect an accessible FIDO2 security key with a configured PIN, then refresh."

abbrev pub choose_message : Bytes
choose_message =
    codes "Select the security key for this SSH key. Confirm the selection before PIN verification."

abbrev pub connection_message : Bytes
connection_message =
    codes "Cannot reliably identify this device connection. PIN verification is unavailable."

module _ {W : Type 0} (c : Context W) where
  -- `s.Devices.Discover`
  unfoldable pub discover : Handler W (Option (List Device))
  discover = do devices ← call c c.env.discovers; note (discovered devices); pure devices

  -- No device: wait until the user has connected one.
  unfoldable pub wait_for_device : ℕ → View → Handler W Choice
  wait_for_device fuel view = do
    let v : View = record view { stage = wait; message = wait_message }
    show_or_fail c v
    a ← next_action c fuel
    if is_kind a (codes "cancel") then fail c 1 else pure (again v)

  -- `view.Selected`, with the preference read if there are preferences
  unfoldable pub preference : Bytes → List Device → Handler W ℤ
  preference fingerprint devices =
      if not c.has_preferences
      then pure (negsuc 0)
      else do preferred ← call c (c.env.preferred fingerprint); pure (preselected preferred devices)

  abbrev pub picked : View → Action → Option Device → Choice
  picked view a none = again view
  picked view a (some d) = if is_kind a (codes "select") then chosen view d else again view

  -- Several devices: the user selects one.
  unfoldable pub ask_device : ℕ → Bytes → View → List Device → Handler W Choice
  ask_device fuel fingerprint view devices = do
    selected ← preference fingerprint devices
    let v : View = record view {
      stage = choose;
      devices = devices;
      selected = selected;
      message = choose_message;
    }
    show_or_fail c v
    a ← next_action c fuel
    if is_kind a (codes "cancel")
        then fail c 1
        else pure (picked v a (device_at a.selected devices))

  abbrev pub choose_among : ℕ → Bytes → View → Option (List Device) → Handler W Choice
  choose_among fuel fingerprint view none = wait_for_device fuel view
  choose_among fuel fingerprint view (some []) = wait_for_device fuel view
  choose_among fuel fingerprint view (some (d ∷ [])) = pure (chosen view d)
  choose_among fuel fingerprint view (some (d ∷ e ∷ devices)) =
      ask_device fuel fingerprint view (d ∷ e ∷ devices)

  -- One round of the loop.
  unfoldable pub choose_round : ℕ → Bytes → View → Handler W Choice
  choose_round fuel fingerprint view = do
    devices ← discover
    choose_among fuel fingerprint view devices

  -- The loop, with the view as it leaves it. `fuel` is for the actions, `n` for the loop.
  unfoldable pub choose_device : (fuel n : ℕ) → Bytes → View → Handler W (View × Device)
  choose_device fuel zero fingerprint view = out_of_fuel
  choose_device fuel (suc n) fingerprint view = do
    r ← choose_round fuel fingerprint view
    elim r [ again v ↦ choose_device fuel n fingerprint v | chosen v d ↦ pure (v, d) ]

  -- The identity for this connection of the device.
  unfoldable pub bind_device : ℕ → View → Identity → Device → Handler W Identity
  bind_device fuel view id d = if not (is_empty d.connection) then pure (bound id d) else do
    show c (record view { stage = error; message = connection_message })
    await_action c fuel
    fail c 1
