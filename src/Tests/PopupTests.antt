-- ===== src/Tests/PopupTests.antt =====
-- A device that waits, its window, and its end, in the model of internal/service/touch.go.
use gtkaskpass_yubikey.Base.{
  ◌≡◌, refl, true, none, List, [], ◌∷◌, Bytes, Bytes-discrete, ℕ_discrete, codes, is_some,
}
use gtkaskpass_yubikey.Base.Maps.{lookup, insert, delete, retain}
use gtkaskpass_yubikey.Service.Popups.{
  Device, DesiredTouch, new, set_touch, check_popups, start_popups, pass, available,
}
use gtkaskpass_yubikey.Service.Popups.Sessions.{
  Session, touches, runs, ends, move, start, after, IsSession, after-start,
}
use gtkaskpass_yubikey.Service.Popups.Dismissals.{IsDismissed, after-IsDismissed}

abbrev env : List (Bytes × Bytes)
env = (codes "DISPLAY", codes ":0") ∷ (codes "XDG_ACTIVATION_TOKEN", codes "t") ∷ []

abbrev device : Device
device = record { path = codes "/dev/hidraw0"; label = codes "Key" }

abbrev want : DesiredTouch
want = record { device = device; epoch = 1 }

program : Unit {0}
unfolding ℕ_discrete Bytes-discrete lookup insert delete retain new set_touch check_popups
    start_popups pass available move
program = tt

abbrev dismissed : Session
dismissed = after (touches device true ∷ runs ∷ ends device.path ∷ runs ∷ []) (start env)

is_available : available (new env) ≡ true
unfolding program
is_available = refl

no_token : lookup Bytes-discrete (codes "XDG_ACTIVATION_TOKEN") (new env).env ≡ none
unfolding program
no_token = refl

shown :
    is_some (
      lookup Bytes-discrete device.path
        (after (touches device true ∷ runs ∷ []) (start env)).running.popups)
    ≡ true
unfolding program
shown = refl

after-start_example :
    IsSession (after (touches device true ∷ runs ∷ ends device.path ∷ []) (start env))
after-start_example = after-start env (touches device true ∷ runs ∷ ends device.path ∷ [])

after-IsDismissed_example :
    IsDismissed device.path want (after (touches device true ∷ runs ∷ []) dismissed)
unfolding program
after-IsDismissed_example =
    after-IsDismissed (touches device true ∷ runs ∷ []) device.path want dismissed
      (after-start env (touches device true ∷ runs ∷ ends device.path ∷ runs ∷ [])) (tt, (tt, tt))
      (record { waits = refl; shut = refl; ended = refl })
