-- ===== src/Touch/Monitor/Desired.antt =====
-- The monitor and the popups of internal/service/touch.go, to which it says which devices wait.
use mathlib.Core.Logic.{ite, if_pos, if_neg}
use gtkaskpass_yubikey.Base.{
  ◌≡◌, refl, ◌∙◌, Bool, true, false, none, List, [], ◌∷◌, Bytes, Bytes-discrete, if_cases, arith,
}
use gtkaskpass_yubikey.Base.Maps.{lookup, lookup-delete, lookup-insert_other}
use gtkaskpass_yubikey.Service.Popups.{Device, Mailbox, new, set_touch, is_new}
use gtkaskpass_yubikey.Touch.Monitor.{Event, touched, diagnosed}
use gtkaskpass_yubikey.Touch.Monitor.Rounds.{Pass, run}
use gtkaskpass_yubikey.Touch.Monitor.Watching.{told}
use gtkaskpass_yubikey.Touch.Monitor.Endings.{run-told}

-- The popups after the events, where `state` tells each.
unfoldable pub tell : List Event → Mailbox → Mailbox
tell [] p = p
tell (touched d b ∷ events) p = set_touch (tell events p) d b
tell (diagnosed text ∷ events) p = tell events p

abbrev IsUndesired : Bytes → Mailbox → Type 0
IsUndesired path p = lookup Bytes-discrete path p.desired ≡ none

touched-IsUndesired :
    (p : Mailbox) (d : Device) (b : Bool) (path : Bytes) (rest : Bool)
    → (rest ≡ false → IsUndesired path p)
    → ite (Bytes-discrete d.path path) b rest ≡ false
    → IsUndesired path (set_touch p d b)
unfolding set_touch
touched-IsUndesired p d true path rest h e = elim (Bytes-discrete d.path path) [
  | yes q ↦ absurd (ground arith)
  | no q ↦
      let quiet : rest ≡ false = ground arith in
      if_cases (IsUndesired path) (is_new p d)
        (λ _. lookup-insert_other Bytes-discrete d.path path _ p.desired q ∙ h quiet) (λ _. h quiet)
]
touched-IsUndesired p d false path rest h e = elim (Bytes-discrete d.path path) [
  | yes q ↦
      lookup-delete Bytes-discrete d.path path p.desired ∙ if_pos (Bytes-discrete d.path path) q _ _
  | no q ↦
      lookup-delete Bytes-discrete d.path path p.desired
      ∙ if_neg (Bytes-discrete d.path path) q _ _
      ∙ h (ground arith)
]

tell-IsUndesired :
    (events : List Event) (p : Mailbox) (path : Bytes)
    → IsUndesired path p
    → told path events ≡ false
    → IsUndesired path (tell events p)
unfolding told tell
tell-IsUndesired [] p path h e = h
tell-IsUndesired (touched d b ∷ events) p path h e =
    touched-IsUndesired (tell events p) d b path (told path events)
      (tell-IsUndesired events p path h) e
tell-IsUndesired (diagnosed text ∷ events) p path h e = tell-IsUndesired events p path h e

-- When the monitor has ended, the popups that it has told of the devices want no window for any.
pub run-undesired :
    (ps : List Pass) (env : List (Bytes × Bytes)) (path : Bytes)
    → lookup Bytes-discrete path (tell (run ps).events (new env)).desired ≡ none
unfolding new lookup
run-undesired ps env path = tell-IsUndesired (run ps).events (new env) path refl (run-told ps path)
