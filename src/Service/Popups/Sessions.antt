-- ===== src/Service/Popups/Sessions.antt =====
-- Interleavings of the monitor, which calls `SetTouch`, of `Run`, and of the goroutines of the
-- popups, in internal/service/touch.go.
use gtkaskpass_yubikey.Base.{
  ◌+◌, ◌%◌, ◌^◌, ◌≡◌, ◌≤◌, ◌⊎◌, inl, inr, refl, Bool, true, false, none, some, List, [], ◌∷◌, Bytes,
  Bytes-discrete, Option-cases, if_cases, arith, length, if◌then◌else◌,
}
use gtkaskpass_yubikey.Base.Maps.{
  lookup, insert, Distinct, length-insert, length-delete-le, insert-Distinct, delete-Distinct,
}
use gtkaskpass_yubikey.Service.Popups.{
  Device, Popup, Mailbox, Running, max_devices, new, signal, is_new, set_touch, pass,
}
use gtkaskpass_yubikey.Service.Popups.Starts.{IsSettled, IsRunning, pass-IsRunning, pass-IsSettled}

pub record Session : Type 0 where
  pub mailbox : Mailbox
  pub running : Running

-- What can happen next. A popup ends when its window is closed, when it fails, or when its
-- context is cancelled.
pub data Move : Type 0 where
  touches : Device → Bool → Move
  runs : Move
  ends : Bytes → Move

-- The deferred call of a popup's goroutine: `close(r.done); p.signal()`.
abbrev pub end_popup : Session → Bytes → Popup → Session
end_popup s path r = record {
  mailbox = signal s.mailbox;
  running = record s.running {
    popups = insert Bytes-discrete path (record r { is_done = true }) s.running.popups;
  };
}

unfoldable pub move : Move → Session → Session
move (touches d wanted) s = record s { mailbox = set_touch s.mailbox d wanted }
move runs s =
    if s.mailbox.is_woken
    then record {
      mailbox = record s.mailbox { is_woken = false };
      running = pass s.mailbox.desired s.running;
    }
    else s
move (ends path) s = elim (lookup Bytes-discrete path s.running.popups) [
  | none ↦ s
  | some r ↦ end_popup s path r
]

abbrev pub start : List (Bytes × Bytes) → Session
start env = record { mailbox = new env; running = record { popups = []; finished = [] } }

abbrev pub after : List Move → Session → Session
after [] s = s
after (m ∷ moves) s = after moves (move m s)

pub record IsMailbox (p : Mailbox) : Type 0 where
  pub cap : length p.desired ≤ max_devices
  pub distinct : Distinct Bytes-discrete p.desired

-- The windows are bounded, and if no pass is due they are settled.
pub record IsSession (s : Session) : Type 0 where
  pub devices : IsMailbox s.mailbox
  pub windows : IsRunning s.running
  pub due : (s.mailbox.is_woken ≡ true) ⊎ IsSettled s.mailbox.desired s.running

set_touch-IsMailbox :
    (p : Mailbox) (d : Device) (wanted : Bool) → IsMailbox p → IsMailbox (set_touch p d wanted)
unfolding set_touch
set_touch-IsMailbox p d true v =
    if_cases (λ q. IsMailbox (signal q)) (is_new p d)
      (λ e. record {
        cap = ground (
          arith,
          e,
          length-insert Bytes-discrete d.path
              (record { device = d; epoch = (p.epoch + 1) % 2 ^ 64 }) p.desired,
        );
        distinct =
            insert-Distinct Bytes-discrete d.path
              (record { device = d; epoch = (p.epoch + 1) % 2 ^ 64 }) p.desired v.distinct;
      })
      (λ _. record { cap = v.cap; distinct = v.distinct })
set_touch-IsMailbox p d false v = record {
  cap = omega (arith, v.cap, length-delete-le Bytes-discrete d.path p.desired);
  distinct = delete-Distinct Bytes-discrete d.path p.desired v.distinct;
}

set_touch-wakes :
    (p : Mailbox) (d : Device) (wanted : Bool) → (set_touch p d wanted).is_woken ≡ true
unfolding set_touch
set_touch-wakes p d true = refl
set_touch-wakes p d false = refl

end-IsRunning :
    (s : Session) (path : Bytes) (r : Popup)
    → lookup Bytes-discrete path s.running.popups ≡ some r
    → IsRunning s.running
    → IsRunning (end_popup s path r).running
end-IsRunning s path r e v = record {
  cap = ground (
    arith,
    v.cap,
    e,
    length-insert Bytes-discrete path (record r { is_done = true }) s.running.popups,
  );
  distinct =
      insert-Distinct Bytes-discrete path (record r { is_done = true }) s.running.popups v.distinct;
}

pub move-IsSession : (m : Move) (s : Session) → IsSession s → IsSession (move m s)
unfolding move
move-IsSession (touches d wanted) s v = record {
  devices = set_touch-IsMailbox s.mailbox d wanted v.devices;
  windows = v.windows;
  due = inl (set_touch-wakes s.mailbox d wanted);
}
move-IsSession runs s v =
    if_cases IsSession s.mailbox.is_woken
      (λ _. record {
        devices = record { cap = v.devices.cap; distinct = v.devices.distinct };
        windows = pass-IsRunning s.mailbox.desired s.running v.windows;
        due = inr (pass-IsSettled s.mailbox.desired s.running v.devices.distinct);
      })
      (λ _. v)
move-IsSession (ends path) s v = elim (Option-cases (lookup Bytes-discrete path s.running.popups)) [
  | inl e ↦ rw (move, e) v
  | inr (r, e) ↦
      rw (move, e)
        (record {
          devices = record { cap = v.devices.cap; distinct = v.devices.distinct };
          windows = end-IsRunning s path r e v.windows;
          due = inl refl;
        })
]

start-IsSession : (env : List (Bytes × Bytes)) → IsSession (start env)
unfolding new
start-IsSession env = record {
  devices = record { cap = omega arith; distinct = tt };
  windows = record { cap = omega arith; distinct = tt };
  due = inr (record { live = tt; running = tt; covered = tt });
}

pub after-IsSession : (moves : List Move) (s : Session) → IsSession s → IsSession (after moves s)
after-IsSession [] s v = v
after-IsSession (m ∷ moves) s v = after-IsSession moves (move m s) (move-IsSession m s v)

-- After every interleaving of `SetTouch`, passes of `Run` and popups that end, there are at most 32
-- windows, one for each device, and at most 32 devices are known to wait. If no pass is due then
-- each window is wanted for this episode of its device or its context is cancelled, none has ended,
-- and every waiting device has its window, has had it in this episode, or finds 32 windows.
pub after-start :
    (env : List (Bytes × Bytes)) (moves : List Move) → IsSession (after moves (start env))
after-start env moves = after-IsSession moves (start env) (start-IsSession env)
