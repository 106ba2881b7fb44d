-- ===== src/Touch/Monitor/Watching.antt =====
-- What the monitor has said of each device is what its reader says.
use mathlib.Core.Logic.{ite, if_pos, if_neg}
use gtkaskpass_yubikey.Base.{
  suc, ◌≤◌, ◌<◌, ◌≡◌, refl, sym, ap, ◌∙◌, Bool, false, not, ◌&&◌, ◌||◌, Option, none, some, List,
  [], ◌∷◌, Bytes, Bytes-discrete, All, decide, length, if_cases, inl, inr, arith, Bool-cases,
}
use gtkaskpass_yubikey.Base.Maps.{
  lookup, insert, delete, Distinct, All-insert, All-delete, All-lookup, lookup-insert,
  lookup-delete, length-insert, length-delete-le, insert-Distinct, delete-Distinct,
}
use gtkaskpass_yubikey.Service.Popups.{max_devices}
use gtkaskpass_yubikey.Touch.Tracker.{Tracker, active}
use gtkaskpass_yubikey.Touch.Monitor.{
  Reader, Event, touched, diagnosed, Monitor, find, put, release, removed, remove, diagnose,
}
use gtkaskpass_yubikey.Touch.Monitor.Rounds.{settle, tracked, track}

-- What the sink was told last of the device at a path, if anything.
unfoldable pub told : Bytes → List Event → Bool
told path [] = false
told path (touched d b ∷ events) =
    let rest = told path events in ite (Bytes-discrete d.path path) b rest
told path (diagnosed text ∷ events) = told path events

-- The reader at the path says that its device waits.
abbrev pub waits : Bytes → List (Bytes × Reader) → Bool
waits path readers = elim (lookup Bytes-discrete path readers) [
  | none ↦ false
  | some r ↦ r.is_active
]

-- A reader is under the path of its device, and its flag is the state of its tracker.
abbrev pub IsFaithful : Bytes × Reader → Type 0
IsFaithful (path, r) = (r.device.path ≡ path) × (r.is_active ≡ active r.tracker)

pub record IsWatched (readers : List (Bytes × Reader)) (events : List Event) : Type 0 where
  pub cap : length readers ≤ max_devices
  pub distinct : Distinct Bytes-discrete readers
  pub faithful : All IsFaithful readers
  pub told_waits : (path : Bytes) → told path events ≡ waits path readers

abbrev pub Watched : Monitor → Type 0
Watched m = IsWatched m.readers m.events

waits-delete :
    (path q : Bytes) (readers : List (Bytes × Reader))
    → waits q (delete Bytes-discrete path readers)
      ≡ ite (Bytes-discrete path q) false (waits q readers)
waits-delete path q readers = ground (arith, lookup-delete Bytes-discrete path q readers)

waits-insert :
    (path q : Bytes) (r : Reader) (readers : List (Bytes × Reader))
    → waits q (insert Bytes-discrete path r readers)
      ≡ ite (Bytes-discrete path q) r.is_active (waits q readers)
waits-insert path q r readers = ground (arith, lookup-insert Bytes-discrete path q r readers)

found-IsFaithful :
    (m : Monitor) (path : Bytes) (r : Reader)
    → Watched m
    → find path m ≡ some r
    → IsFaithful (path, r)
found-IsFaithful m path r w e = All-lookup Bytes-discrete IsFaithful path r m.readers w.faithful e

found-told :
    (m : Monitor) (path : Bytes) (r : Reader)
    → Watched m
    → find path m ≡ some r
    → told path m.events ≡ r.is_active
found-told m path r w e = w.told_waits path ∙ rw (waits, e) refl

pub told-release :
    (m : Monitor) (r : Reader) (q : Bytes)
    → told r.device.path m.events ≡ r.is_active
    → told q (release r m).events ≡ ite (Bytes-discrete r.device.path q) false (told q m.events)
unfolding told
told-release m r q e = elim (Bool-cases r.is_active) [
  | inl a ↦ rw a refl
  | inr a ↦ rw a (elim (Bytes-discrete r.device.path q) [
    | yes p ↦
        ap (λ x. told x m.events) (sym p)
        ∙ e
        ∙ a
        ∙ sym (if_pos (Bytes-discrete r.device.path q) p _ _)
    | no p ↦ sym (if_neg (Bytes-discrete r.device.path q) p _ _)
  ])
]

removed-Watched :
    (m : Monitor) (path : Bytes) (o : Option Reader)
    → find path m ≡ o
    → Watched m
    → Watched (removed path o m)
removed-Watched m path none e w = w
removed-Watched m path (some r) e w =
    let f = found-IsFaithful m path r w e in
    record {
      cap = omega (arith, length-delete-le Bytes-discrete path m.readers, w.cap);
      distinct = delete-Distinct Bytes-discrete path m.readers w.distinct;
      faithful = All-delete Bytes-discrete IsFaithful path m.readers w.faithful;
      told_waits = λ q.
          told-release m r q (rw f.0 (found-told m path r w e))
          ∙ rw (f.0, w.told_waits q) refl
          ∙ sym (waits-delete path q m.readers);
    }

pub remove-Watched : (m : Monitor) (path : Bytes) → Watched m → Watched (remove path m)
unfolding remove
remove-Watched m path w = removed-Watched m path (find path m) refl w

-- A flag that does not change is not told.
told-same :
    (m : Monitor) (path q : Bytes) (a b : Bool)
    → told path m.events ≡ b
    → a ≡ b
    → told q m.events ≡ ite (Bytes-discrete path q) a (told q m.events)
told-same m path q a b e same = elim (Bytes-discrete path q) [
  | yes p ↦
      ap (λ x. told x m.events) (sym p) ∙ e ∙ sym same ∙ sym (if_pos (Bytes-discrete path q) p _ _)
  | no p ↦ sym (if_neg (Bytes-discrete path q) p _ _)
]

-- A reader is put under its path, and the events tell of it.
put-Watched :
    (m : Monitor) (path : Bytes) (r : Reader) (events : List Event)
    → length (insert Bytes-discrete path r m.readers) ≤ max_devices
    → IsFaithful (path, r)
    → Watched m
    → ((q : Bytes) → told q events ≡ ite (Bytes-discrete path q) r.is_active (told q m.events))
    → IsWatched (insert Bytes-discrete path r m.readers) events
put-Watched m path r events fits f w h = record {
  cap = fits;
  distinct = insert-Distinct Bytes-discrete path r m.readers w.distinct;
  faithful = All-insert Bytes-discrete IsFaithful path r m.readers f w.faithful;
  told_waits = λ q. h q ∙ rw (w.told_waits q) refl ∙ sym (waits-insert path q r m.readers);
}

length-replace :
    (m : Monitor) (path : Bytes) (r r' : Reader)
    → find path m ≡ some r
    → length (insert Bytes-discrete path r' m.readers) ≡ length m.readers
length-replace m path r r' e = length-insert Bytes-discrete path r' m.readers ∙ rw e refl

length-put-le :
    (m : Monitor) (path : Bytes) (r : Reader)
    → length (insert Bytes-discrete path r m.readers) ≤ suc (length m.readers)
length-put-le m path r = ground (arith, length-insert Bytes-discrete path r m.readers)

settle-Watched :
    (m : Monitor) (path : Bytes) (r : Reader) (tracker : Tracker)
    → find path m ≡ some r
    → Watched m
    → Watched (settle path r tracker m)
unfolding settle told
settle-Watched m path r tracker e w =
    let f = found-IsFaithful m path r w e in
    let r' : Reader = record r { tracker = tracker; is_active = active tracker } in
    let fits : length (insert Bytes-discrete path r' m.readers) ≤ max_devices =
      omega (arith, length-replace m path r r' e, w.cap) in
    if_cases Watched (active tracker && r.is_active || not (active tracker) && not r.is_active)
      (λ same.
        put-Watched m path r' m.events fits (f.0, refl) w
          λ q.
            told-same m path q (active tracker) r.is_active (found-told m path r w e)
              (ground arith))
      (λ differs.
        put-Watched m path r' (touched r.device (active tracker) ∷ m.events) fits (f.0, refl) w
          λ q. rw f.0 refl)

tracked-Watched :
    (m : Monitor) (path : Bytes) (f : Reader → Tracker) (o : Option Reader)
    → find path m ≡ o
    → Watched m
    → Watched (tracked path f o m)
tracked-Watched m path f none e w = w
tracked-Watched m path f (some r) e w = settle-Watched m path r (f r) e w

pub track-Watched :
    (m : Monitor) (path : Bytes) (f : Reader → Tracker) → Watched m → Watched (track path f m)
track-Watched m path f w = tracked-Watched m path f (find path m) refl w

pub diagnose-Watched : (text : Bytes) (m : Monitor) → Watched m → Watched (diagnose text m)
unfolding diagnose told
diagnose-Watched text m w =
    if_cases Watched (decide (Bytes-discrete text m.last_diagnostic)) (λ e. w)
      (λ e. record {
        cap = w.cap;
        distinct = w.distinct;
        faithful = w.faithful;
        told_waits = λ q. w.told_waits q;
      })

-- A new reader, at a path that has none
pub open-Watched :
    (m : Monitor) (path : Bytes) (r : Reader)
    → find path m ≡ none
    → length m.readers < max_devices
    → IsFaithful (path, r)
    → r.is_active ≡ false
    → Watched m
    → Watched (put path r m)
open-Watched m path r e fits f quiet w =
    put-Watched m path r m.events (omega (arith, length-put-le m path r, fits)) f w
      λ q. told-same m path q r.is_active false (w.told_waits path ∙ rw (waits, e) refl) quiet
