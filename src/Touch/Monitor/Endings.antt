-- ===== src/Touch/Monitor/Endings.antt =====
-- When the monitor ends, no device is said to wait.
use mathlib.Core.Logic.{ite}
use gtkaskpass_yubikey.Base.{
  ◌≡◌, ◌∙◌, false, none, List, [], ◌∷◌, Bytes, Bytes-discrete, All, arith,
}
use gtkaskpass_yubikey.Base.Maps.{lookup, Distinct}
use gtkaskpass_yubikey.Touch.Monitor.{Reader, Monitor, start, release}
use gtkaskpass_yubikey.Touch.Monitor.Rounds.{Pass, release_all, close, passes, run}
use gtkaskpass_yubikey.Touch.Monitor.Watching.{told, waits, IsFaithful, told-release}
use gtkaskpass_yubikey.Touch.Monitor.Passes.{passes-Watched}

waits-rest :
    (path q : Bytes) (r : Reader) (readers : List (Bytes × Reader))
    → lookup Bytes-discrete path readers ≡ none
    → ite (Bytes-discrete path q) false (waits q ((path, r) ∷ readers)) ≡ waits q readers
unfolding lookup
waits-rest path q r readers e = ground arith

waits-head :
    (path : Bytes) (r : Reader) (readers : List (Bytes × Reader))
    → waits path ((path, r) ∷ readers) ≡ r.is_active
unfolding lookup
waits-head path r readers = ground arith

release_all-told :
    (readers : List (Bytes × Reader)) (m : Monitor)
    → Distinct Bytes-discrete readers
    → All IsFaithful readers
    → ((q : Bytes) → told q m.events ≡ waits q readers)
    → (q : Bytes) → told q (release_all readers m).events ≡ false
unfolding lookup
release_all-told [] m d f t q = t q
release_all-told ((path, r) ∷ readers) m d f t q =
    release_all-told readers (release r m) d.1 f.1 next q
  where
    next : (q : Bytes) → told q (release r m).events ≡ waits q readers
    next q =
        told-release m r q (rw f.0.0 (t path ∙ waits-head path r readers))
        ∙ rw (f.0.0, t q) (waits-rest path q r readers d.0)

-- Whatever the system answers, when the monitor ends, the last that was said of any device is that it
-- does not wait, if anything was said of it.
pub run-told : (ps : List Pass) (path : Bytes) → told path (run ps).events ≡ false
unfolding run close
run-told ps path =
    let w = passes-Watched ps in
    release_all-told (passes ps start).readers _ w.distinct w.faithful w.told_waits path
