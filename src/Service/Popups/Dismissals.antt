-- ===== src/Service/Popups/Dismissals.antt =====
-- A window that has gone does not come back in the same episode.
use gtkaskpass_yubikey.Base.{
  ℕ, ◌+◌, ◌%◌, ◌^◌, ◌≡◌, ◌≢◌, inl, inr, true, false, Option, none, some, List, [], ◌∷◌, Bytes,
  Bytes-discrete, All, Option-cases, if_cases, sym, ◌∙◌, ap, arith, is_some,
}
use gtkaskpass_yubikey.Base.Maps.{
  lookup, retain, Distinct, All-map, lookup-All, lookup-delete, lookup-insert_other,
  lookup-retain_same,
}
use gtkaskpass_yubikey.Service.Popups.{
  Device, DesiredTouch, Mailbox, Running, is_new, set_touch, check_popups, is_desired, opened,
  finished_epoch, pass,
}
use gtkaskpass_yubikey.Service.Popups.Passes.{check-none}
use gtkaskpass_yubikey.Service.Popups.Starts.{start_rule}
use gtkaskpass_yubikey.Service.Popups.Sessions.{
  Session, Move, touches, runs, ends, move, after, IsSession, move-IsSession,
}

-- The device waits, has no window, and its window of this episode has ended.
pub record IsDismissed (path : Bytes) (want : DesiredTouch) (s : Session) : Type 0 where
  pub waits : lookup Bytes-discrete path s.mailbox.desired ≡ some want
  pub shut : lookup Bytes-discrete path s.running.popups ≡ none
  pub ended : lookup Bytes-discrete path s.running.finished ≡ some want.epoch

-- The move does not report that the device has stopped waiting.
abbrev pub KeepsWaiting : Bytes → Move → Type 0
KeepsWaiting path (touches d true) = Unit
KeepsWaiting path (touches d false) = d.path ≢ path
KeepsWaiting path runs = Unit
KeepsWaiting path (ends other) = Unit

set_touch-waits :
    (p : Mailbox) (d : Device) (path : Bytes) (want : DesiredTouch)
    → lookup Bytes-discrete path p.desired ≡ some want
    → lookup Bytes-discrete path (set_touch p d true).desired ≡ some want
unfolding set_touch
set_touch-waits p d path want e =
    if_cases (λ (q : Mailbox). lookup Bytes-discrete path q.desired ≡ some want) (is_new p d)
      (λ f.
        lookup-insert_other Bytes-discrete d.path path
          (record { device = d; epoch = (p.epoch + 1) % 2 ^ 64 }) p.desired
          (λ same. absurd (ground (arith, f, e, ap (λ x. lookup Bytes-discrete x p.desired) same)))
        ∙ e)
      (λ _. e)

seen :
    (desired : List (Bytes × DesiredTouch)) (finished : List (Bytes × ℕ)) (other path : Bytes)
    (w want : DesiredTouch)
    → other ≡ path
    → lookup Bytes-discrete other desired ≡ some w
    → lookup Bytes-discrete path desired ≡ some want
    → lookup Bytes-discrete path finished ≡ some want.epoch
    → finished_epoch other finished ≡ w.epoch
seen desired finished other path w want same e waits ended =
    let found : lookup Bytes-discrete other desired ≡ some want = rw same waits in
    let one : w ≡ want = cc in
    ap (λ x. finished_epoch x finished) same
    ∙ ap (λ (o : Option ℕ). elim o [ none ↦ 0 | some e ↦ e ]) ended
    ∙ ap (λ (u : DesiredTouch). u.epoch) (sym one)

releases :
    (p : Mailbox) (d : Device) (path : Bytes) (want : DesiredTouch)
    → d.path ≢ path
    → lookup Bytes-discrete path p.desired ≡ some want
    → lookup Bytes-discrete path (set_touch p d false).desired ≡ some want
unfolding set_touch
releases p d path want k e =
    ground (arith, lookup-delete Bytes-discrete d.path path p.desired, k, e)

pass-shut :
    (desired : List (Bytes × DesiredTouch)) (run : Running) (path : Bytes) (want : DesiredTouch)
    → Distinct Bytes-discrete desired
    → lookup Bytes-discrete path desired ≡ some want
    → lookup Bytes-discrete path run.popups ≡ none
    → lookup Bytes-discrete path run.finished ≡ some want.epoch
    → (lookup Bytes-discrete path (pass desired run).popups ≡ none)
      × (lookup Bytes-discrete path (pass desired run).finished ≡ some want.epoch)
unfolding pass
pass-shut desired run path want d waits shut ended =
    let kept = check_popups desired run.popups run.finished in
    let finished = retain (is_desired desired) kept.finished in
    let checks = check-none desired run.popups run.finished path shut in
    let ended_still : lookup Bytes-discrete path finished ≡ some want.epoch =
      lookup-retain_same Bytes-discrete (is_desired desired) path kept.finished
        (λ _. ap is_some waits)
      ∙ checks.1
      ∙ ended in
    (
      start_rule (λ ps. lookup Bytes-discrete path ps ≡ none) desired finished
          (All-map (λ p. lookup Bytes-discrete p.0 desired ≡ some p.1) _ desired
            (λ other w e ps _ fresh _ h.
              lookup-insert_other Bytes-discrete other path (opened w) ps
                (λ same. fresh (seen desired finished other path w want same e waits ended_still))
              ∙ h)
            (lookup-All Bytes-discrete desired d))
          kept.popups checks.0,
      ended_still,
    )

move-IsDismissed :
    (m : Move) (path : Bytes) (want : DesiredTouch) (s : Session)
    → IsSession s
    → KeepsWaiting path m
    → IsDismissed path want s
    → IsDismissed path want (move m s)
unfolding move
move-IsDismissed (touches d true) path want s v k h = record {
  waits = set_touch-waits s.mailbox d path want h.waits;
  shut = h.shut;
  ended = h.ended;
}
move-IsDismissed (touches d false) path want s v k h = record {
  waits = releases s.mailbox d path want k h.waits;
  shut = h.shut;
  ended = h.ended;
}
move-IsDismissed runs path want s v k h =
    let kept =
      pass-shut s.mailbox.desired s.running path want v.devices.distinct h.waits h.shut h.ended in
    if_cases (IsDismissed path want) s.mailbox.is_woken
      (λ _. record { waits = h.waits; shut = kept.0; ended = kept.1 }) (λ _. h)
move-IsDismissed (ends other) path want s v k h =
    elim (Option-cases (lookup Bytes-discrete other s.running.popups)) [
      | inl e ↦ rw (move, e) h
      | inr (r, e) ↦
          rw (move, e)
            (record {
              waits = h.waits;
              shut =
                  lookup-insert_other Bytes-discrete other path (record r { is_done = true })
                    s.running.popups
                    (λ same. absurd (
                      ground (
                        arith,
                        e,
                        h.shut,
                        ap (λ x. lookup Bytes-discrete x s.running.popups) same,
                      )))
                  ∙ h.shut;
              ended = h.ended;
            })
    ]

-- Once the window of a waiting device has ended and is recorded, no interleaving of reports,
-- passes and ends of popups opens one for that device again, as long as no report says that the
-- device has stopped waiting.
pub after-IsDismissed :
    (moves : List Move) (path : Bytes) (want : DesiredTouch) (s : Session)
    → IsSession s
    → All (KeepsWaiting path) moves
    → IsDismissed path want s
    → IsDismissed path want (after moves s)
after-IsDismissed [] path want s v k h = h
after-IsDismissed (m ∷ moves) path want s v k h =
    after-IsDismissed moves path want (move m s) (move-IsSession m s v) k.1
      (move-IsDismissed m path want s v k.0 h)
