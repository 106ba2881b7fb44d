-- ===== src/Service/Popups/Starts.antt =====
-- The loop that starts popups for the devices that wait, and the whole pass.
use mathlib.Core.Path.{ap}
use gtkaskpass_yubikey.Base.{
  ℕ, suc, ◌≡◌, ◌≢◌, ◌≤◌, inl, inr, refl, true, false, none, some, List, [], ◌∷◌, Bytes,
  Bytes-discrete, All, Bool-cases, if_cases, arith, is_some, length, ◌==◌, if◌then◌else◌,
}
use gtkaskpass_yubikey.Base.Maps.{
  lookup, insert, retain, Distinct, All-insert, All-map, length-insert, insert-Distinct, lookup-All,
  lookup-insert_same, is_some-insert,
}
use gtkaskpass_yubikey.Service.Popups.{
  DesiredTouch, Popup, Running, max_devices, is_skipped, opened, finished_epoch, check_popups,
  start_popups, is_desired, pass,
}
use gtkaskpass_yubikey.Service.Popups.Passes.{
  IsLive, IsCovered, check-IsLive, check-not_done, check-length, check-Distinct,
}

abbrev start_one :
    Bytes → DesiredTouch → List (Bytes × Popup) → List (Bytes × ℕ) → List (Bytes × Popup)
start_one path want popups finished =
    if is_skipped path want popups finished
    then popups
    else insert Bytes-discrete path (opened want) popups

-- What holds of the popups, and of the popups with a new one where there is room and none for the
-- device, holds after one turn.
start_cases {ℓ} :
    (P : List (Bytes × Popup) → Type ℓ) (path : Bytes) (want : DesiredTouch)
    (popups : List (Bytes × Popup)) (finished : List (Bytes × ℕ))
    → P popups
    → (lookup Bytes-discrete path popups ≡ none
        → finished_epoch path finished ≢ want.epoch
        → suc (length popups) ≤ max_devices
        → P (insert Bytes-discrete path (opened want) popups))
    → P (start_one path want popups finished)
start_cases P path want popups finished keep add =
    if_cases P (is_skipped path want popups finished) (λ _. keep)
      (λ e. add (ground (arith, e)) (λ h. ground (arith, e, h)) (ground (arith, e)))

every {ℓ κ} : {A : Type ℓ} {P : A → Type κ} (xs : List A) → ((x : A) → P x) → All P xs
every [] f = tt
every (x ∷ xs) f = (f x, every xs f)

-- A property of popups that one turn keeps is kept by the loop.
pub start_rule {ℓ} :
    (P : List (Bytes × Popup) → Type ℓ) (todo : List (Bytes × DesiredTouch))
    (finished : List (Bytes × ℕ))
    → All
        (λ p.
          (popups : List (Bytes × Popup))
          → lookup Bytes-discrete p.0 popups ≡ none
          → finished_epoch p.0 finished ≢ p.1.epoch
          → suc (length popups) ≤ max_devices
          → P popups
          → P (insert Bytes-discrete p.0 (opened p.1) popups))
        todo
    → (popups : List (Bytes × Popup)) → P popups
    → P (start_popups todo popups finished)
unfolding start_popups
start_rule P [] finished each popups h = h
start_rule P ((path, want) ∷ todo) finished each popups h =
    start_rule P todo finished each.1 (start_one path want popups finished)
      (start_cases P path want popups finished h (λ a b c. each.0 popups a b c h))

abbrev with_popups : List (Bytes × ℕ) → List (Bytes × Popup) → Running
with_popups finished popups = record { popups = popups; finished = finished }

insert-IsCovered :
    (path : Bytes) (r : Popup) (popups : List (Bytes × Popup)) (finished : List (Bytes × ℕ))
    (p : Bytes × DesiredTouch)
    → IsCovered (with_popups finished popups) p
    → IsCovered (with_popups finished (insert Bytes-discrete path r popups)) p
insert-IsCovered path r popups finished p (inl h) =
    inl (is_some-insert Bytes-discrete path p.0 r popups h)
insert-IsCovered path r popups finished p (inr (inl h)) = inr (inl h)
insert-IsCovered path r popups finished p (inr (inr h)) =
    inr (inr (ground (arith, h, length-insert Bytes-discrete path r popups)))

start-keeps_IsCovered :
    (todo : List (Bytes × DesiredTouch)) (popups : List (Bytes × Popup))
    (finished : List (Bytes × ℕ)) (p : Bytes × DesiredTouch)
    → IsCovered (with_popups finished popups) p
    → IsCovered (with_popups finished (start_popups todo popups finished)) p
start-keeps_IsCovered todo popups finished p h =
    start_rule (λ ps. IsCovered (with_popups finished ps) p) todo finished
      (every todo (λ q ps _ _ _ g. insert-IsCovered q.0 (opened q.1) ps finished p g)) popups h

skipped-covers :
    (path : Bytes) (want : DesiredTouch) (popups : List (Bytes × Popup))
    (finished : List (Bytes × ℕ))
    → is_skipped path want popups finished ≡ true
    → IsCovered (with_popups finished popups) (path, want)
skipped-covers path want popups finished e =
    elim (Bool-cases (is_some (lookup Bytes-discrete path popups))) [
      | inl a ↦ inl a
      | inr a ↦ elim (Bool-cases (finished_epoch path finished == want.epoch)) [
        | inl b ↦ inr (inl (ground (arith, b)))
        | inr b ↦ inr (inr (ground (arith, e, a, b)))
      ]
    ]

turn-covers :
    (path : Bytes) (want : DesiredTouch) (popups : List (Bytes × Popup))
    (finished : List (Bytes × ℕ))
    → IsCovered (with_popups finished (start_one path want popups finished)) (path, want)
turn-covers path want popups finished =
    if_cases (λ ps. IsCovered (with_popups finished ps) (path, want))
      (is_skipped path want popups finished) (λ e. skipped-covers path want popups finished e)
      (λ _. inl (ap is_some (lookup-insert_same Bytes-discrete path (opened want) popups)))

start-covers :
    (todo : List (Bytes × DesiredTouch)) (popups : List (Bytes × Popup))
    (finished : List (Bytes × ℕ))
    → All (IsCovered (with_popups finished (start_popups todo popups finished))) todo
unfolding start_popups
start-covers [] popups finished = tt
start-covers ((path, want) ∷ todo) popups finished =
    let turn = start_one path want popups finished in
    (
      start-keeps_IsCovered todo turn finished (path, want) (turn-covers path want popups finished),
      start-covers todo turn finished,
    )

-- The windows of a pass: as many as there may be, one for each device, each of them live and none
-- ended, and every device that waits has its window, has had it in this episode, or finds no room.
pub record IsSettled (desired : List (Bytes × DesiredTouch)) (run : Running) : Type 0 where
  pub live : All (IsLive desired) run.popups
  pub running : All (λ p. p.1.is_done ≡ false) run.popups
  pub covered : All (IsCovered run) desired

pub record IsRunning (run : Running) : Type 0 where
  pub cap : length run.popups ≤ max_devices
  pub distinct : Distinct Bytes-discrete run.popups

pub pass-IsRunning :
    (desired : List (Bytes × DesiredTouch)) (run : Running)
    → IsRunning run
    → IsRunning (pass desired run)
unfolding pass
pass-IsRunning desired run v =
    let kept = check_popups desired run.popups run.finished in
    let finished = retain (is_desired desired) kept.finished in
    start_rule (λ ps. IsRunning (with_popups finished ps)) desired finished
      (every desired (λ p ps free _ room w. record {
        cap = ground (arith, free, room, length-insert Bytes-discrete p.0 (opened p.1) ps);
        distinct = insert-Distinct Bytes-discrete p.0 (opened p.1) ps w.distinct;
      }))
      kept.popups
      (record {
        cap = omega (arith, v.cap, check-length desired run.popups run.finished);
        distinct = check-Distinct desired run.popups run.finished v.distinct;
      })

pub pass-IsSettled :
    (desired : List (Bytes × DesiredTouch)) (run : Running)
    → Distinct Bytes-discrete desired
    → IsSettled desired (pass desired run)
unfolding pass
pass-IsSettled desired run d =
    let kept = check_popups desired run.popups run.finished in
    let finished = retain (is_desired desired) kept.finished in
    record {
      live =
          start_rule (All (IsLive desired)) desired finished
            (All-map (λ p. lookup Bytes-discrete p.0 desired ≡ some p.1) _ desired
              (λ path want e ps _ _ _ h.
                All-insert Bytes-discrete (IsLive desired) path (opened want) ps
                  (inl (ground (arith, e))) h)
              (lookup-All Bytes-discrete desired d))
            kept.popups (check-IsLive desired run.popups run.finished);
      running =
          start_rule (All (λ p. p.1.is_done ≡ false)) desired finished
            (every desired (λ p ps _ _ _ h.
              All-insert Bytes-discrete (λ p. p.1.is_done ≡ false) p.0 (opened p.1) ps refl h))
            kept.popups (check-not_done desired run.popups run.finished);
      covered = start-covers desired kept.popups finished;
    }
