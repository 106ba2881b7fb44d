-- ===== src/Service/Popups/Passes.antt =====
-- What one pass over the popups establishes.
use mathlib.Core.Path.{subst}
use gtkaskpass_yubikey.Base.{
  ℕ, ◌≡◌, ◌≤◌, ◌⊎◌, inl, inr, refl, true, false, none, List, [], ◌∷◌, Bytes, Bytes-discrete, All,
  Bool-cases, if_cases, sym, ◌∙◌, arith, is_some, length, if◌then◌else◌,
}
use gtkaskpass_yubikey.Base.Maps.{
  lookup, insert, Distinct, lookup-none_head, lookup-none_cons, lookup-insert_other, lookup-nil,
}
use gtkaskpass_yubikey.Service.Popups.{
  DesiredTouch, Popup, Running, max_devices, is_wanted, checked, finished_epoch, check_popups,
}

-- A popup whose device still waits, in the same episode, or whose context is cancelled.
abbrev pub IsLive : List (Bytes × DesiredTouch) → Bytes × Popup → Type 0
IsLive desired (path, r) = (is_wanted desired path r ≡ true) ⊎ (r.is_cancelled ≡ true)

-- A device that has its window, that had it in this episode, or for which there is no room.
abbrev pub IsCovered : Running → Bytes × DesiredTouch → Type 0
IsCovered run (path, want) =
    (is_some (lookup Bytes-discrete path run.popups) ≡ true)
    ⊎ (finished_epoch path run.finished ≡ want.epoch)
    ⊎ (max_devices ≤ length run.popups)

checked-IsLive :
    (desired : List (Bytes × DesiredTouch)) (path : Bytes) (r : Popup)
    → IsLive desired (path, checked desired path r)
checked-IsLive desired path r =
    if_cases (λ u. IsLive desired (path, u)) (is_wanted desired path r) (λ e. inl e) (λ _. inr refl)

module _ (desired : List (Bytes × DesiredTouch)) (path : Bytes) (r : Popup)
    (rest : List (Bytes × Popup)) (finished : List (Bytes × ℕ)) where
  check_done :
      r.is_done ≡ true
      → check_popups desired ((path, r) ∷ rest) finished
        ≡ check_popups desired rest (insert Bytes-discrete path r.epoch finished)
  unfolding check_popups
  check_done e =
      subst
        (λ b.
          (if b
            then check_popups desired rest
                (if b then insert Bytes-discrete path r.epoch finished else finished)
            else record (check_popups desired rest
                (if b then insert Bytes-discrete path r.epoch finished else finished)) {
                  popups =
                      (path, checked desired path r)
                      ∷ (check_popups desired rest (
                          if b
                          then insert Bytes-discrete path r.epoch finished
                          else finished)).popups;
                })
          ≡ check_popups desired rest (insert Bytes-discrete path r.epoch finished))
        (sym e) refl

  check_running :
      r.is_done ≡ false
      → check_popups desired ((path, r) ∷ rest) finished
        ≡ record (check_popups desired rest finished) {
          popups = (path, checked desired path r) ∷ (check_popups desired rest finished).popups;
        }
  unfolding check_popups
  check_running e =
      subst
        (λ b.
          (if b
            then check_popups desired rest
                (if b then insert Bytes-discrete path r.epoch finished else finished)
            else record (check_popups desired rest
                (if b then insert Bytes-discrete path r.epoch finished else finished)) {
                  popups =
                      (path, checked desired path r)
                      ∷ (check_popups desired rest (
                          if b
                          then insert Bytes-discrete path r.epoch finished
                          else finished)).popups;
                })
          ≡ record (check_popups desired rest finished) {
            popups = (path, checked desired path r) ∷ (check_popups desired rest finished).popups;
          })
        (sym e) refl

checked-done :
    (desired : List (Bytes × DesiredTouch)) (path : Bytes) (r : Popup)
    → (checked desired path r).is_done ≡ r.is_done
checked-done desired path r =
    if_cases (λ (u : Popup). u.is_done ≡ r.is_done) (is_wanted desired path r) (λ _. refl)
      (λ _. refl)

pub check-IsLive :
    (desired : List (Bytes × DesiredTouch)) (popups : List (Bytes × Popup))
    (finished : List (Bytes × ℕ))
    → All (IsLive desired) (check_popups desired popups finished).popups
unfolding check_popups
check-IsLive desired [] finished = tt
check-IsLive desired ((path, r) ∷ rest) finished = elim (Bool-cases r.is_done) [
  | inl e ↦
      rw (check_done desired path r rest finished e)
        (check-IsLive desired rest (insert Bytes-discrete path r.epoch finished))
  | inr e ↦
      rw (check_running desired path r rest finished e)
        (checked-IsLive desired path r, check-IsLive desired rest finished)
]

pub check-not_done :
    (desired : List (Bytes × DesiredTouch)) (popups : List (Bytes × Popup))
    (finished : List (Bytes × ℕ))
    → All (λ p. p.1.is_done ≡ false) (check_popups desired popups finished).popups
unfolding check_popups
check-not_done desired [] finished = tt
check-not_done desired ((path, r) ∷ rest) finished = elim (Bool-cases r.is_done) [
  | inl e ↦
      rw (check_done desired path r rest finished e)
        (check-not_done desired rest (insert Bytes-discrete path r.epoch finished))
  | inr e ↦
      rw (check_running desired path r rest finished e)
        (checked-done desired path r ∙ e, check-not_done desired rest finished)
]

pub check-length :
    (desired : List (Bytes × DesiredTouch)) (popups : List (Bytes × Popup))
    (finished : List (Bytes × ℕ))
    → length (check_popups desired popups finished).popups ≤ length popups
unfolding check_popups
check-length desired [] finished = omega arith
check-length desired ((path, r) ∷ rest) finished = elim (Bool-cases r.is_done) [
  | inl e ↦
      rw (check_done desired path r rest finished e)
        (omega (arith, check-length desired rest (insert Bytes-discrete path r.epoch finished)))
  | inr e ↦
      rw (check_running desired path r rest finished e)
        (omega (arith, check-length desired rest finished))
]

-- A device without a popup has none after the loop, and its record does not change.
pub check-none :
    (desired : List (Bytes × DesiredTouch)) (popups : List (Bytes × Popup))
    (finished : List (Bytes × ℕ)) (path : Bytes)
    → lookup Bytes-discrete path popups ≡ none
    → (lookup Bytes-discrete path (check_popups desired popups finished).popups ≡ none)
      × (lookup Bytes-discrete path (check_popups desired popups finished).finished
          ≡ lookup Bytes-discrete path finished)
unfolding check_popups
check-none desired [] finished path h = (lookup-nil Bytes-discrete path, refl)
check-none desired ((at, r) ∷ rest) finished path h =
    let apart = lookup-none_head Bytes-discrete path at r rest h in
    elim (Bool-cases r.is_done) [
      | inl e ↦
          let later =
            check-none desired rest (insert Bytes-discrete at r.epoch finished) path apart.1 in
          rw (check_done desired at r rest finished e)
            (later.0, later.1 ∙ lookup-insert_other Bytes-discrete at path r.epoch finished apart.0)
      | inr e ↦
          let later = check-none desired rest finished path apart.1 in
          rw (check_running desired at r rest finished e) (
            lookup-none_cons Bytes-discrete path at (checked desired at r)
                (check_popups desired rest finished).popups apart.0 later.0,
            later.1,
          )
    ]

pub check-Distinct :
    (desired : List (Bytes × DesiredTouch)) (popups : List (Bytes × Popup))
    (finished : List (Bytes × ℕ))
    → Distinct Bytes-discrete popups
    → Distinct Bytes-discrete (check_popups desired popups finished).popups
unfolding check_popups
check-Distinct desired [] finished d = tt
check-Distinct desired ((path, r) ∷ rest) finished d = elim (Bool-cases r.is_done) [
  | inl e ↦
      rw (check_done desired path r rest finished e)
        (check-Distinct desired rest (insert Bytes-discrete path r.epoch finished) d.1)
  | inr e ↦
      rw (check_running desired path r rest finished e)
        ((check-none desired rest finished path d.0).0, check-Distinct desired rest finished d.1)
]
