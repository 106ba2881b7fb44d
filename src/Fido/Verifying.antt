-- ===== src/Fido/Verifying.antt =====
-- On which device `Verify` of internal/fido/backend.go tries a PIN.
use gtkaskpass_yubikey.Base.{
  ◌≡◌, ◌≢◌, refl, sym, ap, ◌∙◌, true, false, not, ◌||◌, List, [], ◌∷◌, ◌++◌, Bytes, is_empty,
  if_cases, arith,
}
use gtkaskpass_yubikey.Base.Int.{ℤ}
use gtkaskpass_yubikey.Dialog.{
  Device, Verdict, Status, accepted, invalid, temporary_block, unavailable, blocked,
}
use gtkaskpass_yubikey.Fido.{
  System, identity, Code, ok, pin_invalid, pin_auth_blocked, pin_blocked, other, Answers, Act,
  opened, asked, closed, judged, retries_of, is_zero, is_at, verify_opened, verify,
}

-- The device's connection is known, and it is the one that was selected, before it was opened and after;
-- it is not known to have no attempts left, and the request goes on.
pub record IsBound (a : Answers) (d : Device) : Type 0 where
  pub is_known : is_empty d.connection ≡ false
  pub before : (identity a.before d.path).connection ≡ d.connection
  pub after : (identity a.after d.path).connection ≡ d.connection
  pub opens : a.opens ≡ true
  pub is_usable : is_zero (retries_of a.count) ≡ false
  pub goes_on : (a.is_over ≡ false) × (a.is_over_later ≡ false)

-- What a status says of the code of the library: only `ok` accepts, and only a wrong PIN and the two
-- blocks are told as such.
pub data Says : Code → Status → Type 0 where
  says_ok : Says ok accepted
  says_invalid : Says pin_invalid invalid
  says_paused : Says pin_auth_blocked temporary_block
  says_blocked : Says pin_blocked blocked
  says_other : Says other unavailable

-- The retries that a verdict tells: those counted before for `ok`, those counted again otherwise.
abbrev pub told_retries : Answers → ℤ
told_retries a = elim a.code [
  | ok ↦ retries_of a.count
  | pin_invalid ↦ retries_of a.count_later
  | pin_auth_blocked ↦ retries_of a.count_later
  | pin_blocked ↦ retries_of a.count_later
  | other ↦ retries_of a.count_later
]

-- The result, and what was done with the device.
pub data IsVerified (a : Answers) (d : Device) (pin : Bytes) : Verdict × List Act → Type 0 where
  refused : (r : Verdict) → r.status ≢ accepted → IsVerified a d pin (r, [])
  left : (r : Verdict) → r.status ≢ accepted → IsVerified a d pin (r, opened ∷ closed ∷ [])
  tried :
      (r : Verdict)
      → IsBound a d
      → Says a.code r.status
      → r.retries ≡ told_retries a
      → IsVerified a d pin (r, opened ∷ asked pin ∷ closed ∷ [])

judged-Says : (code : Code) (count later : ℤ) → Says code (judged code count later).status
judged-Says ok count later = says_ok
judged-Says pin_invalid count later = says_invalid
judged-Says pin_auth_blocked count later = says_paused
judged-Says pin_blocked count later = says_blocked
judged-Says other count later = says_other

judged-retries :
    (a : Answers) (code : Code)
    → a.code ≡ code
    → (judged a.code (retries_of a.count) (retries_of a.count_later)).retries ≡ told_retries a
judged-retries a ok e = rw e refl
judged-retries a pin_invalid e = rw e refl
judged-retries a pin_auth_blocked e = rw e refl
judged-retries a pin_blocked e = rw e refl
judged-retries a other e = rw e refl

at-connection :
    (sys : System) (d : Device)
    → not (is_at sys d) ≡ false
    → (identity sys d.path).connection ≡ d.connection
at-connection sys d e = ground arith

unavailable_other : unavailable ≢ accepted
unavailable_other e = ground arith

blocked_other : blocked ≢ accepted
blocked_other e = ground arith

-- With the two actions around it
abbrev around : Verdict × List Act → Verdict × List Act
around (r, acts) = (r, opened ∷ (acts ++ (closed ∷ [])))

module _ (a : Answers) (d : Device) (pin : Bytes) where
  opened-IsVerified :
      a.is_over ≡ false
      → is_empty (identity a.before d.path).connection || not (is_at a.before d) ≡ false
      → a.opens ≡ true
      → IsVerified a d pin (around (verify_opened a d pin))
  unfolding verify_opened
  opened-IsVerified over known opens =
      if_cases (λ (p : Verdict × List Act). IsVerified a d pin (around p)) (not (is_at a.after d))
        (λ _. left _ unavailable_other)
        (λ after.
          if_cases (λ (p : Verdict × List Act). IsVerified a d pin (around p))
            (is_zero (retries_of a.count)) (λ _. left _ blocked_other)
            (λ usable.
              if_cases (λ (p : Verdict × List Act). IsVerified a d pin (around p)) a.is_over_later
                (λ _. left _ unavailable_other)
                (λ later.
                  tried _
                    (record {
                      is_known = ap is_empty (sym before) ∙ ground arith;
                      before = before;
                      after = at-connection a.after d after;
                      opens = opens;
                      is_usable = usable;
                      goes_on = (over, later);
                    })
                    (judged-Says a.code _ _) (judged-retries a a.code refl))))
    where
      before : (identity a.before d.path).connection ≡ d.connection
      before = at-connection a.before d (ground arith)

  -- A PIN is tried at most once, and only on a device that opens, is not known to have no attempts left
  -- and has the selected connection, which is known, before it is opened and after; otherwise the result
  -- is no acceptance. The device is closed if it was opened. The result of a try is an acceptance for the
  -- code `ok` alone, a wrong PIN, a temporary block and a block for their codes alone, and unavailable
  -- for any other; it tells the retries counted before for `ok`, and those counted again otherwise.
  pub verify-IsVerified : IsVerified a d pin (verify a d pin)
  unfolding verify
  verify-IsVerified =
      if_cases (IsVerified a d pin) a.is_over (λ _. refused _ unavailable_other)
        λ over.
          if_cases (IsVerified a d pin)
            (is_empty (identity a.before d.path).connection || not (is_at a.before d))
            (λ _. refused _ unavailable_other)
            λ known.
              if_cases (IsVerified a d pin) (not a.opens) (λ _. refused _ unavailable_other)
                λ opens. opened-IsVerified over known (ground arith)
