-- ===== src/Service/Handling/Entered.antt =====
-- What the variables of the main loop, Service/Handler/Attempts, say of the events.
use gtkaskpass_yubikey.Base.{
  ℕ, ◌≡◌, ◌==◌, ◌∙◌, refl, Bool, true, false, not, Option, none, some, List, [], ◌∷◌, codes,
  if◌then◌else◌, is_empty, ◌⊎◌, inl, arith,
}
use gtkaskpass_yubikey.Cache.Identity.{Identity}
use gtkaskpass_yubikey.Cache.Store.{Lookup}
use gtkaskpass_yubikey.Dialog.{Device, Action, Verdict}
use gtkaskpass_yubikey.Service.Handler.World.{
  Log, acted, discovered, begun, rejected, tried, sent, acknowledged, committed, forgotten, saved,
}
use gtkaskpass_yubikey.Service.Handler.Windows.{is_kind}
use gtkaskpass_yubikey.Service.Handler.Attempts.{
  Locals, Round, reselect, again, entered, is_among, is_present, is_accepted,
}
use gtkaskpass_yubikey.Service.Handling.Trace.{
  Safe, IsOpen, phase, entry, is_fresh, verified, connected,
}
use gtkaskpass_yubikey.Service.Handling.Windows.{HasHeard}

-- No device has accepted the value.
pub record IsUnvouched (verify : Bool) (log : Log) : Type 0 where
  pub is_open : IsOpen verify log
  pub unvouched : verified log ≡ none

-- There is no value.
pub record IsCleared (verify : Bool) (l : Locals) (log : Log) : Type 0 where
  pub is_open : IsOpen verify log
  pub is_cleared : is_empty l.value ≡ true

-- The value was entered last and not tried.
pub record IsEntered (verify : Bool) (l : Locals) (log : Log) : Type 0 where
  pub is_open : IsOpen verify log
  pub entered : entry log ≡ some (l.value, l.remember)
  pub fresh : is_fresh log ≡ true

pub record IsLoop (verify : Bool) (l : Locals) (log : Log) : Type 0 where
  pub is_open : IsOpen verify log
  pub held :
      (is_empty l.value ≡ true) ⊎ ((entry log ≡ some (l.value, l.remember)) × (is_fresh log ≡ true))

abbrev pub VouchedBy : Bool → Device → Log → Type 0
VouchedBy false d log = Unit {0}
VouchedBy true d log = verified log ≡ some d

-- The value was entered last, and the device has accepted it if it is verified.
pub record IsFinal (verify : Bool) (l : Locals) (log : Log) : Type 0 where
  pub is_open : IsOpen verify log
  pub is_entered : entry log ≡ some (l.value, l.remember)
  pub is_vouched : VouchedBy verify l.selected log

-- The device has the value's verdict.
pub record IsTried (verify : Bool) (l : Locals) (r : Verdict) (log : Log) : Type 0 where
  pub is_open : IsOpen verify log
  pub entered : entry log ≡ some (l.value, l.remember)
  pub verdict : verified log ≡ (if is_accepted r.status then some l.selected else none)

abbrev pub AfterRound : Bool → Round → Log → Type 0
AfterRound verify (reselect v) log = IsOpen verify log
AfterRound verify (again l) log = IsLoop verify l log
AfterRound verify (entered l) log = IsFinal verify l log

abbrev pub AfterLoop : Bool → Round → Log → Type 0
AfterLoop verify (reselect v) log = IsOpen verify log
AfterLoop verify (again l) log = ⊥
AfterLoop verify (entered l) log = IsFinal verify l log

abbrev pub AfterEntry : Bool → Round → Log → Type 0
AfterEntry verify (reselect v) log = IsOpen verify log
AfterEntry verify (again l) log = IsLoop verify l log
AfterEntry verify (entered l) log = IsEntered verify l log

abbrev pub devices_of : Option (List Device) → List Device
devices_of none = []
devices_of (some devices) = devices

pub record HasFound (verify : Bool) (l : Locals) (devices : Option (List Device)) (log : Log)
    : Type 0 where
  pub is_entered : IsEntered verify l log
  pub found : is_present l.selected devices ≡ is_among l.selected (connected log)

pub cleared-IsLoop :
    (verify : Bool) (l : Locals) (log : Log) → IsCleared verify l log → IsLoop verify l log
cleared-IsLoop verify l log h = record { is_open = h.is_open; held = inl h.is_cleared }

pub heard-IsEntered :
    (verify : Bool) (l : Locals) (a : Action) (log : Log)
    → is_kind a (codes "submit") ≡ true
    → HasHeard verify (some a) log
    → IsEntered verify (record l { value = a.value; remember = a.remember }) log
unfolding entry is_fresh
heard-IsEntered verify l a log e h = record {
  is_open = h.is_open;
  entered = rw (h.is_last, e) refl;
  fresh = rw (h.is_last, e) refl;
}

pub found-HasFound :
    (verify : Bool) (l : Locals) (devices : Option (List Device)) (log : Log)
    → IsEntered verify l log
    → HasFound verify l devices (discovered devices ∷ log)
unfolding phase Safe entry is_fresh connected is_among
found-HasFound verify l none log h = record {
  is_entered = record {
    is_open = record {
      is_opened = h.is_open.is_opened;
      safe = (h.is_open.is_opened, h.is_open.safe);
    };
    entered = h.entered;
    fresh = h.fresh;
  };
  found = refl;
}
found-HasFound verify l (some devices) log h = record {
  is_entered = record {
    is_open = record {
      is_opened = h.is_open.is_opened;
      safe = (h.is_open.is_opened, h.is_open.safe);
    };
    entered = h.entered;
    fresh = h.fresh;
  };
  found = refl;
}

pub tried-IsTried :
    (verify : Bool) (l : Locals) (r : Verdict) (log : Log)
    → IsEntered verify l log
    → is_among l.selected (connected log) ≡ true
    → IsTried verify l r (tried l.selected l.value r ∷ log)
unfolding phase Safe entry verified
tried-IsTried verify l r log h e = record {
  is_open = record {
    is_opened = h.is_open.is_opened;
    safe = ((h.is_open.is_opened, e, (l.remember, h.entered), h.fresh), h.is_open.safe);
  };
  entered = h.entered;
  verdict = refl;
}

pub begun-IsOpen :
    (verify : Bool) (id : Identity) (r : Lookup) (log : Log)
    → IsOpen verify log
    → IsOpen verify (begun id r ∷ log)
unfolding phase Safe
begun-IsOpen verify id r log o = record { is_opened = o.is_opened; safe = (o.is_opened, o.safe) }

fresh-acted :
    (a : Action) (log : Log)
    → (is_fresh log ≡ true → verified log ≡ none)
    → is_fresh (acted (some a) ∷ log) ≡ true
    → verified (acted (some a) ∷ log) ≡ none
unfolding is_fresh verified
fresh-acted a log h e = ground (arith, h)

-- What was not tried was not accepted.
pub fresh-verified : (log : Log) → is_fresh log ≡ true → verified log ≡ none
unfolding is_fresh verified
fresh-verified [] e = refl
fresh-verified (acted none ∷ log) e = fresh-verified log e
fresh-verified (acted (some a) ∷ log) e = fresh-acted a log (fresh-verified log) e
fresh-verified (begun id r ∷ log) e = refl
fresh-verified (rejected id n ∷ log) e = fresh-verified log e
fresh-verified (tried d v r ∷ log) e = absurd (ground arith)
fresh-verified (discovered devices ∷ log) e = fresh-verified log e
fresh-verified (sent r ok ∷ log) e = fresh-verified log e
fresh-verified (acknowledged a ∷ log) e = fresh-verified log e
fresh-verified (committed id v ok ∷ log) e = fresh-verified log e
fresh-verified (forgotten key ∷ log) e = fresh-verified log e
fresh-verified (saved f n ∷ log) e = fresh-verified log e

pub found-IsUnvouched :
    (verify : Bool) (l : Locals) (devices : Option (List Device)) (log : Log)
    → HasFound verify l devices log
    → IsUnvouched verify log
found-IsUnvouched verify l devices log h = record {
  is_open = h.is_entered.is_open;
  unvouched = fresh-verified log h.is_entered.fresh;
}

pub tried-IsUnvouched :
    (verify : Bool) (l : Locals) (r : Verdict) (log : Log)
    → is_accepted r.status ≡ false
    → IsTried verify l r log
    → IsUnvouched verify log
tried-IsUnvouched verify l r log e h = record {
  is_open = h.is_open;
  unvouched = h.verdict ∙ rw e refl;
}

pub rejected-IsOpen :
    (verify : Bool) (id : Identity) (n : ℕ) (log : Log)
    → (n == 0) ≡ false
    → IsUnvouched verify log
    → IsOpen verify (rejected id n ∷ log)
unfolding phase Safe
rejected-IsOpen verify id n log e h = record {
  is_opened = h.is_open.is_opened;
  safe = ((h.is_open.is_opened, e, h.unvouched), h.is_open.safe);
}

pub vouched-false : (b : Bool) (d : Device) (log : Log) → not b ≡ true → VouchedBy b d log
vouched-false false d log e = tt
vouched-false true d log e = absurd (ground arith)

pub vouched-some : (b : Bool) (d : Device) (log : Log) → verified log ≡ some d → VouchedBy b d log
vouched-some false d log e = tt
vouched-some true d log e = e
