-- ===== src/Service/Handling/Counts.antt =====
-- How often `Handle` of internal/service/service.go tries a PIN and sends a result.
use mathlib.Core.Path.{subst}
use gtkaskpass_yubikey.Base.{
  ℕ, suc, ◌+◌, ◌≤◌, ◌≡◌, refl, Bool, true, false, ◌&&◌, none, some, [], ◌∷◌, Bytes, codes,
  if◌then◌else◌, is_some, is_empty, inl, inr, arith, Bool-cases,
}
use gtkaskpass_yubikey.Askpass.{parse}
use gtkaskpass_yubikey.Cache.Identity.{Identity}
use gtkaskpass_yubikey.Cache.Store.{Lookup}
use gtkaskpass_yubikey.Dialog.{Action}
use gtkaskpass_yubikey.Service.Handler.World.{
  Reply, Ack, Log, State, Context, accepted, window_shown, cache_reason, failed, confirmed,
  answered, cache_update, finished, acted, discovered, begun, rejected, tried, sent, acknowledged,
  committed, forgotten, saved,
}
use gtkaskpass_yubikey.Service.Handler.Windows.{is_kind, is_result}
use gtkaskpass_yubikey.Service.Handler.Delivery.{is_delivered}
use gtkaskpass_yubikey.Service.Handler.{handle}
use gtkaskpass_yubikey.Service.Handling.Trace.{
  Phase, quiet, opened, offered, delivered, ended, phase, entry, is_fresh, Safe, MaySend,
}
use gtkaskpass_yubikey.Service.Handling.Requests.{must_verify, handle-Safe}

-- The PINs that were tried.
unfoldable pub tries : Log → ℕ
tries [] = 0
tries (tried d v r ∷ log) = suc (tries log)
tries (e ∷ log) = tries log

-- The values that the user entered, and the secrets that the store gave.
unfoldable pub entries : Log → ℕ
entries [] = 0
entries (acted (some a) ∷ log) =
    let n = entries log in if is_kind a (codes "submit") then suc n else n
entries (begun id r ∷ log) = let n = entries log in if is_empty r.secret then n else suc n
entries (e ∷ log) = entries log

unfoldable pub results : Log → ℕ
results [] = 0
results (sent r ok ∷ log) = let n = results log in if is_result r then suc n else n
results (e ∷ log) = results log

abbrev credit : Log → ℕ
credit log = if is_some (entry log) && is_fresh log then 1 else 0

one_credit :
    (log : Log) {p : Bytes × Bool} → entry log ≡ some p → is_fresh log ≡ true → credit log ≡ 1
one_credit log e f = rw (e, f) refl

no_credit : (b : Bool) → ◌≡◌ {A = ℕ} (if b && false then 1 else 0) 0
no_credit b = ground arith

-- One once a result is sent
abbrev answers : Phase → ℕ
answers quiet = 0
answers opened = 0
answers (offered v) = 1
answers (delivered v) = 1
answers ended = 1

module _ (verify : Bool) where
  acted-le :
      (a : Action) (log : Log)
      → tries log + credit log ≤ entries log
      → tries (acted (some a) ∷ log) + credit (acted (some a) ∷ log)
        ≤ entries (acted (some a) ∷ log)
  unfolding tries entries entry is_fresh
  acted-le a log h = elim (Bool-cases (is_kind a (codes "submit"))) [
    | inl e ↦ rw e (omega (arith, h))
    | inr e ↦ rw e h
  ]

  begun-le :
      (id : Identity) (r : Lookup) (log : Log)
      → tries log + credit log ≤ entries log
      → tries (begun id r ∷ log) + credit (begun id r ∷ log) ≤ entries (begun id r ∷ log)
  unfolding tries entries entry is_fresh
  begun-le id r log h = elim (Bool-cases (is_empty r.secret)) [
    | inl e ↦ rw e (omega (arith, h))
    | inr e ↦ rw e (omega (arith, h))
  ]

  tries-le : (log : Log) → Safe verify log → tries log + credit log ≤ entries log
  unfolding tries entries entry is_fresh Safe
  tries-le [] s = omega arith
  tries-le (acted none ∷ log) s = tries-le log s.1
  tries-le (acted (some a) ∷ log) s = acted-le a log (tries-le log s.1)
  tries-le (begun id r ∷ log) s = begun-le id r log (tries-le log s.1)
  tries-le (rejected id n ∷ log) s = tries-le log s.1
  tries-le (tried d v r ∷ log) s = spent log s.0.2.1 s.0.3 (tries-le log s.1)
    where
      spent :
          (log : Log) {p : Bytes × Bool}
          → entry log ≡ some p
          → is_fresh log ≡ true
          → tries log + credit log ≤ entries log
          → suc (tries log) + credit (tried d v r ∷ log) ≤ entries log
      spent log e f h = omega (arith, no_credit (is_some (entry log)), one_credit log e f, h)
  tries-le (discovered devices ∷ log) s = tries-le log s.1
  tries-le (sent r ok ∷ log) s = tries-le log s.1
  tries-le (acknowledged a ∷ log) s = tries-le log s.1
  tries-le (committed id v ok ∷ log) s = tries-le log s.1
  tries-le (forgotten key ∷ log) s = tries-le log s.1
  tries-le (saved f n ∷ log) s = tries-le log s.1

  at :
      {p : Phase} (log : Log)
      → phase log ≡ p
      → results log ≤ answers (phase log)
      → results log ≤ answers p
  at log e h = subst (λ q. results log ≤ answers q) e h

  sent-le :
      (r : Reply) (ok : Bool) (log : Log)
      → MaySend verify r log
      → results log ≤ answers (phase log)
      → results (sent r ok ∷ log) ≤ answers (phase (sent r ok ∷ log))
  unfolding results phase
  sent-le (accepted n) ok log e h = at log e h
  sent-le window_shown ok log e h = h
  sent-le (cache_reason r) ok log e h = h
  sent-le (failed n) ok log (z, inl e) h = omega (arith, at log e h)
  sent-le (failed n) ok log (z, inr e) h = omega (arith, at log e h)
  sent-le confirmed ok log e h = omega (arith, at log e h)
  sent-le (answered v) ok log e h = omega (arith, at log e.0 h)
  sent-le (cache_update s) ok log e h = h
  sent-le finished ok log e h = at log e.1 h

  acknowledged-le :
      (a : Ack) (v : Bytes) (log : Log)
      → phase log ≡ offered v
      → results log ≤ answers (phase log)
      → results log ≤ answers (phase (acknowledged (some a) ∷ log))
  unfolding phase
  acknowledged-le a v log e h = elim (Bool-cases (is_delivered a)) [
    | inl d ↦ rw (d, e) (at log e h)
    | inr d ↦ rw d (at log e h)
  ]

  results-le : (log : Log) → Safe verify log → results log ≤ answers (phase log)
  unfolding results phase Safe
  results-le [] s = omega arith
  results-le (sent r ok ∷ log) s = sent-le r ok log s.0 (results-le log s.1)
  results-le (acknowledged none ∷ log) s = at log s.0.1 (results-le log s.1)
  results-le (acknowledged (some a) ∷ log) s =
      acknowledged-le a s.0.0 log s.0.1 (results-le log s.1)
  results-le (acted a ∷ log) s = results-le log s.1
  results-le (begun id r ∷ log) s = results-le log s.1
  results-le (rejected id n ∷ log) s = results-le log s.1
  results-le (tried d v r ∷ log) s = results-le log s.1
  results-le (discovered devices ∷ log) s = results-le log s.1
  results-le (committed id v ok ∷ log) s = results-le log s.1
  results-le (forgotten key ∷ log) s = results-le log s.1
  results-le (saved f n ∷ log) s = results-le log s.1

answers_le : (p : Phase) → answers p ≤ 1
answers_le quiet = omega arith
answers_le opened = omega arith
answers_le (offered v) = omega arith
answers_le (delivered v) = omega arith
answers_le ended = omega arith

-- In every run of the handler, at most as many PINs are tried on a device as values were entered by
-- the user and secrets, which are not empty, were given by the store; and one result is sent at most.
pub handle-le :
    {W : Type 0} (c : Context W) (fuel : ℕ) (s : State W)
    → s.log ≡ []
    → (tries (handle c fuel s).1.log ≤ entries (handle c fuel s).1.log)
      × (results (handle c fuel s).1.log ≤ 1)
handle-le c fuel s e =
    let verify = must_verify c (parse c.request.args c.request.hint) in
    let log = (handle c fuel s).1.log in
    let safe = handle-Safe c fuel s e in
    (
      omega (arith, tries-le verify log safe),
      omega (arith, results-le verify log safe, answers_le (phase log)),
    )
