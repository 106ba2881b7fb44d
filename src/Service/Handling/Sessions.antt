-- ===== src/Service/Handling/Sessions.antt =====
-- The events of the loop over the selections, Service/Handler/Sessions.
use gtkaskpass_yubikey.Base.{
  ℕ, zero, suc, ◌≡◌, refl, Bool, true, false, not, ◌&&◌, ◌||◌, some, ◌∷◌, is_empty, ◌⊎◌, inl, inr,
  Bool-cases,
}
use gtkaskpass_yubikey.Text.Paths.{is_abs}
use gtkaskpass_yubikey.Askpass.{Request}
use gtkaskpass_yubikey.Cache.Identity.{Identity, Key}
use gtkaskpass_yubikey.Cache.Store.{Lookup}
use gtkaskpass_yubikey.Dialog.{Device, View}
use gtkaskpass_yubikey.Service.Handler.World.{
  Log, State, Context, begun, sent, cache_reason, Handler, pure,
}
use gtkaskpass_yubikey.Service.Handler.Attempts.{Job, Locals, Round, reselect, again, entered}
use gtkaskpass_yubikey.Service.Handler.Sessions.{
  absolute_key, prepare, lock_hardware, select_device, look_up, session, sessions, is_pin_title,
}
use gtkaskpass_yubikey.Service.Handling.Rules.{
  Ensures, Ensures-pure, Ensures-stop, Ensures-out_of_fuel, Ensures-if, Ensures-bind,
}
use gtkaskpass_yubikey.Service.Handling.Trace.{Safe, IsOpen, Safely, phase, entry, is_fresh}
use gtkaskpass_yubikey.Service.Handling.Windows.{call-Safely, send-Safely, begin_cache-Safely}
use gtkaskpass_yubikey.Service.Handling.Devices.{choose_device-Safely, bind_device-Safely}
use gtkaskpass_yubikey.Service.Handling.Attempts.{rounds-Safely}
use gtkaskpass_yubikey.Service.Handling.Entered.{IsLoop, IsFinal, AfterLoop}

-- The store's answer is the last entry, or holds no secret.
record HasCandidate (verify : Bool) (r : Lookup) (log : Log) : Type 0 where
  is_open : IsOpen verify log
  held : (is_empty r.secret ≡ true) ⊎ ((entry log ≡ some (r.secret, false)) × (is_fresh log ≡ true))

begun-HasCandidate :
    (verify : Bool) (id : Identity) (r : Lookup) (log : Log)
    → IsOpen verify log
    → HasCandidate verify r (begun id r ∷ log)
unfolding phase Safe entry is_fresh
begun-HasCandidate verify id r log o = record {
  is_open = record { is_opened = o.is_opened; safe = (o.is_opened, o.safe) };
  held = elim (Bool-cases (is_empty r.secret)) [ inl e ↦ inl e | inr e ↦ inr (refl, rw e refl) ];
}

sent-HasCandidate :
    (verify ok : Bool) (r : Lookup) (log : Log)
    → HasCandidate verify r log
    → HasCandidate verify r (sent (cache_reason r.reason) ok ∷ log)
unfolding phase Safe entry is_fresh
sent-HasCandidate verify ok r log h = record {
  is_open = record {
    is_opened = h.is_open.is_opened;
    safe = (h.is_open.is_opened, h.is_open.safe);
  };
  held = h.held;
}

module _ {W : Type 0} (c : Context W) where
  absolute_key-Safely :
      {R X P : Log → Type 0} (key : Key) → Ensures State.log R X P (absolute_key c key) (λ k. P)
  unfolding absolute_key
  absolute_key-Safely key =
      Ensures-if (is_empty key.path || is_abs key.path) (λ e. Ensures-pure λ log p. p)
        (λ e. Ensures-bind (call-Safely c _) λ directory. Ensures-pure λ log p. p)

  -- Whether the PIN is verified depends on the request alone.
  pub prepare-Safely :
      {R X P : Log → Type 0} (req : Request)
      → Ensures State.log R X P
          (prepare c req)
          (λ found log. (found.1.verify ≡ (c.verify_pin && is_pin_title req.title)) × P log)
  unfolding prepare
  prepare-Safely req =
      Ensures-bind (absolute_key-Safely _)
        λ found. Ensures-bind (call-Safely c _) λ files. Ensures-pure λ log p. (refl, p)

  pub lock-Safely :
      {verify : Bool} {P : Log → Type 0} (job : Job)
      → ((log : Log) → P log → IsOpen verify log)
      → Safely verify P (lock_hardware c job) (λ t. P)
  unfolding lock_hardware
  lock-Safely job opens =
      Ensures-bind (Ensures-if job.verify (λ e. call-Safely c _) (λ e. Ensures-pure λ log p. p))
        λ locked.
          Ensures-if locked (λ e. Ensures-pure λ log p. p)
            (λ e. Ensures-stop λ log p. (opens log p).safe)

module _ {W : Type 0} (c : Context W) (job : Job) where
  select_device-Safely :
      (fuel : ℕ) (view : View)
      → Safely job.verify
          (IsOpen job.verify)
          (select_device c job fuel view)
          (λ r. IsOpen job.verify)
  unfolding select_device
  select_device-Safely fuel view =
      Ensures-if (not job.verify) (λ e. Ensures-pure λ log o. o)
        λ e. Ensures-bind (choose_device-Safely c fuel fuel job.fingerprint view) λ found.
          Ensures-bind (bind_device-Safely c fuel found.0 job.id found.1)
            λ id. Ensures-pure λ log o. o

  look_up-Safely :
      (found : View × Device × Identity)
      → Safely job.verify (IsOpen job.verify) (look_up c job found) (IsLoop job.verify)
  unfolding look_up
  look_up-Safely (view, selected, id) =
      Ensures-bind {Q = HasCandidate job.verify}
        (Ensures-if job.eligible (λ e. begin_cache-Safely c id (begun-HasCandidate job.verify id))
          (λ e. Ensures-pure λ log o. record { is_open = o; held = inl refl }))
        λ r.
          Ensures-bind {Q = λ ok. HasCandidate job.verify r}
            (Ensures-if c.request.trace
              (λ e.
                send-Safely c (cache_reason r.reason)
                  λ ok log h. sent-HasCandidate job.verify ok r log h)
              (λ e. Ensures-pure λ log h. h))
            λ ok. Ensures-pure λ log h. record { is_open = h.is_open; held = h.held }

  next-Safely :
      (k : View → Handler W Locals)
      → ((v : View) → Safely job.verify (IsOpen job.verify) (k v) (IsFinal job.verify))
      → (r : Round)
      → Safely {W = W} job.verify
          (AfterLoop job.verify r)
          (elim r [ reselect v ↦ k v | again l ↦ pure l | entered l ↦ pure l ])
          (IsFinal job.verify)
  next-Safely k h (reselect v) = h v
  next-Safely k h (again l) = Ensures-pure λ log e. absurd e
  next-Safely k h (entered l) = Ensures-pure λ log f. f

  pub sessions-Safely :
      (fuel n : ℕ) (view : View)
      → Safely job.verify (IsOpen job.verify) (sessions c job fuel n view) (IsFinal job.verify)
  unfolding sessions session
  sessions-Safely fuel zero view = Ensures-out_of_fuel λ log o. o.safe
  sessions-Safely fuel (suc n) view =
      Ensures-bind
        (Ensures-bind (select_device-Safely fuel view)
          λ found. Ensures-bind (look_up-Safely found) λ l. rounds-Safely c job fuel fuel l)
        (next-Safely (λ v. sessions c job fuel n v) (λ v. sessions-Safely fuel n v))
