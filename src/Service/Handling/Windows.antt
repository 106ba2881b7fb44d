-- ===== src/Service/Handling/Windows.antt =====
-- The events of the parts of `Handle` of internal/service/service.go that show windows and read the
-- store, Service/Handler/World and Service/Handler/Windows.
use gtkaskpass_yubikey.Base.{
  ℕ, zero, suc, ◌≡◌, refl, Bool, false, Option, none, some, ◌∷◌, ◌==◌, not, codes, inr,
}
use gtkaskpass_yubikey.Cache.Identity.{Identity}
use gtkaskpass_yubikey.Cache.Store.{Store, Lookup}
use gtkaskpass_yubikey.Dialog.{View, Action}
use gtkaskpass_yubikey.Service.Handler.World.{
  Event, Log, State, Context, Reply, rejected, lock_store, failed, window_shown, acted, begun, sent,
  note, has_window, set_window, call, clock, update, read, begin_cache, current_cache, reject_cache,
}
use gtkaskpass_yubikey.Service.Handler.Windows.{
  is_kind, send, fail, show, action, is_stale, await_action, window_cancelled, check_over,
  check_cancelled, show_or_fail, next_action,
}
use gtkaskpass_yubikey.Service.Handling.Rules.{
  Ensures, Ensures-pure, Ensures-stop, Ensures-out_of_fuel, Ensures-if, Ensures-bind,
  Ensures-option,
}
use gtkaskpass_yubikey.Service.Handling.Trace.{Safe, IsOpen, Safely, phase}

module _ {W : Type 0} (c : Context W) {R X P : Log → Type 0} where
  pub call-Safely : {A : Type 0} (op : W → W × A) → Ensures State.log R X P (call c op) (λ a. P)
  unfolding call
  call-Safely op = record { at = λ s p. p }

  pub lock_store-Safely : Ensures State.log R X P (lock_store c) (λ t. P)
  unfolding lock_store
  lock_store-Safely = call-Safely _

  pub clock-Safely : Ensures State.log R X P (clock c) (λ t. P)
  unfolding clock
  clock-Safely = record { at = λ s p. p }

  pub update-Safely : (f : Store → Store) → Ensures State.log R X P (update c f) (λ t. P)
  update-Safely f = record { at = λ s p. p }

  pub read-Safely :
      {A : Type 0} (f : Store → Store × A) → Ensures State.log R X P (read c f) (λ a. P)
  read-Safely f = record { at = λ s p. p }

  pub has_window-Safely : Ensures State.log R X P (has_window {W = W}) (λ b. P)
  has_window-Safely = record { at = λ s p. p }

  pub set_window-Safely : (b : Bool) → Ensures State.log R X P (set_window {W = W} b) (λ t. P)
  set_window-Safely b = record { at = λ s p. p }

  pub note-Safely :
      {Q : Log → Type 0} (e : Event)
      → ((log : Log) → P log → Q (e ∷ log))
      → Ensures State.log R X P (note {W = W} e) (λ t. Q)
  note-Safely e h = record { at = λ s p. h s.log p }

  pub begin_cache-Safely :
      {Q : Lookup → Log → Type 0} (id : Identity)
      → ((r : Lookup) (log : Log) → P log → Q r (begun id r ∷ log))
      → Ensures State.log R X P (begin_cache c id) Q
  unfolding begin_cache
  begin_cache-Safely id h = Ensures-bind lock_store-Safely λ t. Ensures-bind clock-Safely λ now.
      Ensures-bind clock-Safely λ later.
        Ensures-bind (read-Safely _)
          λ r. Ensures-bind (note-Safely (begun id r) (h r)) λ t. Ensures-pure λ log q. q

  pub current_cache-Safely :
      (id : Identity) (n : ℕ) → Ensures State.log R X P (current_cache c id n) (λ b. P)
  unfolding current_cache
  current_cache-Safely id n =
      Ensures-bind lock_store-Safely λ t. Ensures-bind clock-Safely λ now. read-Safely _

  pub reject_cache-Safely :
      {Q : Log → Type 0} (id : Identity) (n : ℕ)
      → ((log : Log) → P log → Q (rejected id n ∷ log))
      → Ensures State.log R X P (reject_cache c id n) (λ t. Q)
  unfolding reject_cache
  reject_cache-Safely id n h =
      Ensures-bind lock_store-Safely
        λ t. Ensures-bind (update-Safely _) λ t. note-Safely (rejected id n) h

  pub is_stale-Safely :
      (id : Identity) (r : Lookup) → Ensures State.log R X P (is_stale c id r) (λ b. P)
  unfolding is_stale
  is_stale-Safely id r =
      Ensures-if (r.generation == 0) (λ e. Ensures-pure λ log p. p)
        (λ e. Ensures-bind (current_cache-Safely id r.generation) λ ok. Ensures-pure λ log p. p)

  pub send-Safely :
      {Q : Bool → Log → Type 0} (r : Reply)
      → ((ok : Bool) (log : Log) → P log → Q ok (sent r ok ∷ log))
      → Ensures State.log R X P (send c r) Q
  unfolding send
  send-Safely r h = Ensures-bind has_window-Safely λ b. Ensures-bind (set_window-Safely _) λ t.
      Ensures-bind (call-Safely _)
        λ ok. Ensures-bind (note-Safely (sent r ok) (h ok)) λ t. Ensures-pure λ log q. q

  pub fail-Safely :
      {A : Type 0} {Q : A → Log → Type 0} (n : ℕ)
      → ((ok : Bool) (log : Log) → P log → R (sent (failed n) ok ∷ log))
      → Ensures State.log R X P (fail c n) Q
  unfolding fail
  fail-Safely n h = Ensures-bind (send-Safely (failed n) h) λ ok. Ensures-stop λ log r. r

  pub show-Safely : (v : View) → Ensures State.log R X P (show c v) (λ b. P)
  unfolding show
  show-Safely v = Ensures-bind has_window-Safely λ b.
      Ensures-bind (Ensures-if b (λ e. Ensures-pure λ log p. p) (λ e. call-Safely _)) λ opened.
        Ensures-bind (set_window-Safely opened)
          λ t. Ensures-if opened (λ e. call-Safely _) (λ e. Ensures-pure λ log p. p)

  pub window_cancelled-Safely : Ensures State.log R X P (window_cancelled c) (λ b. P)
  unfolding window_cancelled
  window_cancelled-Safely =
      Ensures-bind has_window-Safely
        λ b. Ensures-if b (λ e. call-Safely _) (λ e. Ensures-pure λ log p. p)

  pub check_over-Safely :
      ((log : Log) → P log → R log) → Ensures State.log R X P (check_over c) (λ t. P)
  unfolding check_over
  check_over-Safely h =
      Ensures-bind (call-Safely _)
        λ over. Ensures-if over (λ e. Ensures-stop h) (λ e. Ensures-pure λ log p. p)

-- While the request is open
module _ {W : Type 0} (c : Context W) {verify : Bool} {P : Log → Type 0}
    (opens : (log : Log) → P log → IsOpen verify log) where
  pub open-fail :
      {A : Type 0} {Q : A → Log → Type 0} (n : ℕ) → (n == 0) ≡ false → Safely verify P (fail c n) Q
  unfolding Safe
  open-fail n e = fail-Safely c n λ ok log p. let o = opens log p in ((e, inr o.is_opened), o.safe)

  pub open-check_over : Safely verify P (check_over c) (λ t. P)
  open-check_over = check_over-Safely c λ log p. (opens log p).safe

  pub open-check_cancelled : Safely verify P (check_cancelled c) (λ t. P)
  unfolding check_cancelled
  open-check_cancelled =
      Ensures-bind (window_cancelled-Safely c)
        λ b. Ensures-if b (λ e. open-fail 1 refl) (λ e. Ensures-pure λ log p. p)

  pub open-show_or_fail : (v : View) → Safely verify P (show_or_fail c v) (λ t. P)
  unfolding show_or_fail
  open-show_or_fail v =
      Ensures-bind (show-Safely c v)
        λ b. Ensures-if b (λ e. Ensures-pure λ log p. p) (λ e. open-fail 2 refl)

-- The request is open, and this action came last.
pub record HasHeard (verify : Bool) (a : Option Action) (log : Log) : Type 0 where
  pub before : Log
  pub is_last : log ≡ acted a ∷ before
  pub is_open : IsOpen verify log

module _ {W : Type 0} (c : Context W) {verify : Bool} where
  heard : (a : Option Action) (log : Log) → IsOpen verify log → HasHeard verify a (acted a ∷ log)
  unfolding phase Safe
  heard none log o = record {
    before = log;
    is_last = refl;
    is_open = record { is_opened = o.is_opened; safe = (o.is_opened, o.safe) };
  }
  heard (some a) log o = record {
    before = log;
    is_last = refl;
    is_open = record { is_opened = o.is_opened; safe = (o.is_opened, o.safe) };
  }

  pub shown-IsOpen :
      (r : Reply) (ok : Bool) (log : Log)
      → r ≡ window_shown
      → IsOpen verify log
      → IsOpen verify (sent r ok ∷ log)
  unfolding phase Safe
  shown-IsOpen r ok log e o =
      rw e (record { is_opened = o.is_opened; safe = (o.is_opened, o.safe) })

  pub action-HasHeard : (fuel : ℕ) → Safely verify (IsOpen verify) (action c fuel) (HasHeard verify)
  unfolding action
  action-HasHeard zero = Ensures-out_of_fuel λ log o. o.safe
  action-HasHeard (suc fuel) = Ensures-bind (call-Safely c _) λ a.
      Ensures-bind (note-Safely c (acted a) (heard a)) λ t.
        Ensures-option (HasHeard verify) (Ensures-pure λ log h. h)
          (λ x.
            Ensures-if (not (is_kind x (codes "shown"))) (λ e. Ensures-pure λ log h. h)
              λ e.
                Ensures-bind
                  (Ensures-if c.request.trace
                    (λ e.
                      send-Safely c window_shown
                        λ ok log h. shown-IsOpen window_shown ok log refl h.is_open)
                    (λ e. Ensures-pure λ log h. h.is_open))
                  λ ok. action-HasHeard fuel)
          a

  pub next_action-HasHeard :
      (fuel : ℕ)
      → Safely verify (IsOpen verify) (next_action c fuel) (λ a. HasHeard verify (some a))
  unfolding next_action
  next_action-HasHeard fuel = Ensures-bind (action-HasHeard fuel) λ a.
      Ensures-option (HasHeard verify) (Ensures-stop λ log h. h.is_open.safe)
        (λ x. Ensures-pure λ log h. h) a

  pub await_action-IsOpen :
      (fuel : ℕ) → Safely verify (IsOpen verify) (await_action c fuel) (λ t. IsOpen verify)
  unfolding await_action
  await_action-IsOpen fuel = Ensures-bind (has_window-Safely c) λ b.
      Ensures-if b (λ e. Ensures-bind (action-HasHeard fuel) λ a. Ensures-pure λ log h. h.is_open)
        (λ e. Ensures-pure λ log o. o)
