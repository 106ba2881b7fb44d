-- ===== src/Service/Handling/Patience.antt =====
-- A user who takes finitely many actions, and what each part of `Handle` of
-- internal/service/service.go leaves of them.
use gtkaskpass_yubikey.Base.{ℕ, ◌+◌, ◌≤◌, Bool, Option, none, some, Bytes, ◌==◌, arith}
use gtkaskpass_yubikey.Cache.Identity.{Identity, Key}
use gtkaskpass_yubikey.Cache.Store.{Store, Lookup}
use gtkaskpass_yubikey.Dialog.{Device, View, Action}
use gtkaskpass_yubikey.Service.Handler.World.{
  Env, Event, Context, Reply, Handler, note, has_window, set_window, call, lock_store, clock,
  update, read, begin_cache, current_cache, reject_cache, commit_cache, forget_cache,
}
use gtkaskpass_yubikey.Service.Handler.Windows.{
  send, fail, show, is_stale, window_cancelled, check_over, check_cancelled, show_or_fail,
}
use gtkaskpass_yubikey.Service.Handling.Rules.{
  Ensures, Ensures-pure, Ensures-stop, Ensures-if, Ensures-bind,
}

abbrev pub cost : Option Action → ℕ
cost none = 0
cost (some a) = 1

-- `patience` bounds the actions that are still to come; no call raises it.
pub record IsPatient {W : Type 0} (env : Env W) (patience : W → ℕ) : Type 0 where
  pub acts_le : (w : W) → patience (env.acts w).0 + cost (env.acts w).1 ≤ patience w
  pub monitored_le : (w : W) → patience (env.monitored w).0 ≤ patience w
  pub opens_le : (w : W) → patience (env.opens w).0 ≤ patience w
  pub shows_le : (v : View) (w : W) → patience (env.shows v w).0 ≤ patience w
  pub is_cancelled_le : (w : W) → patience (env.is_cancelled w).0 ≤ patience w
  pub is_over_le : (w : W) → patience (env.is_over w).0 ≤ patience w
  pub sends_le : (r : Reply) (w : W) → patience (env.sends r w).0 ≤ patience w
  pub acquires_le : (w : W) → patience (env.acquires w).0 ≤ patience w
  pub discovers_le : (w : W) → patience (env.discovers w).0 ≤ patience w
  pub verifies_le : (d : Device) (v : Bytes) (w : W) → patience (env.verifies d v w).0 ≤ patience w
  pub acknowledges_le : (w : W) → patience (env.acknowledges w).0 ≤ patience w
  pub directory_le : (p : Bytes) (w : W) → patience (env.directory p w).0 ≤ patience w
  pub files_le : (w : W) → patience (env.files w).0 ≤ patience w
  pub now_le : (w : W) → patience (env.now w).0 ≤ patience w
  pub preferred_le : (f : Bytes) (w : W) → patience (env.preferred f w).0 ≤ patience w
  pub saves_le : (f n : Bytes) (w : W) → patience (env.saves f n w).0 ≤ patience w
  pub others_le : (w : W) → patience (env.others w).0 ≤ patience w

-- What holds of a number holds of the smaller ones.
abbrev pub Lowers : (ℕ → Type 0) → Type 0
Lowers P = (m n : ℕ) → m ≤ n → P n → P m

abbrev pub Ever : ℕ → Type 0
Ever n = Unit {0}

abbrev pub Never : ℕ → Type 0
Never n = ⊥

-- The handler does not exhaust its fuel, and leaves that much patience.
abbrev pub Halts : {W A : Type 0} → (W → ℕ) → (ℕ → Type 0) → Handler W A → (A → ℕ → Type 0) → Type 0
Halts patience P m Q = Ensures (λ s. patience s.world) Ever Never P m Q

module _ {W : Type 0} (c : Context W) {patience : W → ℕ} (h : IsPatient c.env patience)
    {P : ℕ → Type 0} (lower : Lowers P) where
  pub call-Halts :
      {A : Type 0} (op : W → W × A)
      → ((w : W) → patience (op w).0 ≤ patience w)
      → Halts patience P (call c op) (λ a. P)
  unfolding call
  call-Halts op le = record {
    at =
        λ s p. lower _ (patience s.world) (omega (arith, h.others_le (op s.world).0, le s.world)) p;
  }

  pub lock_store-Halts : Halts patience P (lock_store c) (λ t. P)
  unfolding lock_store
  lock_store-Halts = call-Halts _ λ w. omega arith

  pub clock-Halts : Halts patience P (clock c) (λ t. P)
  unfolding clock
  clock-Halts = record { at = λ s p. lower _ (patience s.world) (h.now_le s.world) p }

  pub note-Halts : (e : Event) → Halts patience P (note {W = W} e) (λ t. P)
  note-Halts e = record { at = λ s p. p }

  pub has_window-Halts : Halts patience P (has_window {W = W}) (λ b. P)
  has_window-Halts = record { at = λ s p. p }

  pub set_window-Halts : (b : Bool) → Halts patience P (set_window {W = W} b) (λ t. P)
  set_window-Halts b = record { at = λ s p. p }

  pub update-Halts : (f : Store → Store) → Halts patience P (update c f) (λ t. P)
  update-Halts f = record { at = λ s p. p }

  pub read-Halts : {A : Type 0} (f : Store → Store × A) → Halts patience P (read c f) (λ a. P)
  read-Halts f = record { at = λ s p. p }

  pub begin_cache-Halts : (id : Identity) → Halts patience P (begin_cache c id) (λ r. P)
  unfolding begin_cache
  begin_cache-Halts id = Ensures-bind lock_store-Halts λ t. Ensures-bind clock-Halts λ now.
      Ensures-bind clock-Halts λ later.
        Ensures-bind (read-Halts _) λ r. Ensures-bind (note-Halts _) λ t. Ensures-pure λ n p. p

  pub commit_cache-Halts :
      (token : ℕ) (id : Identity) (value : Bytes)
      → Halts patience P (commit_cache c token id value) (λ r. P)
  unfolding commit_cache
  commit_cache-Halts token id value = Ensures-bind lock_store-Halts λ t.
      Ensures-bind clock-Halts λ now. Ensures-bind clock-Halts λ later.
        Ensures-bind (read-Halts _) λ ok. Ensures-bind (note-Halts _) λ t. Ensures-pure λ n p. p

  pub forget_cache-Halts : (key : Key) → Halts patience P (forget_cache c key) (λ t. P)
  unfolding forget_cache
  forget_cache-Halts key =
      Ensures-bind lock_store-Halts λ t. Ensures-bind (update-Halts _) λ t. note-Halts _

  pub reject_cache-Halts : (id : Identity) (n : ℕ) → Halts patience P (reject_cache c id n) (λ t. P)
  unfolding reject_cache
  reject_cache-Halts id n =
      Ensures-bind lock_store-Halts λ t. Ensures-bind (update-Halts _) λ t. note-Halts _

  pub is_stale-Halts : (id : Identity) (r : Lookup) → Halts patience P (is_stale c id r) (λ b. P)
  unfolding is_stale current_cache
  is_stale-Halts id r =
      Ensures-if (r.generation == 0) (λ e. Ensures-pure λ n p. p)
        (λ e.
          Ensures-bind
            (Ensures-bind lock_store-Halts λ t. Ensures-bind clock-Halts λ now. read-Halts _)
            λ ok. Ensures-pure λ n p. p)

  pub send-Halts : (r : Reply) → Halts patience P (send c r) (λ ok. P)
  unfolding send
  send-Halts r = Ensures-bind has_window-Halts λ b. Ensures-bind (set_window-Halts _) λ t.
      Ensures-bind (call-Halts _ (h.sends_le r))
        λ ok. Ensures-bind (note-Halts _) λ t. Ensures-pure λ n p. p

  pub fail-Halts : {A : Type 0} {Q : A → ℕ → Type 0} (code : ℕ) → Halts patience P (fail c code) Q
  unfolding fail
  fail-Halts code = Ensures-bind (send-Halts _) λ ok. Ensures-stop λ n p. tt

  pub show-Halts : (v : View) → Halts patience P (show c v) (λ b. P)
  unfolding show
  show-Halts v = Ensures-bind has_window-Halts λ b.
      Ensures-bind (Ensures-if b (λ e. Ensures-pure λ n p. p) (λ e. call-Halts _ h.opens_le))
        λ opened.
          Ensures-bind (set_window-Halts opened)
            λ t. Ensures-if opened (λ e. call-Halts _ (h.shows_le v)) (λ e. Ensures-pure λ n p. p)

  pub show_or_fail-Halts : (v : View) → Halts patience P (show_or_fail c v) (λ t. P)
  unfolding show_or_fail
  show_or_fail-Halts v =
      Ensures-bind (show-Halts v) λ b. Ensures-if b (λ e. Ensures-pure λ n p. p) (λ e. fail-Halts 2)

  pub check_over-Halts : Halts patience P (check_over c) (λ t. P)
  unfolding check_over
  check_over-Halts =
      Ensures-bind (call-Halts _ h.is_over_le)
        λ over. Ensures-if over (λ e. Ensures-stop λ n p. tt) (λ e. Ensures-pure λ n p. p)

  pub check_cancelled-Halts : Halts patience P (check_cancelled c) (λ t. P)
  unfolding check_cancelled window_cancelled
  check_cancelled-Halts =
      Ensures-bind
        (Ensures-bind has_window-Halts
          λ b. Ensures-if b (λ e. call-Halts _ h.is_cancelled_le) (λ e. Ensures-pure λ n p. p))
        λ cancelled. Ensures-if cancelled (λ e. fail-Halts 1) (λ e. Ensures-pure λ n p. p)
