-- ===== src/Service/Handling/Keeping.antt =====
-- What holds of the store and the events before each call of the store, those of `Handle` of
-- internal/service/service.go and those of others, and after it, holds throughout.
pub mod Choices
pub mod Deliveries
pub mod Requests
pub mod Origins
use gtkaskpass_yubikey.Base.{ℕ, Bool, true, false, Option, none, some, ◌∷◌, Bytes, if◌then◌else◌}
use gtkaskpass_yubikey.Base.Int.{ℤ}
use gtkaskpass_yubikey.Cache.Identity.{Key, Identity}
use gtkaskpass_yubikey.Cache.Store.{Store}
use gtkaskpass_yubikey.Cache.Store.Run.{Call, begins, checks, rejects, commits, forgets, step}
use gtkaskpass_yubikey.Service.Handler.World.{
  Context, Event, Log, State, Outcome, begun, rejected, committed, forgotten, done, returned,
  exhausted, Handler, pure, stop, out_of_fuel, note, has_window, set_window, continue, interfere,
  call, lock_store, ◌>>=◌, clock, begin_cache, current_cache, reject_cache, commit_cache,
  forget_cache,
}

-- Not a Commit
abbrev pub IsSilent : Call → Type 0
IsSilent (commits token id caller value now later) = ⊥
IsSilent _ = Unit

-- `O` is kept by the calls of others, by the calls of the handler, of which a Commit is noted, and by
-- every event.
pub record Closed {W : Type 0} (c : Context W) (O : Store → Log → Type 0) : Type 0 where
  pub others :
      (w : W) (store : Store) (log : Log) → O store log → O (interfere (c.env.others w).1 store) log
  pub steps :
      (x : Call) (store : Store) (log : Log) → IsSilent x → O store log → O (step store x) log
  pub committing :
      (token : ℕ) (id : Identity) (value : Bytes) (now later : ℤ) (ok : Bool) (store : Store)
      (log : Log)
      → O store log
      → O (step store (commits token id c.caller value now later)) (committed id value ok ∷ log)
  pub notes : (e : Event) (store : Store) (log : Log) → O store log → O store (e ∷ log)

pub record Keeps (O : Store → Log → Type 0) {W A : Type 0} (m : Handler W A) : Type 0 where
  pub keeps : (s : State W) → O s.store s.log → O (m s).1.store (m s).1.log

module _ {W A : Type 0} {O : Store → Log → Type 0} where
  pub Keeps-pure : (a : A) → Keeps O (pure {W = W} a)
  Keeps-pure a = record { keeps = λ s o. o }

  pub Keeps-stop : Keeps O (stop {W = W} {A = A})
  Keeps-stop = record { keeps = λ s o. o }

  pub Keeps-out_of_fuel : Keeps O (out_of_fuel {W = W} {A = A})
  Keeps-out_of_fuel = record { keeps = λ s o. o }

  pub Keeps-if :
      (b : Bool) (m n : Handler W A) → Keeps O m → Keeps O n → Keeps O (if b then m else n)
  Keeps-if true m n f g = f
  Keeps-if false m n f g = g

  pub Keeps-option :
      {B : Type 0} (o : Option B) (m : Handler W A) (f : B → Handler W A)
      → Keeps O m
      → ((b : B) → Keeps O (f b))
      → Keeps O (elim o [ none ↦ m | some b ↦ f b ])
  Keeps-option none m f g h = g
  Keeps-option (some b) m f g h = h b

module _ {W A B : Type 0} {O : Store → Log → Type 0} where
  continue-keeps :
      (f : A → Handler W B)
      → ((a : A) → Keeps O (f a))
      → (r : Outcome A) (s : State W) → O s.store s.log
      → O (continue r f s).1.store (continue r f s).1.log
  continue-keeps f h (done a) s o = (h a).keeps s o
  continue-keeps f h returned s o = o
  continue-keeps f h exhausted s o = o

  pub Keeps-bind :
      (m : Handler W A) (f : A → Handler W B)
      → Keeps O m
      → ((a : A) → Keeps O (f a))
      → Keeps O (m >>= f)
  unfolding ◌>>=◌
  Keeps-bind m f g h = record { keeps = λ s o. continue-keeps f h (m s).0 (m s).1 (g.keeps s o) }

module _ {W : Type 0} {O : Store → Log → Type 0} where
  pub Keeps-has_window : Keeps O (has_window {W = W})
  Keeps-has_window = record { keeps = λ s o. o }

  pub Keeps-set_window : (b : Bool) → Keeps O (set_window {W = W} b)
  Keeps-set_window b = record { keeps = λ s o. o }

module _ {W : Type 0} (c : Context W) {O : Store → Log → Type 0} (closed : Closed c O) where
  pub note-Keeps : (e : Event) → Keeps O (note {W = W} e)
  note-Keeps e = record { keeps = λ s o. closed.notes e s.store s.log o }

  pub call-Keeps : {A : Type 0} (op : W → W × A) → Keeps O (call c op)
  unfolding call
  call-Keeps op = record { keeps = λ s o. closed.others (op s.world).0 s.store s.log o }

  pub begin_cache-Keeps : (id : Identity) → Keeps O (begin_cache c id)
  unfolding begin_cache lock_store call clock ◌>>=◌ step
  begin_cache-Keeps id = record {
    keeps = λ s o.
        let (w, calls) = c.env.others s.world in
        let (w', now) = c.env.now w in
        let (w'', later) = c.env.now w' in
        closed.notes _ _ s.log (
          closed.steps (begins id c.caller now later) _ s.log tt
            (closed.others s.world s.store s.log o));
  }

  pub current_cache-Keeps : (id : Identity) (n : ℕ) → Keeps O (current_cache c id n)
  unfolding current_cache lock_store call clock ◌>>=◌ step
  current_cache-Keeps id n = record {
    keeps = λ s o.
        let (w, calls) = c.env.others s.world in
        let (w', now) = c.env.now w in
        closed.steps (checks id n now) _ s.log tt (closed.others s.world s.store s.log o);
  }

  pub reject_cache-Keeps : (id : Identity) (n : ℕ) → Keeps O (reject_cache c id n)
  unfolding reject_cache lock_store call ◌>>=◌ step
  reject_cache-Keeps id n = record {
    keeps = λ s o.
        closed.notes _ _ s.log
          (closed.steps (rejects id n) _ s.log tt (closed.others s.world s.store s.log o));
  }

  pub commit_cache-Keeps :
      (token : ℕ) (id : Identity) (value : Bytes) → Keeps O (commit_cache c token id value)
  unfolding commit_cache lock_store call clock ◌>>=◌ step
  commit_cache-Keeps token id value = record {
    keeps = λ s o.
        let (w, calls) = c.env.others s.world in
        let (w', now) = c.env.now w in
        let (w'', later) = c.env.now w' in
        closed.committing token id value now later _ _ s.log
          (closed.others s.world s.store s.log o);
  }

  pub forget_cache-Keeps : (key : Key) → Keeps O (forget_cache c key)
  unfolding forget_cache lock_store call ◌>>=◌ step
  forget_cache-Keeps key = record {
    keeps = λ s o.
        closed.notes _ _ s.log
          (closed.steps (forgets (some key)) _ s.log tt (closed.others s.world s.store s.log o));
  }

pub ruleset keeps_rules = (
  Keeps-pure, Keeps-stop, Keeps-out_of_fuel, Keeps-if, Keeps-bind, Keeps-has_window,
  Keeps-set_window, note-Keeps, call-Keeps, begin_cache-Keeps, current_cache-Keeps,
  reject_cache-Keeps, commit_cache-Keeps, forget_cache-Keeps,
)
