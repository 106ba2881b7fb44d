-- ===== src/Service/Handler/World.antt =====
-- What `Handle` of internal/service/service.go acts on: the store that it shares, a window, and a
-- world that answers its calls. A handler is a function of the state which ends with a value, or
-- returns, which ends the request. What it does is noted.
use gtkaskpass_yubikey.Base.{ℕ, Bool, Option, some, List, [], ◌∷◌, Bytes}
use gtkaskpass_yubikey.Base.Int.{ℤ}
use gtkaskpass_yubikey.Cache.Identity.{Key, Identity}
use gtkaskpass_yubikey.Cache.Resolve.{Files}
use gtkaskpass_yubikey.Cache.Store.{Store, Lookup, Reason, begin, current, reject, commit, forget}
use gtkaskpass_yubikey.Cache.Store.Run.{Call, step}
use gtkaskpass_yubikey.Dialog.{Device, Verdict, View, Action}
use gtkaskpass_yubikey.Ipc.Handle.{Request}

-- The frames that the handler sends.
pub data Reply : Type 0 where
  accepted : (notify : Bool) → Reply
  window_shown : Reply
  cache_reason : Reason → Reply
  failed : ℕ → Reply
  confirmed : Reply
  answered : Bytes → Reply
  cache_update : (stored : Bool) → Reply
  finished : Reply

-- The second frame of a connection.
pub record Ack : Type 0 where
  pub version : ℤ
  pub op : Bytes

-- What the handler calls, and what comes back. `others` are the calls of the store that other
-- connections and the ticker have made by then, after a call outside or when the store is locked.
pub record Env (W : Type 0) : Type 0 where
  pub monitored : W → W × Bool
  pub opens : W → W × Bool
  pub shows : View → W → W × Bool
  pub acts : W → W × Option Action
  pub is_cancelled : W → W × Bool
  pub is_over : W → W × Bool
  pub sends : Reply → W → W × Bool
  pub acquires : W → W × Bool
  pub discovers : W → W × Option (List Device)
  pub verifies : Device → Bytes → W → W × Verdict
  pub acknowledges : W → W × Option Ack
  pub directory : Bytes → W → W × Option Bytes
  pub files : W → W × Files
  pub now : W → W × ℤ
  pub preferred : Bytes → W → W × Bytes
  pub saves : Bytes → Bytes → W → W × Bool
  pub others : W → W × List Call

-- The request, and the fields of `Service` that do not change. `runtime` is the service's own
-- XDG_RUNTIME_DIR.
pub record Context (W : Type 0) : Type 0 where
  pub env : Env W
  pub request : Request
  pub caller : Bytes
  pub runtime : Bytes
  pub verify_pin : Bool
  pub has_monitor : Bool
  pub has_preferences : Bool

-- What the handler has done, and what came back.
pub data Event : Type 0 where
  acted : Option Action → Event
  discovered : Option (List Device) → Event
  begun : Identity → Lookup → Event
  rejected : Identity → ℕ → Event
  tried : Device → Bytes → Verdict → Event
  sent : Reply → (is_written : Bool) → Event
  acknowledged : Option Ack → Event
  committed : Identity → Bytes → Bool → Event
  forgotten : Key → Event
  saved : Bytes → Bytes → Event

-- The events, the latest first.
abbrev pub Log : Type 0
Log = List Event

pub record State (W : Type 0) : Type 0 where
  pub world : W
  pub store : Store
  pub has_window : Bool
  pub log : Log

-- `exhausted`, the end of the fuel, belongs to the model only.
pub data Outcome (A : Type 0) : Type 0 where
  done : A → Outcome A
  returned : Outcome A
  exhausted : Outcome A

abbrev pub Handler : Type 0 → Type 0 → Type 0
Handler W A = State W → Outcome A × State W

module _ {W : Type 0} where
  abbrev pub pure : {A : Type 0} → A → Handler W A
  pure a s = (done a, s)

  abbrev pub stop : {A : Type 0} → Handler W A
  stop s = (returned, s)

  abbrev pub out_of_fuel : {A : Type 0} → Handler W A
  out_of_fuel s = (exhausted, s)

  abbrev pub note : Event → Handler W (Unit {0})
  note e s = (done tt, record s { log = e ∷ s.log })

  abbrev pub has_window : Handler W Bool
  has_window s = (done s.has_window, s)

  abbrev pub set_window : Bool → Handler W (Unit {0})
  set_window b s = (done tt, record s { has_window = b })

module _ {W A B : Type 0} where
  abbrev pub continue : Outcome A → (A → Handler W B) → Handler W B
  continue (done a) f s = f a s
  continue returned f s = (returned, s)
  continue exhausted f s = (exhausted, s)

  infixl 5 ◌>>=◌ ◌>>◌
  unfoldable pub ◌>>=◌ : Handler W A → (A → Handler W B) → Handler W B
  ◌>>=◌ m f s = let (r, s') = m s in continue r f s'

  abbrev pub ◌>>◌ : Handler W A → Handler W B → Handler W B
  m >> n = m >>= λ _. n

abbrev pub interfere : List Call → Store → Store
interfere [] s = s
interfere (c ∷ calls) s = interfere calls (step s c)

module _ {W : Type 0} (c : Context W) where
  -- A call outside, after which others may have used the store.
  unfoldable pub call : {A : Type 0} → (W → W × A) → Handler W A
  call op s =
      let (w, a) = op s.world in
      let (w', calls) = c.env.others w in
      (done a, record s { world = w'; store = interfere calls s.store })

  -- `s.mu.Lock()`: others may have used the store by then.
  unfoldable pub lock_store : Handler W (Unit {0})
  lock_store = call (λ w. (w, tt))

  -- A reading of the clock, while the store is locked.
  unfoldable pub clock : Handler W ℤ
  clock s = let (w, t) = c.env.now s.world in (done t, record s { world = w })

  abbrev pub update : (Store → Store) → Handler W (Unit {0})
  update f s = (done tt, record s { store = f s.store })

  abbrev pub read : {A : Type 0} → (Store → Store × A) → Handler W A
  read f s = let (store, a) = f s.store in (done a, record s { store = store })

  -- `s.Cache.Begin`
  unfoldable pub begin_cache : Identity → Handler W Lookup
  begin_cache id = do
    lock_store
    now ← clock
    later ← clock
    r ← read (λ s. begin s id c.caller now later)
    note (begun id r)
    pure r

  -- `s.Cache.Current`
  unfoldable pub current_cache : Identity → ℕ → Handler W Bool
  current_cache id generation = do lock_store; now ← clock; read (λ s. current s id generation now)

  -- `s.Cache.Reject`
  unfoldable pub reject_cache : Identity → ℕ → Handler W (Unit {0})
  reject_cache id generation = do
    lock_store
    update (λ s. reject s id generation)
    note (rejected id generation)

  -- `s.Cache.Commit`
  unfoldable pub commit_cache : ℕ → Identity → Bytes → Handler W Bool
  commit_cache token id value = do
    lock_store
    now ← clock
    later ← clock
    ok ← read (λ s. commit s token id c.caller value now later)
    note (committed id value ok)
    pure ok

  -- `s.Cache.Forget`
  unfoldable pub forget_cache : Key → Handler W (Unit {0})
  forget_cache key = do lock_store; update (λ s. forget s (some key)); note (forgotten key)
