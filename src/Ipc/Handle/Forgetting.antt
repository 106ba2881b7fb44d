-- ===== src/Ipc/Handle/Forgetting.antt =====
-- A request to forget a key.
use mathlib.Core.Path.{subst}
use gtkaskpass_yubikey.Base.{
  ◌≡◌, ◌≢◌, refl, sym, true, false, not, ◌&&◌, ◌||◌, Option, none, some, [], Bytes, Bytes-discrete,
  ℕ_discrete, codes, decide, Bool-cases, inl, inr, arith,
}
use gtkaskpass_yubikey.Base.Int.{ℤ}
use gtkaskpass_yubikey.Base.Maps.{lookup}
use gtkaskpass_yubikey.Text.Paths.{is_abs}
use gtkaskpass_yubikey.Cache.Identity.{Key, Identity, Key-discrete, agent_pin, valid}
use gtkaskpass_yubikey.Cache.Resolve.{resolve}
use gtkaskpass_yubikey.Cache.Store.{Store, hit, begin, forget, is_meant}
use gtkaskpass_yubikey.Cache.Store.Serving.{begin-Answers}
use gtkaskpass_yubikey.Cache.Store.Forgetting.{lookup-forget, expire-none}
use gtkaskpass_yubikey.Ipc.Handle.{
  Request, World, is_version, cleaned, forget_resolved, forget_key, dispatch,
}

-- No entry is left for the key.
abbrev IsForgotten : Key → Store → Type 0
IsForgotten k s = lookup Key-discrete k s.entries ≡ none

begin-forgotten :
    (s : Store) (id : Identity) (who : Bytes) (now later : ℤ)
    → IsForgotten id.key s
    → ((begin s id who now later).1.reason ≢ hit) × ((begin s id who now later).1.secret ≡ [])
begin-forgotten s id who now later h =
    let gone = expire-none s now id.key h in rw gone at (begin-Answers s id who now later)

forget-IsForgotten :
    (s : Store) (key : Option Key) (k : Key) → is_meant key k ≡ true → IsForgotten k (forget s key)
forget-IsForgotten s key k h = ground (arith, lookup-forget s key k, h)

forget-keeps_IsForgotten :
    (s : Store) (key : Option Key) (k : Key) → IsForgotten k s → IsForgotten k (forget s key)
forget-keeps_IsForgotten s key k h = elim (Bool-cases (is_meant key k)) [
  | inl e ↦ ground (arith, lookup-forget s key k, h, e)
  | inr e ↦ ground (arith, lookup-forget s key k, h, e)
]

-- What a request to forget is about: its key with a clean path, and the key of the file there.
pub data IsTarget (w : World) (req : Request) : Key → Type 0 where
  named : IsTarget w req (cleaned req.key)
  found : (id : Identity) → resolve w.files (cleaned req.key) ≡ some id → IsTarget w req id.key

is_meant_refl : (k : Key) → is_meant (some k) k ≡ true
is_meant_refl k = ground arith

target-IsForgotten :
    (w : World) (req : Request) (s : Store) (k : Key)
    → IsTarget w req k
    → IsForgotten k
        (forget_resolved (resolve w.files (cleaned req.key)) (forget s (some (cleaned req.key))))
target-IsForgotten w req s _ named = rest (resolve w.files (cleaned req.key)) (
    forget-IsForgotten s (some (cleaned req.key)) (cleaned req.key)
      (is_meant_refl (cleaned req.key)))
  where
    rest :
        (o : Option Identity)
        → IsForgotten (cleaned req.key) (forget s (some (cleaned req.key)))
        → IsForgotten (cleaned req.key) (forget_resolved o (forget s (some (cleaned req.key))))
    rest none h = h
    rest (some id) h =
        forget-keeps_IsForgotten (forget s (some (cleaned req.key))) (some id.key) (cleaned req.key)
          h
target-IsForgotten w req s _ (found id e) = rw e (
    forget-IsForgotten (forget s (some (cleaned req.key))) (some id.key) id.key
      (is_meant_refl id.key))

-- The request is one to forget a key, and is not refused.
pub record IsForget (req : Request) : Type 0 where
  pub version : is_version 1 req.version ≡ true
  pub operation : req.op ≡ codes "forget"
  pub valid_key : valid req.key ≡ true
  pub absolute : (agent_pin req.key || is_abs req.key.path) ≡ true

text-differs :
    (op : Bytes)
    → op ≡ codes "forget"
    → (decide (Bytes-discrete op (codes "begin")) || decide (Bytes-discrete op (codes "commit")))
      ≡ false
unfolding Bytes-discrete ℕ_discrete
text-differs op h = rw h refl

text-same : (op : Bytes) → op ≡ codes "forget" → decide (Bytes-discrete op (codes "forget")) ≡ true
unfolding Bytes-discrete ℕ_discrete
text-same op h = rw h refl

dispatch-forget :
    (w : World) (pid : ℤ) (req : Request) (s : Store)
    → IsForget req
    → (dispatch w pid req s).0
      ≡ forget_resolved (resolve w.files (cleaned req.key)) (forget s (some (cleaned req.key)))
unfolding dispatch forget_key
dispatch-forget w pid req s v =
    let admitted : not (valid req.key) || not (agent_pin req.key) && not (is_abs req.key.path)
        ≡ false =
      ground (arith, v.valid_key, v.absolute) in
    let version : not (is_version 1 req.version) ≡ false = ground (arith, v.version) in
    rw (version, text-differs req.op v.operation, text-same req.op v.operation, admitted) refl

-- After a request of version 1 to forget a valid key, which is an agent's PIN or has an absolute
-- path, `Begin` serves no secret to any caller for an identity of that key with its path cleaned, or
-- of the key that it resolves to.
pub dispatch-forgets :
    (w : World) (pid : ℤ) (req : Request) (s : Store) (id : Identity) (who : Bytes) (now later : ℤ)
    → IsForget req
    → IsTarget w req id.key
    → ((begin (dispatch w pid req s).0 id who now later).1.reason ≢ hit)
      × ((begin (dispatch w pid req s).0 id who now later).1.secret ≡ [])
dispatch-forgets w pid req s id who now later v t =
    begin-forgotten (dispatch w pid req s).0 id who now later (
      subst (IsForgotten id.key) (sym (dispatch-forget w pid req s v))
        (target-IsForgotten w req s id.key t))
