-- ===== src/Ipc/Handle/Effects.antt =====
-- What a request does to the store, as calls of the store's methods.
use gtkaskpass_yubikey.Base.{
  ◌≡◌, sym, ap, ◌∙◌, true, false, not, ◌&&◌, ◌||◌, Option, none, some, [], ◌∷◌, Bytes, codes,
  if_cases, Option-cases, inl, inr, arith,
}
use gtkaskpass_yubikey.Base.Int.{ℤ}
use gtkaskpass_yubikey.Text.Paths.{is_abs}
use gtkaskpass_yubikey.Cache.Identity.{Key, Identity, agent_pin, valid}
use gtkaskpass_yubikey.Cache.Resolve.{resolve}
use gtkaskpass_yubikey.Cache.Store.{Store, forget}
use gtkaskpass_yubikey.Cache.Store.Run.{Call, begins, commits, forgets, step, Offered, IsSteady}
use gtkaskpass_yubikey.Ipc.Callers.{caller}
use gtkaskpass_yubikey.Ipc.Handle.{
  Request, Response, World, is_version, is_op, use_store, use_resolved, begin_or_commit, cleaned,
  forget_resolved, forget_key, dispatch,
}

-- The request is a "commit" of this secret, for this identity.
pub record IsCommit (w : World) (req : Request) (id : Identity) (value : Bytes) : Type 0 where
  pub operation : is_op req (codes "commit") ≡ true
  pub resolved : resolve w.files req.key ≡ some id
  pub same : value ≡ req.secret

-- The calls of the store that a request makes: none, one, or the two of "forget".
pub data Calls (w : World) (req : Request) (s : Store) : Store → Type 0 where
  no_call : Calls w req s s
  one_call :
      (c : Call)
      → IsSteady c
      → ((id : Identity) (value : Bytes) → Offered (c ∷ []) id value → IsCommit w req id value)
      → Calls w req s (step s c)
  two_calls : (k j : Key) → Calls w req s (step (step s (forgets (some k))) (forgets (some j)))

-- The pair's store comes about by calls.
abbrev Made : World → Request → Store → Store × Response → Type 0
Made w req s p = Calls w req s p.0

use_store-Calls :
    (w : World) (req : Request) (who : Bytes) (id : Identity) (s : Store)
    → (is_op req (codes "begin") || is_op req (codes "commit")) ≡ true
    → resolve w.files req.key ≡ some id
    → Calls w req s (use_store w req who id s).0
unfolding use_store step
use_store-Calls w req who id s either e =
    if_cases (λ (p : Store × Response). Made w req s p) (is_op req (codes "begin"))
      (λ _. one_call (begins id who w.now w.later) tt (λ id' value o. absurd o))
      (λ other.
        one_call (commits req.token id who req.secret w.now w.later) tt
          (λ id' value o. offered id' value other o))
  where
    offered :
        (id' : Identity) (value : Bytes)
        → is_op req (codes "begin") ≡ false
        → Offered (commits req.token id who req.secret w.now w.later ∷ []) id' value
        → IsCommit w req id' value
    offered id' value other (inl (same_id, same)) = record {
      operation = ground (arith, either, other);
      resolved = e ∙ ap some same_id;
      same = sym same;
    }
    offered id' value other (inr o) = absurd o

resolved-Calls :
    (w : World) (req : Request) (who : Bytes) (s : Store)
    → (is_op req (codes "begin") || is_op req (codes "commit")) ≡ true
    → Calls w req s (use_resolved w req who (resolve w.files req.key) s).0
resolved-Calls w req who s either = elim (Option-cases (resolve w.files req.key)) [
  | inl e ↦ rw e no_call
  | inr (id, e) ↦ rw e (use_store-Calls w req who id s either e)
]

begin_or_commit-Calls :
    (w : World) (pid : ℤ) (req : Request) (s : Store)
    → (is_op req (codes "begin") || is_op req (codes "commit")) ≡ true
    → Calls w req s (begin_or_commit w pid req s).0
unfolding begin_or_commit
begin_or_commit-Calls w pid req s either = elim (Option-cases (caller w.processes pid)) [
  | inl e ↦ rw (begin_or_commit, e) no_call
  | inr (who, e) ↦
      rw (begin_or_commit, e)
        (if_cases (Made w req s) (not (agent_pin req.key) && not (is_abs req.key.path))
          (λ _. no_call) (λ _. resolved-Calls w req who s either))
]

forget_key-Calls : (w : World) (req : Request) (s : Store) → Calls w req s (forget_key w req s).0
unfolding forget_key step
forget_key-Calls w req s =
    if_cases (Made w req s)
      (not (valid req.key) || not (agent_pin req.key) && not (is_abs req.key.path)) (λ _. no_call)
      (λ _. forgotten (resolve w.files (cleaned req.key)))
  where
    forgotten :
        (o : Option Identity)
        → Calls w req s (forget_resolved o (forget s (some (cleaned req.key))))
    forgotten none = one_call (forgets (some (cleaned req.key))) tt (λ id value o. absurd o)
    forgotten (some id) = two_calls (cleaned req.key) id.key

pub dispatch-Calls :
    (w : World) (pid : ℤ) (req : Request) (s : Store) → Calls w req s (dispatch w pid req s).0
unfolding dispatch step
dispatch-Calls w pid req s =
    if_cases (Made w req s) (not (is_version 1 req.version)) (λ _. no_call)
      (λ _.
        if_cases (Made w req s) (is_op req (codes "begin") || is_op req (codes "commit"))
          (λ either. begin_or_commit-Calls w pid req s either)
          (λ _.
            if_cases (Made w req s) (is_op req (codes "forget")) (λ _. forget_key-Calls w req s)
              (λ _.
                if_cases (Made w req s) (is_op req (codes "forget-all"))
                  (λ _. one_call (forgets none) tt (λ id value o. absurd o)) (λ _. no_call))))
