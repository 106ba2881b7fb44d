-- ===== src/Ipc/Handle/Answers.antt =====
-- Where a secret that a request is answered with comes from. The store is shared: the requests of
-- all connections, the ticker of `Serve` and the handler of version 2 call it, each in its turn.
use mathlib.Core.Path.{subst}
use gtkaskpass_yubikey.Base.{
  ◌≡◌, ◌≢◌, refl, sym, ap, All, true, not, ◌&&◌, ◌||◌, Option, none, some, List, [], ◌∷◌, Bytes,
  codes, if_cases, Option-cases, inl, inr, ◌⊎◌, arith,
}
use gtkaskpass_yubikey.Base.Int.{ℤ}
use gtkaskpass_yubikey.Base.Maps.{lookup}
use gtkaskpass_yubikey.Text.Paths.{is_abs}
use gtkaskpass_yubikey.Cache.Identity.{Identity, Key-discrete, agent_pin, valid}
use gtkaskpass_yubikey.Cache.Resolve.{resolve}
use gtkaskpass_yubikey.Cache.Store.{Store, Entry, new, hit, begin, expire}
use gtkaskpass_yubikey.Cache.Store.Serving.{Answers, begin-Answers}
use gtkaskpass_yubikey.Cache.Store.Bounded.{IsBounded}
use gtkaskpass_yubikey.Cache.Store.Run.{
  Call, forgets, step, after, after-IsBounded, Offered, IsSteady, Offered-split, begin-Offered,
}
use gtkaskpass_yubikey.Ipc.Callers.{caller}
use gtkaskpass_yubikey.Ipc.Handle.{
  Request, Response, World, is_version, is_op, use_store, use_resolved, begin_or_commit, forget_key,
  dispatch,
}
use gtkaskpass_yubikey.Ipc.Handle.Effects.{
  IsCommit, Calls, no_call, one_call, two_calls, dispatch-Calls,
}

-- A turn at the store: a request of version 1, with the number of the peer's process, or a call of
-- the ticker or the handler.
pub data Turn : Type 0 where
  asks : World → ℤ → Request → Turn
  calls : Call → Turn

-- The store after the turns, the latest first.
unfoldable pub served : ℤ → List Turn → Store
served ttl [] = new ttl
served ttl (asks w pid req ∷ turns) = (dispatch w pid req (served ttl turns)).0
served ttl (calls c ∷ turns) = step (served ttl turns) c

-- One of the turns committed this secret for this identity.
abbrev pub Committed : List Turn → Identity → Bytes → Type 0
Committed [] id value = ⊥
Committed (asks w pid req ∷ turns) id value = IsCommit w req id value ⊎ Committed turns id value
Committed (calls c ∷ turns) id value = Offered (c ∷ []) id value ⊎ Committed turns id value

-- The ticker's turns are steady.
abbrev pub IsSteadyTurn : Turn → Type 0
IsSteadyTurn (asks w pid req) = Unit
IsSteadyTurn (calls c) = IsSteady c

-- The calls that bring a store about, and what they commit.
record History (ttl : ℤ) (turns : List Turn) (s : Store) : Type 0 where
  made : List Call
  same : s ≡ after ttl made
  steady : All IsSteadyTurn turns → All IsSteady made
  offers : (id : Identity) (value : Bytes) → Offered made id value → Committed turns id value

asked-History :
    (ttl : ℤ) (w : World) (pid : ℤ) (req : Request) (turns : List Turn) (s : Store) (u : Store)
    → History ttl turns s
    → Calls w req s u
    → History ttl (asks w pid req ∷ turns) u
unfolding after
asked-History ttl w pid req turns s _ h no_call = record {
  made = h.made;
  same = h.same;
  steady = λ t. h.steady t.1;
  offers = λ id value o. inr (h.offers id value o);
}
asked-History ttl w pid req turns s _ h (one_call c fixed from) = record {
  made = c ∷ h.made;
  same = ap (λ x. step x c) h.same;
  steady = λ t. (fixed, h.steady t.1);
  offers = λ id value o. elim (Offered-split c h.made id value o) [
    | inl p ↦ inl (from id value p)
    | inr p ↦ inr (h.offers id value p)
  ];
}
asked-History ttl w pid req turns s _ h (two_calls k j) = record {
  made = forgets (some j) ∷ forgets (some k) ∷ h.made;
  same = ap (λ x. step (step x (forgets (some k))) (forgets (some j))) h.same;
  steady = λ t. (tt, (tt, h.steady t.1));
  offers = λ id value o. inr (h.offers id value o);
}

served-History : (ttl : ℤ) (turns : List Turn) → History ttl turns (served ttl turns)
unfolding served after
served-History ttl [] = record {
  made = [];
  same = refl;
  steady = λ t. tt;
  offers = λ id value o. o;
}
served-History ttl (asks w pid req ∷ turns) =
    asked-History ttl w pid req turns (served ttl turns) (dispatch w pid req (served ttl turns)).0
      (served-History ttl turns) (dispatch-Calls w pid req (served ttl turns))
served-History ttl (calls c ∷ turns) =
    let h = served-History ttl turns in
    record {
      made = c ∷ h.made;
      same = ap (λ x. step x c) h.same;
      steady = λ t. (t.0, h.steady t.1);
      offers = λ id value o. elim (Offered-split c h.made id value o) [
        | inl p ↦ inl p
        | inr p ↦ inr (h.offers id value p)
      ];
    }

-- Whatever requests, ticks and calls of the handler have come, if each sweep finds alive for its tracking
-- a caller that it finds alive for its tickets afterwards, then the store has at most 256 entries, 256
-- tickets and 4096 tracked callers, no key twice in a map, each entry under the key of its identity, and
-- retry tracking for every ticket that is not for a PIN of the agent.
pub served-IsBounded :
    (ttl : ℤ) (turns : List Turn) → All IsSteadyTurn turns → IsBounded (served ttl turns)
served-IsBounded ttl turns t =
    let h = served-History ttl turns in rw (h.same) (after-IsBounded ttl h.made (h.steady t))

-- A secret is an answer of `Begin`, for the identity that the key resolves to.
pub record IsServed (w : World) (pid : ℤ) (req : Request) (s : Store) (value : Bytes) : Type 0 where
  pub who : Bytes
  pub id : Identity
  pub operation : is_op req (codes "begin") ≡ true
  pub named : caller w.processes pid ≡ some who
  pub resolved : resolve w.files req.key ≡ some id
  pub hits : (begin s id who w.now w.later).1.reason ≡ hit
  pub same : value ≡ (begin s id who w.now w.later).1.secret

-- Where the response of a pair comes from, if it has a secret.
abbrev pub Serves : World → ℤ → Request → Store → Store × Response → Type 0
Serves w pid req s p = p.1.secret ≢ [] → IsServed w pid req s p.1.secret

begin-hits :
    (s : Store) (id : Identity) (who : Bytes) (now later : ℤ)
    → (begin s id who now later).1.secret ≢ []
    → (begin s id who now later).1.reason ≡ hit
begin-hits s id who now later h =
    from (lookup Key-discrete id.key (expire s now).entries) (begin-Answers s id who now later)
  where
    from :
        (o : Option Entry)
        → Answers o id (begin s id who now later).1
        → (begin s id who now later).1.reason ≡ hit
    from none a = absurd (h a.1)
    from (some e) (inl a) = absurd (h a.1)
    from (some e) (inr a) = a.0

use_store-Serves :
    (w : World) (pid : ℤ) (req : Request) (who : Bytes) (id : Identity) (s : Store)
    → caller w.processes pid ≡ some who
    → resolve w.files req.key ≡ some id
    → Serves w pid req s (use_store w req who id s)
unfolding use_store
use_store-Serves w pid req who id s e f =
    if_cases (λ (p : Store × Response). Serves w pid req s p) (is_op req (codes "begin"))
      (λ op h. record {
        who = who;
        id = id;
        operation = op;
        named = e;
        resolved = f;
        hits = begin-hits s id who w.now w.later h;
        same = refl;
      })
      (λ _ h. absurd (h refl))

begin_or_commit-Serves :
    (w : World) (pid : ℤ) (req : Request) (s : Store)
    → Serves w pid req s (begin_or_commit w pid req s)
unfolding begin_or_commit
begin_or_commit-Serves w pid req s = elim (Option-cases (caller w.processes pid)) [
  | inl e ↦ rw (begin_or_commit, e) (λ h. absurd (h refl))
  | inr (who, e) ↦
      rw (begin_or_commit, e)
        (if_cases (λ (p : Store × Response). Serves w pid req s p)
          (not (agent_pin req.key) && not (is_abs req.key.path)) (λ _ h. absurd (h refl))
          (λ _. resolved w pid req who s e))
]
  where
    resolved :
        (w : World) (pid : ℤ) (req : Request) (who : Bytes) (s : Store)
        → caller w.processes pid ≡ some who
        → Serves w pid req s (use_resolved w req who (resolve w.files req.key) s)
    resolved w pid req who s e = elim (Option-cases (resolve w.files req.key)) [
      | inl f ↦ rw f (λ h. absurd (h refl))
      | inr (id, f) ↦ rw f (use_store-Serves w pid req who id s e f)
    ]

pub dispatch-Serves :
    (w : World) (pid : ℤ) (req : Request) (s : Store) → Serves w pid req s (dispatch w pid req s)
unfolding dispatch forget_key
dispatch-Serves w pid req s =
    if_cases (λ (p : Store × Response). Serves w pid req s p) (not (is_version 1 req.version))
      (λ _ h. absurd (h refl))
      (λ _.
        if_cases (λ (p : Store × Response). Serves w pid req s p)
          (is_op req (codes "begin") || is_op req (codes "commit"))
          (λ _. begin_or_commit-Serves w pid req s)
          (λ _.
            if_cases (λ (p : Store × Response). Serves w pid req s p) (is_op req (codes "forget"))
              (λ _.
                if_cases (λ (p : Store × Response). Serves w pid req s p)
                  (not (valid req.key) || not (agent_pin req.key) && not (is_abs req.key.path))
                  (λ _ h. absurd (h refl)) (λ _ h. absurd (h refl)))
              (λ _.
                if_cases (λ (p : Store × Response). Serves w pid req s p)
                  (is_op req (codes "forget-all")) (λ _ h. absurd (h refl))
                  (λ _ h. absurd (h refl)))))

begin-Committed :
    (ttl : ℤ) (turns : List Turn) (s : Store) (id : Identity) (who : Bytes) (now later : ℤ)
    → History ttl turns s
    → (begin s id who now later).1.reason ≡ hit
    → Committed turns id (begin s id who now later).1.secret
begin-Committed ttl turns s id who now later h =
    subst
      (λ u.
        (begin u id who now later).1.reason ≡ hit
        → Committed turns id (begin u id who now later).1.secret)
      (sym h.same)
      (λ hits.
        h.offers id (begin (after ttl h.made) id who now later).1.secret
          (begin-Offered ttl h.made id who now later hits))

-- A request that is answered with a secret is a "begin" of a caller that is named, its key resolves
-- to an identity, and an earlier turn committed that secret for this very identity.
pub dispatch-Committed :
    (ttl : ℤ) (turns : List Turn) (w : World) (pid : ℤ) (req : Request)
    → (dispatch w pid req (served ttl turns)).1.secret ≢ []
    → (id : Identity) × (is_op req (codes "begin") ≡ true)
      × (caller w.processes pid ≢ none)
      × (resolve w.files req.key ≡ some id)
      × Committed turns id (dispatch w pid req (served ttl turns)).1.secret
dispatch-Committed ttl turns w pid req h =
    let v = dispatch-Serves w pid req (served ttl turns) h in
    (
      v.id,
      v.operation,
      (λ e. ground (arith, v.named, e)),
      v.resolved,
      rw (v.same) (
          begin-Committed ttl turns (served ttl turns) v.id v.who w.now w.later
            (served-History ttl turns) v.hits),
    )
