-- ===== src/Service/Handling/Keeping/Origins.antt =====
-- Where a secret comes from that the store serves after a request of `Handle`,
-- internal/service/service.go.
use mathlib.Core.Path.{subst}
use gtkaskpass_yubikey.Base.{ℕ, ◌≡◌, sym, ap, Bool, true, some, List, [], ◌∷◌, Bytes, ◌⊎◌, inl, inr}
use gtkaskpass_yubikey.Base.Int.{ℤ}
use gtkaskpass_yubikey.Askpass.{parse}
use gtkaskpass_yubikey.Cache.Identity.{Identity}
use gtkaskpass_yubikey.Cache.Store.{Store, Lookup, hit, begin}
use gtkaskpass_yubikey.Cache.Store.Run.{
  Call, begins, checks, rejects, commits, forgets, sweeps, step, after, Offered, Offered-split,
  begin-Offered,
}
use gtkaskpass_yubikey.Service.Handler.World.{Context, Event, Log, State, committed, interfere}
use gtkaskpass_yubikey.Service.Handler.{handle}
use gtkaskpass_yubikey.Service.Handling.Trace.{phase, delivered, entry, Vouched, Safe, Allowed}
use gtkaskpass_yubikey.Service.Handling.Requests.{must_verify, handle-Safe}
use gtkaskpass_yubikey.Service.Handling.Keeping.{IsSilent, Closed}
use gtkaskpass_yubikey.Service.Handling.Keeping.Requests.{handle-Keeps}

-- The event came after those of `before`.
pub data Within (e : Event) (before : Log) : Log → Type 0 where
  last : Within e before (e ∷ before)
  earlier : (x : Event) (log : Log) → Within e before log → Within e before (x ∷ log)

record HasCommit (id : Identity) (value : Bytes) (log : Log) : Type 0 where
  ok : Bool
  before : Log
  within : Within (committed id value ok) before log

Safe-Allowed :
    (verify : Bool) (e : Event) (before log : Log)
    → Within e before log
    → Safe verify log
    → Allowed verify e before
unfolding Safe
Safe-Allowed verify e before _ last s = s.0
Safe-Allowed verify e before _ (earlier x log w) s = Safe-Allowed verify e before log w s.1

-- The request itself offered this secret for this identity, once it was delivered: it was entered last,
-- to be kept, and a device had accepted it if PINs are verified.
pub record IsOwn (verify : Bool) (id : Identity) (value : Bytes) (log : Log) : Type 0 where
  pub ok : Bool
  pub before : Log
  pub within : Within (committed id value ok) before log
  pub delivery : phase before ≡ delivered value
  pub kept : entry before ≡ some (value, true)
  pub vouched : Vouched verify before

own :
    (verify : Bool) (id : Identity) (value : Bytes) (log : Log)
    → Safe verify log
    → HasCommit id value log
    → IsOwn verify id value log
own verify id value log s h =
    let a = Safe-Allowed verify (committed id value h.ok) h.before log h.within s in
    record {
      ok = h.ok;
      before = h.before;
      within = h.within;
      delivery = a.0;
      kept = a.1;
      vouched = a.2;
    }

module _ (ttl : ℤ) (history : List Call) (id : Identity) (value : Bytes) where
  -- The store comes about by calls, and those that offer the secret are of the history or noted.
  record HasOrigin (store : Store) (log : Log) : Type 0 where
    made : List Call
    same : store ≡ after ttl made
    offers : Offered made id value → Offered history id value ⊎ HasCommit id value log

  step-HasOrigin :
      (x : Call) (store : Store) (log : Log)
      → (Offered (x ∷ []) id value → HasCommit id value log)
      → HasOrigin store log
      → HasOrigin (step store x) log
  unfolding after
  step-HasOrigin x store log f o = record {
    made = x ∷ o.made;
    same = ap (λ s. step s x) o.same;
    offers =
        λ p. elim (Offered-split x o.made id value p) [ inl q ↦ inr (f q) | inr q ↦ o.offers q ];
  }

  note-HasOrigin :
      (e : Event) (store : Store) (log : Log) → HasOrigin store log → HasOrigin store (e ∷ log)
  note-HasOrigin e store log o = record {
    made = o.made;
    same = o.same;
    offers = λ p. elim (o.offers p) [
      | inl q ↦ inl q
      | inr h ↦ inr (record { ok = h.ok; before = h.before; within = earlier e log h.within })
    ];
  }

  silent : (x : Call) → IsSilent x → Offered (x ∷ []) id value → ⊥
  silent (begins i caller now later) t o = o
  silent (checks i generation now) t o = o
  silent (rejects i generation) t o = o
  silent (commits token i caller v now later) t o = t
  silent (forgets key) t o = o
  silent (sweeps alive still_alive now) t o = o

  Offered-head :
      (x : Call) (calls : List Call) → Offered (x ∷ []) id value → Offered (x ∷ calls) id value
  Offered-head (begins i caller now later) calls o = absurd o
  Offered-head (checks i generation now) calls o = absurd o
  Offered-head (rejects i generation) calls o = absurd o
  Offered-head (commits token i caller v now later) calls (inl p) = inl p
  Offered-head (commits token i caller v now later) calls (inr o) = absurd o
  Offered-head (forgets key) calls o = absurd o
  Offered-head (sweeps alive still_alive now) calls o = absurd o

  Offered-tail :
      (x : Call) (calls : List Call) → Offered calls id value → Offered (x ∷ calls) id value
  Offered-tail (begins i caller now later) calls o = o
  Offered-tail (checks i generation now) calls o = o
  Offered-tail (rejects i generation) calls o = o
  Offered-tail (commits token i caller v now later) calls o = inr o
  Offered-tail (forgets key) calls o = o
  Offered-tail (sweeps alive still_alive now) calls o = o

  interfere-HasOrigin :
      (calls : List Call) (store : Store) (log : Log)
      → (Offered calls id value → ⊥)
      → HasOrigin store log
      → HasOrigin (interfere calls store) log
  interfere-HasOrigin [] store log n o = o
  interfere-HasOrigin (x ∷ calls) store log n o =
      interfere-HasOrigin calls (step store x) log (λ p. n (Offered-tail x calls p))
        (step-HasOrigin x store log (λ p. absurd (n (Offered-head x calls p))) o)

  commit-HasOrigin :
      (token : ℕ) (i : Identity) (caller v : Bytes) (now later : ℤ) (ok : Bool) (store : Store)
      (log : Log)
      → HasOrigin store log
      → HasOrigin (step store (commits token i caller v now later)) (committed i v ok ∷ log)
  commit-HasOrigin token i caller v now later ok store log o =
      step-HasOrigin (commits token i caller v now later) store (committed i v ok ∷ log) noted
        (note-HasOrigin (committed i v ok) store log o)
    where
      noted :
          Offered (commits token i caller v now later ∷ []) id value
          → HasCommit id value (committed i v ok ∷ log)
      noted (inl (p, q)) = record { ok = ok; before = log; within = rw (← p, ← q) last }
      noted (inr o) = absurd o

  Origin-Closed :
      {W : Type 0} (c : Context W)
      → ((w : W) → Offered (c.env.others w).1 id value → ⊥)
      → Closed c HasOrigin
  Origin-Closed c quiet = record {
    others = λ w store log o. interfere-HasOrigin (c.env.others w).1 store log (quiet w) o;
    steps = λ x store log t o. step-HasOrigin x store log (λ p. absurd (silent x t p)) o;
    committing = λ token i v now later ok store log o.
        commit-HasOrigin token i c.caller v now later ok store log o;
    notes = note-HasOrigin;
  }

-- What a caller is told that asks after a run of the handler.
abbrev pub asked_after : {W : Type 0} → Context W → ℕ → State W → Identity → Bytes → ℤ → ℤ → Lookup
asked_after c fuel s id caller now later = (begin (handle c fuel s).1.store id caller now later).1

-- A secret that Begin gives out as a hit after a run of the handler was offered for exactly this identity
-- by a Commit of the history before the run, or by the run itself once the adapter had reported that it
-- was delivered: then it had been entered last, to be kept, and a device had accepted it since if PINs are
-- verified. This is so if no other connection offers that secret for that identity during the run,
-- whatever else others call, also between two calls of the handler.
pub handle-origin :
    {W : Type 0} (c : Context W) (fuel : ℕ) (s : State W) (ttl : ℤ) (history : List Call)
    (id : Identity) (caller : Bytes) (now later : ℤ)
    → s.log ≡ []
    → s.store ≡ after ttl history
    → ((w : W)
        → Offered (c.env.others w).1 id (asked_after c fuel s id caller now later).secret
        → ⊥)
    → (asked_after c fuel s id caller now later).reason ≡ hit
    → Offered history id (asked_after c fuel s id caller now later).secret
      ⊎ IsOwn
          (must_verify c (parse c.request.args c.request.hint))
          id
          (asked_after c fuel s id caller now later).secret
          (handle c fuel s).1.log
handle-origin c fuel s ttl history id caller now later fresh begun quiet hits =
    let value = (asked_after c fuel s id caller now later).secret in
    let verify = must_verify c (parse c.request.args c.request.hint) in
    let o =
      (handle-Keeps c (Origin-Closed ttl history id value c quiet) fuel).keeps s
        (record { made = history; same = begun; offers = λ p. inl p }) in
    let offered =
      subst
        (λ store.
          (begin store id caller now later).1.reason ≡ hit
          → Offered o.made id (begin store id caller now later).1.secret)
        (sym o.same) (begin-Offered ttl o.made id caller now later) hits in
    elim (o.offers offered) [
      | inl p ↦ inl p
      | inr h ↦ inr (own verify id value (handle c fuel s).1.log (handle-Safe c fuel s fresh) h)
    ]
