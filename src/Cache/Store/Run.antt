-- ===== src/Cache/Store/Run.antt =====
-- Histories of calls on a store, the latest call first: the limits hold in every store that can come
-- about, and a secret that is served was committed for that very identity.
use gtkaskpass_yubikey.Base.{
  ℕ, ◌≡◌, refl, Bool, true, false, Option, none, some, List, [], ◌∷◌, Bytes, All, ◌⊎◌, inl, inr,
  arith, sym, is_empty,
}
use gtkaskpass_yubikey.Base.Int.{ℤ}
use gtkaskpass_yubikey.Base.Maps.{lookup, All-map, All-lookup}
use gtkaskpass_yubikey.Cache.Identity.{Key, Identity, Key-discrete}
use gtkaskpass_yubikey.Cache.Store.{
  Entry, Store, hit, new, begin, current, reject, commit, forget, sweep, expire,
}
use gtkaskpass_yubikey.Cache.Store.Serving.{Answers, begin-Answers}
use gtkaskpass_yubikey.Cache.Store.Bounded.{IsBounded}
use gtkaskpass_yubikey.Cache.Store.Bounded.Begin.{begin_checked-IsBounded}
use gtkaskpass_yubikey.Cache.Store.Bounded.Methods.{
  expire-IsBounded, commit_checked-IsBounded, reject-IsBounded, forget-IsBounded, sweep-IsBounded,
}
use gtkaskpass_yubikey.Cache.Store.Entries.{
  Each, expire-Each, begin_checked-Each, commit_checked-Each, reject-Each, forget-Each, sweep-Each,
}

-- A call of a method with what it reads of the clock and, twice, of the process table.
pub data Call : Type 0 where
  begins : Identity → Bytes → ℤ → ℤ → Call
  checks : Identity → ℕ → ℤ → Call
  rejects : Identity → ℕ → Call
  commits : ℕ → Identity → Bytes → Bytes → ℤ → ℤ → Call
  forgets : Option Key → Call
  sweeps : (alive still_alive : Bytes → Bool) → ℤ → Call

-- In a sweep, a caller that is found alive for its tickets was found alive before.
abbrev pub IsSteady : Call → Type 0
IsSteady (sweeps alive still_alive now) =
    (caller : Bytes) → still_alive caller ≡ true → alive caller ≡ true
IsSteady _ = Unit

unfoldable pub step : Store → Call → Store
step s (begins id caller now later) = (begin s id caller now later).0
step s (checks id generation now) = (current s id generation now).0
step s (rejects id generation) = reject s id generation
step s (commits token id caller value now later) = (commit s token id caller value now later).0
step s (forgets key) = forget s key
step s (sweeps alive still_alive now) = sweep s alive still_alive now

-- The store after a history.
unfoldable pub after : ℤ → List Call → Store
unfolding step
after ttl [] = new ttl
after ttl (c ∷ cs) = step (after ttl cs) c

new-IsBounded : (ttl : ℤ) → IsBounded (new ttl)
unfolding new
new-IsBounded ttl = record {
  entries_cap = omega arith;
  tickets_cap = omega arith;
  seen_cap = omega arith;
  entries_distinct = tt;
  tickets_distinct = tt;
  seen_distinct = tt;
  keyed = tt;
  tracked = tt;
}

step-IsBounded : (s : Store) (c : Call) → IsSteady c → IsBounded s → IsBounded (step s c)
unfolding step begin current commit
step-IsBounded s (begins id caller now later) t v =
    begin_checked-IsBounded (expire s now) id caller later (expire-IsBounded s now v)
step-IsBounded s (checks id generation now) t v = expire-IsBounded s now v
step-IsBounded s (rejects id generation) t v = reject-IsBounded s id generation v
step-IsBounded s (commits token id caller value now later) t v =
    commit_checked-IsBounded (expire s now) token id caller value later (expire-IsBounded s now v)
step-IsBounded s (forgets key) t v = forget-IsBounded s key v
step-IsBounded s (sweeps alive still_alive now) stays v =
    sweep-IsBounded s alive still_alive now stays v

-- If in every sweep a caller that is found alive for its tickets was found alive for its tracking, then
-- every store that calls bring about has at most 256 entries, 256 tickets and 4096 tracked callers,
-- no key twice in a map, each entry under the key of its identity, and retry tracking for every ticket
-- that is not for a PIN of the agent.
pub after-IsBounded : (ttl : ℤ) (cs : List Call) → All IsSteady cs → IsBounded (after ttl cs)
unfolding after
after-IsBounded ttl [] h = new-IsBounded ttl
after-IsBounded ttl (c ∷ cs) h = step-IsBounded (after ttl cs) c h.0 (after-IsBounded ttl cs h.1)

-- A call of the history offered this secret for this identity.
abbrev pub Offered : List Call → Identity → Bytes → Type 0
Offered [] id value = ⊥
Offered (commits token id' caller value' now later ∷ cs) id value =
    ((id' ≡ id) × (value' ≡ value)) ⊎ Offered cs id value
Offered (begins id' caller now later ∷ cs) id value = Offered cs id value
Offered (checks id' generation now ∷ cs) id value = Offered cs id value
Offered (rejects id' generation ∷ cs) id value = Offered cs id value
Offered (forgets key ∷ cs) id value = Offered cs id value
Offered (sweeps alive still_alive now ∷ cs) id value = Offered cs id value

pub Offered-split :
    (c : Call) (cs : List Call) (id : Identity) (value : Bytes)
    → Offered (c ∷ cs) id value
    → Offered (c ∷ []) id value ⊎ Offered cs id value
Offered-split (commits token id' who value' now later) cs id value (inl h) = inl (inl h)
Offered-split (commits token id' who value' now later) cs id value (inr h) = inr h
Offered-split (begins id' who now later) cs id value h = inr h
Offered-split (checks id' generation now) cs id value h = inr h
Offered-split (rejects id' generation) cs id value h = inr h
Offered-split (forgets key) cs id value h = inr h
Offered-split (sweeps alive still_alive now) cs id value h = inr h

-- Where the secret of an entry comes from.
abbrev HasOrigin : List Call → Entry → Type 0
HasOrigin cs e = (e.secret ≡ []) ⊎ Offered cs e.identity e.secret

blank-HasOrigin : (cs : List Call) (e : Entry) → e.secret ≡ [] → HasOrigin cs e
blank-HasOrigin cs e h = inl h

step-HasOrigin :
    (s : Store) (c : Call) (cs : List Call)
    → Each (HasOrigin cs) (blank-HasOrigin cs) s
    → Each (HasOrigin (c ∷ cs)) (blank-HasOrigin (c ∷ cs)) (step s c)
unfolding step begin current commit
step-HasOrigin s (begins id caller now later) cs h =
    begin_checked-Each (HasOrigin cs) (blank-HasOrigin cs) (expire s now) id caller later
      (expire-Each (HasOrigin cs) (blank-HasOrigin cs) s now h)
step-HasOrigin s (checks id generation now) cs h =
    expire-Each (HasOrigin cs) (blank-HasOrigin cs) s now h
step-HasOrigin s (rejects id generation) cs h =
    reject-Each (HasOrigin cs) (blank-HasOrigin cs) s id generation h
step-HasOrigin s (commits token id caller value now later) cs h =
    commit_checked-Each (HasOrigin more) (blank-HasOrigin more) (expire s now) token id caller value
      later (λ e p q. inr (inl (sym p, sym q)))
      (All-map (λ p. HasOrigin cs p.1) (λ p. HasOrigin more p.1) (expire s now).entries
        (λ k e. older e) (expire-Each (HasOrigin cs) (blank-HasOrigin cs) s now h))
  where
    more : List Call
    more = commits token id caller value now later ∷ cs

    older : (e : Entry) → HasOrigin cs e → HasOrigin more e
    older e (inl p) = inl p
    older e (inr o) = inr (inr o)
step-HasOrigin s (forgets key) cs h = forget-Each (HasOrigin cs) (blank-HasOrigin cs) s key h
step-HasOrigin s (sweeps alive still_alive now) cs h =
    sweep-Each (HasOrigin cs) (blank-HasOrigin cs) s alive still_alive now h

after-HasOrigin :
    (ttl : ℤ) (cs : List Call) → Each (HasOrigin cs) (blank-HasOrigin cs) (after ttl cs)
unfolding after new
after-HasOrigin ttl [] = tt
after-HasOrigin ttl (c ∷ cs) = step-HasOrigin (after ttl cs) c cs (after-HasOrigin ttl cs)

served-Offered :
    (cs : List Call) (s : Store) (id : Identity) (value : Bytes) (e : Entry)
    → Each (HasOrigin cs) (blank-HasOrigin cs) s
    → lookup Key-discrete id.key s.entries ≡ some e
    → e.identity ≡ id
    → value ≡ e.secret
    → is_empty e.secret ≡ false
    → Offered cs id value
served-Offered cs s id value e h there p q full =
    elim (All-lookup Key-discrete (λ x. HasOrigin cs x.1) id.key e s.entries h there) [
      | inl gone ↦ absurd (ground arith)
      | inr o ↦ rw (← p, q) o
    ]

-- Whatever the history, a secret that `Begin` serves is one that a `Commit` of the history offered for
-- exactly this identity.
pub begin-Offered :
    (ttl : ℤ) (cs : List Call) (id : Identity) (caller : Bytes) (now later : ℤ)
    → (begin (after ttl cs) id caller now later).1.reason ≡ hit
    → Offered cs id (begin (after ttl cs) id caller now later).1.secret
begin-Offered ttl cs id caller now later h =
    from (lookup Key-discrete id.key (expire s now).entries) refl
      (begin-Answers s id caller now later)
  where
    s : Store
    s = after ttl cs

    from :
        (o : Option Entry)
        → lookup Key-discrete id.key (expire s now).entries ≡ o
        → Answers o id (begin s id caller now later).1
        → Offered cs id (begin s id caller now later).1.secret
    from none e a = absurd (a.0 h)
    from (some x) e (inl a) = absurd (a.0 h)
    from (some x) e (inr a) =
        served-Offered cs (expire s now) id (begin s id caller now later).1.secret x
          (expire-Each (HasOrigin cs) (blank-HasOrigin cs) s now (after-HasOrigin ttl cs)) e a.3 a.1
          a.4
