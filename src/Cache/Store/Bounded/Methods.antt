-- ===== src/Cache/Store/Bounded/Methods.antt =====
-- The other methods keep the store within its limits.
use gtkaskpass_yubikey.Base.{
  ℕ, suc, ◌≡◌, ◌≤◌, inl, inr, refl, ap, ◌||◌, Bool, true, Option, some, List, [], ◌∷◌, Bytes,
  ℕ_discrete, length, is_some, All, arith, if◌then◌else◌, Bool-cases, Option-cases,
}
use gtkaskpass_yubikey.Base.Int.{ℤ, add64}
use gtkaskpass_yubikey.Base.Maps.{
  lookup, insert, retain, Distinct, insert-Distinct, length-insert, All-insert, All-delete,
  All-retain, All-lookup, retain-Distinct, delete-Distinct, length-retain-le, length-delete-le,
  lookup-retain,
}
use gtkaskpass_yubikey.Cache.Identity.{Key, Identity, Key-discrete, agent_pin}
use gtkaskpass_yubikey.Cache.Store.{
  Entry, Ticket, SeenKey, SeenKey-discrete, Store, erase, expire, expire_entries, is_fresh,
  commit_checked, store_secret, is_acceptable, reject, matches, put_entry, forget, forget_entries,
  is_kept, is_meant, sweep, next, caller_alive, ticket_alive, is_in_use,
}
use gtkaskpass_yubikey.Cache.Store.Cases.{commit_checked_cases, commit_ticket_cases, used_up}
use gtkaskpass_yubikey.Cache.Store.Expiry.{is_over, lookup-expire_entries}
use gtkaskpass_yubikey.Cache.Store.Forgetting.{lookup-forget_entries}
use gtkaskpass_yubikey.Cache.Store.Bounded.{IsBounded, IsTracked, seen_key, IsTracked-insert}

abbrev IsKeyed : Key × Entry → Type 0
IsKeyed p = p.1.identity.key ≡ p.0

length-expire_entries :
    (now : ℤ) (seq : ℕ) (m : List (Key × Entry)) → length (expire_entries now seq m).1 ≡ length m
unfolding expire_entries
length-expire_entries now seq [] = refl
length-expire_entries now seq ((k, e) ∷ m) =
    ap suc (length-expire_entries now (if is_over now e then erase seq e else (seq, e)).0 m)

expire_entries-Distinct :
    (now : ℤ) (seq : ℕ) (m : List (Key × Entry))
    → Distinct Key-discrete m
    → Distinct Key-discrete (expire_entries now seq m).1
unfolding expire_entries
expire_entries-Distinct now seq [] d = tt
expire_entries-Distinct now seq ((k, e) ∷ m) d =
    let seq' = (if is_over now e then erase seq e else (seq, e)).0 in
    (
      ground (arith, lookup-expire_entries now seq' k m),
      expire_entries-Distinct now (if is_over now e then erase seq e else (seq, e)).0 m d.1,
    )

expire_entries-IsKeyed :
    (now : ℤ) (seq : ℕ) (m : List (Key × Entry))
    → All IsKeyed m
    → All IsKeyed (expire_entries now seq m).1
unfolding expire_entries erase
expire_entries-IsKeyed now seq [] h = tt
expire_entries-IsKeyed now seq ((k, e) ∷ m) h = (
  ground arith,
  expire_entries-IsKeyed now (if is_over now e then erase seq e else (seq, e)).0 m h.1,
)

pub expire-IsBounded : (s : Store) (now : ℤ) → IsBounded s → IsBounded (expire s now)
unfolding expire
expire-IsBounded s now v = record {
  entries_cap = omega (arith, v.entries_cap, length-expire_entries now s.seq s.entries);
  tickets_cap = omega (arith, v.tickets_cap, length-retain-le (is_fresh now) s.tickets);
  seen_cap = v.seen_cap;
  entries_distinct = expire_entries-Distinct now s.seq s.entries v.entries_distinct;
  tickets_distinct = retain-Distinct ℕ_discrete (is_fresh now) s.tickets v.tickets_distinct;
  seen_distinct = v.seen_distinct;
  keyed = expire_entries-IsKeyed now s.seq s.entries v.keyed;
  tracked = All-retain (IsTracked s.seen) (is_fresh now) s.tickets v.tracked;
}

-- Overwriting an entry that is there.
rewrite_entry :
    (s : Store) (k : Key) (x e : Entry) (seq : ℕ)
    → IsBounded s
    → lookup Key-discrete k s.entries ≡ some x
    → e.identity.key ≡ k
    → IsBounded (put_entry s k (seq, e))
rewrite_entry s k x e seq v there p = record {
  entries_cap = ground (arith, v.entries_cap, length-insert Key-discrete k e s.entries);
  tickets_cap = v.tickets_cap;
  seen_cap = v.seen_cap;
  entries_distinct = insert-Distinct Key-discrete k e s.entries v.entries_distinct;
  tickets_distinct = v.tickets_distinct;
  seen_distinct = v.seen_distinct;
  keyed = All-insert Key-discrete IsKeyed k e s.entries p v.keyed;
  tracked = v.tracked;
}

pub reject-IsBounded :
    (s : Store) (id : Identity) (generation : ℕ) → IsBounded s → IsBounded (reject s id generation)
unfolding reject erase
reject-IsBounded s id generation v = elim (Option-cases (lookup Key-discrete id.key s.entries)) [
  | inl e ↦ rw (e, reject) v
  | inr (x, e) ↦ elim (Bool-cases (matches x id generation)) [
    | inl m ↦ rw (e, reject, m) (rewrite_entry s id.key x _ (next s.seq) v e (ground arith))
    | inr m ↦ rw (e, reject, m) v
  ]
]

-- Tracking again a caller that is tracked.
retrack :
    (s : Store) (k : SeenKey) (n : ℕ)
    → IsBounded s
    → is_some (lookup SeenKey-discrete k s.seen) ≡ true
    → IsBounded (record s { seen = insert SeenKey-discrete k n s.seen })
retrack s k n v known = record {
  entries_cap = v.entries_cap;
  tickets_cap = v.tickets_cap;
  seen_cap = ground (arith, v.seen_cap, length-insert SeenKey-discrete k n s.seen);
  entries_distinct = v.entries_distinct;
  tickets_distinct = v.tickets_distinct;
  seen_distinct = insert-Distinct SeenKey-discrete k n s.seen v.seen_distinct;
  keyed = v.keyed;
  tracked = IsTracked-insert k n s.seen s.tickets v.tracked;
}

used_up-IsBounded : (s : Store) (token : ℕ) → IsBounded s → IsBounded (used_up s token)
used_up-IsBounded s token v = record {
  entries_cap = v.entries_cap;
  tickets_cap = omega (arith, v.tickets_cap, length-delete-le ℕ_discrete token s.tickets);
  seen_cap = v.seen_cap;
  entries_distinct = v.entries_distinct;
  tickets_distinct = delete-Distinct ℕ_discrete token s.tickets v.tickets_distinct;
  seen_distinct = v.seen_distinct;
  keyed = v.keyed;
  tracked = All-delete ℕ_discrete (IsTracked s.seen) token s.tickets v.tracked;
}

store_secret-IsBounded :
    (s : Store) (e : Entry) (id : Identity) (caller value : Bytes) (now : ℤ)
    → IsBounded s
    → lookup Key-discrete id.key s.entries ≡ some e
    → e.identity.key ≡ id.key
    → (agent_pin id.key || is_some (lookup SeenKey-discrete (seen_key caller id.key) s.seen)) ≡ true
    → IsBounded (store_secret s e id caller value now)
unfolding store_secret erase
store_secret-IsBounded s e id caller value now v there p known =
    let filled : Entry = record e {
      secret = value;
      generation = next s.seq;
      expires = add64 now s.ttl;
    } in
    let w = rewrite_entry s id.key e filled (next s.seq) v there p in
    elim (Bool-cases (agent_pin id.key)) [
      | inl agent ↦ rw agent w
      | inr file ↦ rw file (retrack _ (seen_key caller id.key) _ w (ground arith))
    ]

pub commit_checked-IsBounded :
    (s : Store) (token : ℕ) (id : Identity) (caller value : Bytes) (now : ℤ)
    → IsBounded s
    → IsBounded (commit_checked s token id caller value now).0
unfolding is_acceptable
commit_checked-IsBounded s token id caller value now v =
    commit_checked_cases (λ r. IsBounded r.0) s token id caller value now v
      λ t found owner.
        commit_ticket_cases (λ r. IsBounded r.0) s t token id caller value now
          (used_up-IsBounded s token v)
          λ e there good.
            store_secret-IsBounded (used_up s token) e id caller value now
              (used_up-IsBounded s token v) there
              (All-lookup Key-discrete IsKeyed id.key e s.entries v.keyed there)
              (ground
                (arith, All-lookup ℕ_discrete (IsTracked s.seen) token t s.tickets v.tracked found))

length-forget_entries-le :
    (key : Option Key) (seq : ℕ) (m : List (Key × Entry))
    → length (forget_entries key seq m).1 ≤ length m
unfolding forget_entries
length-forget_entries-le key seq [] = omega arith
length-forget_entries-le key seq ((k, e) ∷ m) =
    ground
      (arith, length-forget_entries-le key seq m, length-forget_entries-le key (erase seq e).0 m)

forget_entries-Distinct :
    (key : Option Key) (seq : ℕ) (m : List (Key × Entry))
    → Distinct Key-discrete m
    → Distinct Key-discrete (forget_entries key seq m).1
unfolding forget_entries
forget_entries-Distinct key seq [] d = tt
forget_entries-Distinct key seq ((k, e) ∷ m) d = elim (Bool-cases (is_meant key k)) [
  | inl gone ↦ rw gone (forget_entries-Distinct key (erase seq e).0 m d.1)
  | inr kept ↦
      rw kept
        (ground (arith, lookup-forget_entries key k seq m), forget_entries-Distinct key seq m d.1)
]

forget_entries-IsKeyed :
    (key : Option Key) (seq : ℕ) (m : List (Key × Entry))
    → All IsKeyed m
    → All IsKeyed (forget_entries key seq m).1
unfolding forget_entries
forget_entries-IsKeyed key seq [] h = tt
forget_entries-IsKeyed key seq ((k, e) ∷ m) h = elim (Bool-cases (is_meant key k)) [
  | inl gone ↦ rw gone (forget_entries-IsKeyed key (erase seq e).0 m h.1)
  | inr kept ↦ rw kept (h.0, forget_entries-IsKeyed key seq m h.1)
]

pub forget-IsBounded : (s : Store) (key : Option Key) → IsBounded s → IsBounded (forget s key)
unfolding forget
forget-IsBounded s key v = record {
  entries_cap = omega (arith, v.entries_cap, length-forget_entries-le key s.seq s.entries);
  tickets_cap = omega (arith, v.tickets_cap, length-retain-le (is_kept key) s.tickets);
  seen_cap = v.seen_cap;
  entries_distinct = forget_entries-Distinct key s.seq s.entries v.entries_distinct;
  tickets_distinct = retain-Distinct ℕ_discrete (is_kept key) s.tickets v.tickets_distinct;
  seen_distinct = v.seen_distinct;
  keyed = forget_entries-IsKeyed key s.seq s.entries v.keyed;
  tracked = All-retain (IsTracked s.seen) (is_kept key) s.tickets v.tracked;
}

-- A ticket of a caller that is alive keeps its tracking.
alive-IsTracked :
    (alive : Bytes → Bool) (seen : List (SeenKey × ℕ)) (t : Ticket) (token : ℕ)
    → Distinct SeenKey-discrete seen
    → alive t.caller ≡ true
    → IsTracked seen (token, t)
    → IsTracked (retain (caller_alive alive) seen) (token, t)
alive-IsTracked alive seen t token d h p = ground (
  arith,
  lookup-retain SeenKey-discrete (caller_alive alive) (seen_key t.caller t.identity.key) seen d,
)

sweep-IsTracked :
    (alive still_alive : Bytes → Bool) (seen : List (SeenKey × ℕ)) (m : List (ℕ × Ticket))
    → ((caller : Bytes) → still_alive caller ≡ true → alive caller ≡ true)
    → Distinct SeenKey-discrete seen
    → All (IsTracked seen) m
    → All (IsTracked (retain (caller_alive alive) seen)) (retain (ticket_alive still_alive) m)
unfolding retain
sweep-IsTracked alive still_alive seen [] stays d h = tt
sweep-IsTracked alive still_alive seen ((token, t) ∷ m) stays d h =
    elim (Bool-cases (still_alive t.caller)) [
      | inl a ↦ rw a (
        alive-IsTracked alive seen t token d (stays t.caller a) h.0,
        sweep-IsTracked alive still_alive seen m stays d h.1,
      )
      | inr dead ↦ rw dead (sweep-IsTracked alive still_alive seen m stays d h.1)
    ]

-- A process that has ended does not come back between the two readings of the process table.
pub sweep-IsBounded :
    (s : Store) (alive still_alive : Bytes → Bool) (now : ℤ)
    → ((caller : Bytes) → still_alive caller ≡ true → alive caller ≡ true)
    → IsBounded s
    → IsBounded (sweep s alive still_alive now)
unfolding sweep
sweep-IsBounded s alive still_alive now stays v =
    let w = expire-IsBounded s now v in
    let s' = expire s now in
    let tickets' = retain (ticket_alive still_alive) s'.tickets in
    record {
      entries_cap = omega (arith, w.entries_cap, length-retain-le (is_in_use tickets') s'.entries);
      tickets_cap =
          omega (arith, w.tickets_cap, length-retain-le (ticket_alive still_alive) s'.tickets);
      seen_cap = omega (arith, w.seen_cap, length-retain-le (caller_alive alive) s'.seen);
      entries_distinct =
          retain-Distinct Key-discrete (is_in_use tickets') s'.entries w.entries_distinct;
      tickets_distinct =
          retain-Distinct ℕ_discrete (ticket_alive still_alive) s'.tickets w.tickets_distinct;
      seen_distinct = retain-Distinct SeenKey-discrete (caller_alive alive) s'.seen w.seen_distinct;
      keyed = All-retain IsKeyed (is_in_use tickets') s'.entries w.keyed;
      tracked =
          sweep-IsTracked alive still_alive s'.seen s'.tickets stays w.seen_distinct w.tracked;
    }
