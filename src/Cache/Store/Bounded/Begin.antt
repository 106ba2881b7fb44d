-- ===== src/Cache/Store/Bounded/Begin.antt =====
-- `Begin` keeps the store within its limits.
use mathlib.Core.Option
use gtkaskpass_yubikey.Base.{
  ℕ, ◌≡◌, ◌≤◌, ◌<◌, ◌⊎◌, inl, inr, refl, not, ◌&&◌, Bool, true, false, ◌||◌, Option, List, [],
  Bytes, ℕ_discrete, length, is_some, All, arith, leb, if◌then◌else◌, Bool-cases, if_cases,
  Option-cases, decide, is_empty, ◌==◌,
}
use gtkaskpass_yubikey.Base.Int.{ℤ, pos, leb_ℤ, add64}
use gtkaskpass_yubikey.Base.Maps.{
  lookup, insert, Distinct, insert-Distinct, length-insert, All-insert, lookup-insert,
}
use gtkaskpass_yubikey.Cache.Identity.{Key, Identity, Key-discrete, Identity-discrete, agent_pin}
use gtkaskpass_yubikey.Cache.Store.{
  Entry, Ticket, SeenKey, SeenKey-discrete, Store, Reason, max_keys, max_callers, max_tickets,
  put_entry, issue, serve, next, begin_retry, begin_current, begin_entry, begin_live, begin_checked,
  erase, ticket_lifetime, Lookup, made_entry, miss, file_changed,
}
use gtkaskpass_yubikey.Cache.Store.Bounded.{IsBounded, IsTracked, seen_key, IsTracked-insert}

put_entry-IsBounded :
    (s : Store) (k : Key) (seq : ℕ) (e : Entry)
    → IsBounded s
    → e.identity.key ≡ k
    → (is_some (lookup Key-discrete k s.entries) ≡ true) ⊎ (length s.entries < max_keys)
    → IsBounded (put_entry s k (seq, e))
put_entry-IsBounded s k seq e v p room = record {
  entries_cap = ground (arith, length-insert Key-discrete k e s.entries);
  tickets_cap = v.tickets_cap;
  seen_cap = v.seen_cap;
  entries_distinct = insert-Distinct Key-discrete k e s.entries v.entries_distinct;
  tickets_distinct = v.tickets_distinct;
  seen_distinct = v.seen_distinct;
  keyed = All-insert Key-discrete _ k e s.entries p v.keyed;
  tracked = v.tracked;
}

-- What the first checks of `Begin` establish.
record HasRoom (s : Store) (id : Identity) (caller : Bytes) (track : Bool) : Type 0 where
  tickets : length s.tickets < max_tickets
  callers :
      (track ≡ false)
      ⊎ (is_some (lookup SeenKey-discrete (seen_key caller id.key) s.seen) ≡ true)
      ⊎ (length s.seen < max_callers)
  policy : track ≡ not (agent_pin id.key)

abbrev noted : Bool → SeenKey → ℕ → List (SeenKey × ℕ) → List (SeenKey × ℕ)
noted track k n seen = if track then insert SeenKey-discrete k n seen else seen

-- The callers after `Begin` has tracked one.
record NotedOk (seen : List (SeenKey × ℕ)) (m : List (ℕ × Ticket)) : Type 0 where
  cap : length seen ≤ max_callers
  distinct : Distinct SeenKey-discrete seen
  tracked : All (IsTracked seen) m

noted_lem :
    (s : Store) (id : Identity) (caller : Bytes) (track : Bool) (n : ℕ)
    → IsBounded s
    → HasRoom s id caller track
    → NotedOk (noted track (seen_key caller id.key) n s.seen) s.tickets
noted_lem s id caller false n v r = record {
  cap = v.seen_cap;
  distinct = v.seen_distinct;
  tracked = v.tracked;
}
noted_lem s id caller true n v r = record {
  cap = ground (arith, length-insert SeenKey-discrete (seen_key caller id.key) n s.seen);
  distinct = insert-Distinct SeenKey-discrete (seen_key caller id.key) n s.seen v.seen_distinct;
  tracked = IsTracked-insert (seen_key caller id.key) n s.seen s.tickets v.tracked;
}

noted-IsTracked :
    (seen : List (SeenKey × ℕ)) (t : Ticket) (token : ℕ) (track : Bool) (n : ℕ)
    → track ≡ not (agent_pin t.identity.key)
    → IsTracked (noted track (seen_key t.caller t.identity.key) n seen) (token, t)
noted-IsTracked seen t token true n p = ground (
  arith,
  lookup-insert SeenKey-discrete (seen_key t.caller t.identity.key)
      (seen_key t.caller t.identity.key) n seen,
)
noted-IsTracked seen t token false n p = ground arith

record IsKept (r : Store × Lookup) : Type 0 where
  kept : IsBounded r.0

issue-IsBounded :
    (s : Store) (e : Entry) (id : Identity) (caller : Bytes) (track : Bool) (why : Reason) (now : ℤ)
    → IsBounded s
    → HasRoom s id caller track
    → IsKept (issue s e id caller track why now)
unfolding issue
issue-IsBounded s e id caller track why now v r =
    let ok = noted_lem s id caller track 0 v r in
    let t : Ticket = record {
      identity = id;
      generation = e.generation;
      caller = caller;
      expires = add64 now ticket_lifetime;
    } in
    record {
      kept = record {
        entries_cap = v.entries_cap;
        tickets_cap = ground (arith, length-insert ℕ_discrete (next s.seq) t s.tickets);
        seen_cap = ok.cap;
        entries_distinct = v.entries_distinct;
        tickets_distinct = insert-Distinct ℕ_discrete (next s.seq) t s.tickets v.tickets_distinct;
        seen_distinct = ok.distinct;
        keyed = v.keyed;
        tracked =
            All-insert ℕ_discrete _ (next s.seq) t s.tickets
              (noted-IsTracked s.seen t (next s.seq) track 0 r.policy) ok.tracked;
      };
    }

serve-IsBounded :
    (s : Store) (e : Entry) (id : Identity) (caller : Bytes) (track : Bool)
    → IsBounded s
    → HasRoom s id caller track
    → IsKept (serve s e id caller track)
unfolding serve
serve-IsBounded s e id caller track v r =
    let ok = noted_lem s id caller track e.generation v r in
    record {
      kept = record {
        entries_cap = v.entries_cap;
        tickets_cap = v.tickets_cap;
        seen_cap = ok.cap;
        entries_distinct = v.entries_distinct;
        tickets_distinct = v.tickets_distinct;
        seen_distinct = ok.distinct;
        keyed = v.keyed;
        tracked = ok.tracked;
      };
    }

module _ (id : Identity) (caller : Bytes) (track : Bool) where
  -- The entry of the identity is in the store, and the checks have passed.
  record IsReady (s : Store) : Type 0 where
    bounded : IsBounded s
    room : HasRoom s id caller track
    there : is_some (lookup Key-discrete id.key s.entries) ≡ true

  put_entry-IsReady :
      (s : Store) (seq : ℕ) (e : Entry)
      → e.identity.key ≡ id.key
      → IsBounded s
      → HasRoom s id caller track
      → (is_some (lookup Key-discrete id.key s.entries) ≡ true) ⊎ (length s.entries < max_keys)
      → IsReady (put_entry s id.key (seq, e))
  put_entry-IsReady s seq e p v r room = record {
    bounded = put_entry-IsBounded s id.key seq e v p room;
    room = record { tickets = r.tickets; callers = r.callers; policy = r.policy };
    there = ground (arith, lookup-insert Key-discrete id.key id.key e s.entries);
  }

  begin_current-IsBounded :
      (s : Store) (e : Entry) (previous : Option ℕ) (why : Reason) (now : ℤ)
      → e.identity.key ≡ id.key
      → IsReady s
      → IsKept (begin_current s e id caller track previous why now)
  unfolding begin_current begin_retry erase
  begin_current-IsBounded s e previous why now p v =
      let renewed =
        put_entry-IsReady s (next s.seq) (record e { secret = []; generation = next s.seq }) p
          v.bounded v.room (inl v.there) in
      if_cases IsKept (is_some previous && track)
        (λ _.
          if_cases IsKept (Option.get_or previous 0 == e.generation)
            (λ _. issue-IsBounded _ _ id caller track _ now renewed.bounded renewed.room)
            (λ _. issue-IsBounded s e id caller track _ now v.bounded v.room))
        (λ _.
          if_cases IsKept (not (is_empty e.secret))
            (λ _. serve-IsBounded s e id caller track v.bounded v.room)
            (λ _. issue-IsBounded s e id caller track why now v.bounded v.room))

  begin_entry-IsBounded :
      (s : Store) (e : Entry) (previous : Option ℕ) (now : ℤ)
      → IsReady s
      → IsKept (begin_entry s e id caller track previous now)
  unfolding begin_entry erase
  begin_entry-IsBounded s e previous now v =
      let changed : Entry = record e { secret = []; generation = next s.seq; identity = id } in
      let renewed = put_entry-IsReady s (next s.seq) changed refl v.bounded v.room (inl v.there) in
      elim (Bool-cases (decide (Identity-discrete e.identity id))) [
        | inl same ↦ rw same (begin_current-IsBounded s e previous miss now (ground arith) v)
        | inr other ↦
            rw other (begin_current-IsBounded _ changed previous file_changed now refl renewed)
      ]

  begin_live-IsBounded :
      (s : Store) (previous : Option ℕ) (now : ℤ)
      → IsBounded s
      → HasRoom s id caller track
      → IsKept (begin_live s id caller track previous now)
  unfolding begin_live
  begin_live-IsBounded s previous now v r =
      elim (Option-cases (lookup Key-discrete id.key s.entries)) [
        | inr (e, found) ↦
            rw (found, begin_live)
              (begin_entry-IsBounded s e previous now
                (record { bounded = v; room = r; there = ground arith }))
        | inl missing ↦
            rw (missing, begin_live)
              (if_cases IsKept (leb max_keys (length s.entries)) (λ _. record { kept = v })
                λ few. begin_entry-IsBounded _ (made_entry (next s.seq) id) previous now (
                  put_entry-IsReady s (next s.seq) (made_entry (next s.seq) id) refl v r
                    (inr (ground arith))))
      ]

callers_room :
    (s : Store) (id : Identity) (caller : Bytes) (full : Bool)
    → let track = not (agent_pin id.key) in
      let known = is_some (lookup SeenKey-discrete (seen_key caller id.key) s.seen) in
      (track && not (known && track) && leb max_callers (length s.seen) || full) ≡ false
      → (track ≡ false) ⊎ (known ≡ true) ⊎ (length s.seen < max_callers)
callers_room s id caller full h = elim (Bool-cases (agent_pin id.key)) [
  | inl agent ↦ inl (rw agent)
  | inr file ↦
      elim (Bool-cases (is_some (lookup SeenKey-discrete (seen_key caller id.key) s.seen))) [
        | inl known ↦ inr (inl known)
        | inr new ↦ inr (inr (ground arith))
      ]
]

-- `Begin`, after `expire`, keeps the store within its limits.
pub begin_checked-IsBounded :
    (s : Store) (id : Identity) (caller : Bytes) (now : ℤ)
    → IsBounded s
    → IsBounded (begin_checked s id caller now).0
unfolding begin_checked
begin_checked-IsBounded s id caller now v = kept.kept
  where
    kept : IsKept (begin_checked s id caller now)
    kept =
        if_cases IsKept (leb_ℤ s.ttl (pos 0)) (λ _. record { kept = v })
          λ _.
            if_cases IsKept _ (λ _. record { kept = v })
              λ room.
                begin_live-IsBounded id caller (not (agent_pin id.key)) s
                  (lookup SeenKey-discrete (seen_key caller id.key) s.seen) now v
                  (record {
                    tickets = ground arith;
                    callers = callers_room s id caller _ room;
                    policy = refl;
                  })
