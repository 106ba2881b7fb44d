-- ===== src/Cache/Store/Committing.antt =====
-- What a successful `Commit` stores, and when `Begin` serves it.
use mathlib.Core.Path.{subst₂}
use gtkaskpass_yubikey.Base.{
  ℕ, ◌≡◌, ◌≤◌, ◌<◌, refl, ap, sym, ◌∙◌, ◌⊎◌, inl, inr, Bool, true, false, not, ◌&&◌, Option, none,
  some, arith, is_empty, length, is_some, Bytes, Option-cases, ℕ_discrete, Bytes-discrete,
  Bool-cases,
}
use gtkaskpass_yubikey.Base.Int.{ℤ, pos, leb_ℤ, add64}
use gtkaskpass_yubikey.Base.Maps.{lookup, lookup-insert, length-retain-le}
use gtkaskpass_yubikey.Askpass.{validate}
use gtkaskpass_yubikey.Cache.Identity.{Identity, Key-discrete, agent_pin}
use gtkaskpass_yubikey.Cache.Store.{
  Entry, Ticket, Store, hit, max_callers, max_tickets, expire, begin, begin_checked, begin_live,
  begin_entry, begin_current, serve, commit, commit_checked, commit_ticket, is_acceptable, is_fresh,
  store_secret, erase, SeenKey-discrete,
}
use gtkaskpass_yubikey.Cache.Store.Expiry.{lookup-expire}

-- The entry holds this secret for this identity, up to this time.
pub record Holds (e : Entry) (id : Identity) (value : Bytes) (until : ℤ) : Type 0 where
  pub identity : e.identity ≡ id
  pub secret : e.secret ≡ value
  pub expires : e.expires ≡ until
  pub present : is_empty value ≡ false

abbrev pub Stored : Store → Identity → Bytes → ℤ → Type 0
Stored s id secret until =
    (e : Entry) × (lookup Key-discrete id.key s.entries ≡ some e) × Holds e id secret until

store_secret-Stored :
    (s : Store) (e : Entry) (id : Identity) (caller secret : Bytes) (now : ℤ)
    → e.identity ≡ id
    → is_empty secret ≡ false
    → Stored (store_secret s e id caller secret now) id secret (add64 now s.ttl)
unfolding store_secret erase
store_secret-Stored s e id caller secret now p q = (
  record e { secret = secret; expires = add64 now s.ttl; generation = (erase s.seq e).0 },
  ground (
    arith,
    lookup-insert Key-discrete id.key id.key
        (record e { secret = secret; expires = add64 now s.ttl; generation = (erase s.seq e).0 })
        s.entries,
  ),
  ground arith,
)

commit_ticket-Stored :
    (s : Store) (t : Ticket) (token : ℕ) (id : Identity) (caller secret : Bytes) (now : ℤ)
    → (commit_ticket s t token id caller secret now).1 ≡ true
    → Stored (commit_ticket s t token id caller secret now).0 id secret (add64 now s.ttl)
      × (validate secret ≡ true)
      × ((commit_ticket s t token id caller secret now).0.ttl ≡ s.ttl)
unfolding commit_ticket is_acceptable
commit_ticket-Stored s t token id caller secret now h =
    elim (Option-cases (lookup Key-discrete id.key s.entries)) [
      | inl e ↦ absurd (ground arith)
      | inr (x, e) ↦ elim (Bool-cases (is_acceptable t x id secret)) [
        | inl good ↦
            rw (e, commit_ticket, good)
              (
                store_secret-Stored _ x id caller secret now (ground arith) (ground arith),
                ground arith,
                unfold store_secret in refl,
              )
        | inr bad ↦ absurd (ground arith)
      ]
    ]

-- `Commit` of a known ticket by its caller uses the ticket.
pub commit_checked_found :
    (s : Store) (t : Ticket) (token : ℕ) (id : Identity) (caller secret : Bytes) (now : ℤ)
    → lookup ℕ_discrete token s.tickets ≡ some t
    → t.caller ≡ caller
    → commit_checked s token id caller secret now ≡ commit_ticket s t token id caller secret now
unfolding commit_checked
commit_checked_found s t token id caller secret now e p = ground arith

commit_checked-Stored :
    (s : Store) (token : ℕ) (id : Identity) (caller secret : Bytes) (now : ℤ)
    → (commit_checked s token id caller secret now).1 ≡ true
    → Stored (commit_checked s token id caller secret now).0 id secret (add64 now s.ttl)
      × (validate secret ≡ true)
      × ((commit_checked s token id caller secret now).0.ttl ≡ s.ttl)
unfolding commit_checked
commit_checked-Stored s token id caller secret now h =
    elim (Option-cases (lookup ℕ_discrete token s.tickets)) [
      | inl e ↦ absurd (ground arith)
      | inr (t, e) ↦ elim (Bytes-discrete t.caller caller) [
        | yes p ↦
            let same = commit_checked_found s t token id caller secret now e p in
            rw same (commit_ticket-Stored s t token id caller secret now (rw same at h))
        | no p ↦ absurd (ground arith)
      ]
    ]

begin_entry_serves :
    (s : Store) (e : Entry) (id : Identity) (caller : Bytes) (track : Bool) (previous : Option ℕ)
    (now : ℤ)
    → e.identity ≡ id
    → is_empty e.secret ≡ false
    → (is_some previous && track) ≡ false
    → begin_entry s e id caller track previous now ≡ serve s e id caller track
unfolding begin_entry begin_current
begin_entry_serves s e id caller track previous now p q r = ground arith

-- A caller that was not given this key before, or a PIN of the agent, is served what is stored.
begin_checked-Stored :
    (s : Store) (id : Identity) (caller secret : Bytes) (until now : ℤ)
    → Stored s id secret until
    → leb_ℤ s.ttl (pos 0) ≡ false
    → (agent_pin id.key ≡ true)
      ⊎ ((lookup SeenKey-discrete (record { caller = caller; key = id.key }) s.seen ≡ none)
          × (length s.seen < max_callers))
    → length s.tickets < max_tickets
    → ((begin_checked s id caller now).1.reason ≡ hit)
      × ((begin_checked s id caller now).1.secret ≡ secret)
unfolding begin_checked begin_live serve
begin_checked-Stored s id caller secret until now (e, found, holds) h k l = ground (
  arith,
  begin_entry_serves s e id caller (not (agent_pin id.key))
      (lookup SeenKey-discrete (record { caller = caller; key = id.key }) s.seen) now,
)

expire-Stored :
    (s : Store) (id : Identity) (secret : Bytes) (until now : ℤ)
    → Stored s id secret until
    → leb_ℤ until now ≡ false
    → Stored (expire s now) id secret until
expire-Stored s id secret until now (e, found, holds) h =
    (e, ground (arith, lookup-expire s now id.key), holds)

expire_ttl :
    (s : Store) (now : ℤ)
    → ((expire s now).ttl ≡ s.ttl)
      × ((expire s now).seen ≡ s.seen)
      × (length (expire s now).tickets ≤ length s.tickets)
unfolding expire
expire_ttl s now = (refl, refl, length-retain-le (is_fresh now) s.tickets)

pub commit-Stored :
    (s s' : Store) (token : ℕ) (id : Identity) (caller secret : Bytes) (now later : ℤ)
    → commit s token id caller secret now later ≡ (s', true)
    → Stored s' id secret (add64 later s.ttl) × (validate secret ≡ true) × (s'.ttl ≡ s.ttl)
unfolding commit
commit-Stored s s' token id caller secret now later done =
    let (stored, good, same) =
      commit_checked-Stored (expire s now) token id caller secret later (ap (λ r. r.1) done) in
    let kept = (expire_ttl s now).0 in
    let moved = ap (λ r. r.0) done in
    (
      subst₂ (λ x y. Stored x id secret (add64 later y)) moved kept stored,
      good,
      sym (ap (λ x. x.ttl) moved) ∙ same ∙ kept,
    )

-- A secret that `Commit` accepts is served by `Begin`, until its time is up, to every caller that
-- `Begin` may serve.
pub begin-commit :
    (s s' : Store) (token : ℕ) (id : Identity) (caller other secret : Bytes)
    (now later now' later' : ℤ)
    → commit s token id caller secret now later ≡ (s', true)
    → leb_ℤ (add64 later s.ttl) now' ≡ false
    → leb_ℤ s.ttl (pos 0) ≡ false
    → (agent_pin id.key ≡ true)
      ⊎ ((lookup SeenKey-discrete (record { caller = other; key = id.key }) s'.seen ≡ none)
          × (length s'.seen < max_callers))
    → length s'.tickets < max_tickets
    → ((begin s' id other now' later').1.reason ≡ hit)
      × ((begin s' id other now' later').1.secret ≡ secret)
unfolding begin
begin-commit s s' token id caller other secret now later now' later' done early enabled k l =
    let (stored, _, ttl) = commit-Stored s s' token id caller secret now later done in
    let (ttl', seen', fewer) = expire_ttl s' now' in
    begin_checked-Stored (expire s' now') id other secret (add64 later s.ttl) later'
      (expire-Stored s' id secret _ now' stored early) (rw (ttl', ttl) enabled) (rw seen' k)
      (omega arith)
