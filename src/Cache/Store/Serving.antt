-- ===== src/Cache/Store/Serving.antt =====
-- When `Begin` serves a secret.
use gtkaskpass_yubikey.Base.{
  ℕ, ◌≡◌, ◌≢◌, refl, ◌⊎◌, inl, inr, Bool, false, not, Option, none, some, [], arith, is_empty,
  Bytes, Option-cases,
}
use gtkaskpass_yubikey.Base.Int.{ℤ}
use gtkaskpass_yubikey.Base.Maps.{lookup}
use gtkaskpass_yubikey.Cache.Identity.{Identity, Key-discrete, agent_pin}
use gtkaskpass_yubikey.Cache.Store.{
  Entry, Store, Lookup, refused, disabled, capacity, hit, erase, expire, begin, begin_checked,
  begin_live, begin_entry, begin_current, begin_retry, issue, serve, put_entry, made_entry, next,
  Reason, SeenKey-discrete,
}

-- The answer to a request: the entry's secret, or nothing.
abbrev pub Answers : Option Entry → Identity → Lookup → Type 0
Answers none id r = (r.reason ≢ hit) × (r.secret ≡ [])
Answers (some e) id r =
    ((r.reason ≢ hit) × (r.secret ≡ []))
    ⊎ ((r.reason ≡ hit)
        × (r.secret ≡ e.secret)
        × (r.generation ≡ e.generation)
        × (e.identity ≡ id)
        × (is_empty e.secret ≡ false))

issue-Answers :
    (s : Store) (e : Entry) (id : Identity) (caller : Bytes) (track : Bool) (reason : Reason)
    (now : ℤ)
    → reason ≢ hit
    → ((issue s e id caller track reason now).1.reason ≢ hit)
      × ((issue s e id caller track reason now).1.secret ≡ [])
unfolding issue
issue-Answers s e id caller track reason now h = (h, refl)

begin_entry-Answers :
    (s : Store) (e : Entry) (id : Identity) (caller : Bytes) (track : Bool) (previous : Option ℕ)
    (now : ℤ)
    → Answers (some e) id (begin_entry s e id caller track previous now).1
unfolding begin_entry begin_current begin_retry serve issue erase
begin_entry-Answers s e id caller track previous now = ground arith

begin_live-Answers :
    (s : Store) (id : Identity) (caller : Bytes) (track : Bool) (previous : Option ℕ) (now : ℤ)
    → Answers
        (lookup Key-discrete id.key s.entries)
        id
        (begin_live s id caller track previous now).1
unfolding begin_live
begin_live-Answers s id caller track previous now =
    elim (Option-cases (lookup Key-discrete id.key s.entries)) [
      | inl e ↦
          rw (e, begin_live)
            (ground (
              arith,
              begin_entry-Answers (put_entry s id.key (next s.seq, made_entry (next s.seq) id))
                  (made_entry (next s.seq) id) id caller track previous now,
            ))
      | inr (x, e) ↦ rw (e, begin_live) (begin_entry-Answers s x id caller track previous now)
    ]

refused-Answers :
    (o : Option Entry) (id : Identity) (why : Reason) → why ≢ hit → Answers o id (refused why)
refused-Answers none id why h = (h, refl)
refused-Answers (some e) id why h = inl (h, refl)

begin_checked-Answers :
    (s : Store) (id : Identity) (caller : Bytes) (now : ℤ)
    → Answers (lookup Key-discrete id.key s.entries) id (begin_checked s id caller now).1
unfolding begin_checked
begin_checked-Answers s id caller now = ground (
  arith,
  refused-Answers (lookup Key-discrete id.key s.entries) id disabled,
  refused-Answers (lookup Key-discrete id.key s.entries) id capacity,
  begin_live-Answers s id caller (not (agent_pin id.key))
      (lookup SeenKey-discrete (record { caller = caller; key = id.key }) s.seen) now,
)

-- `Begin` gives out a secret only as a hit, and a hit is the secret of a live entry that `expire`
-- left, for exactly this identity.
pub begin-Answers :
    (s : Store) (id : Identity) (caller : Bytes) (now later : ℤ)
    → Answers (lookup Key-discrete id.key (expire s now).entries) id (begin s id caller now later).1
unfolding begin
begin-Answers s id caller now later = begin_checked-Answers (expire s now) id caller later
