-- ===== src/Cache/Store/Retries.antt =====
-- A caller that asks again for a key file's secret: what it was given did not work.
use gtkaskpass_yubikey.Base.{
  ℕ, ◌≡◌, ◌≢◌, refl, ap, ◌∙◌, true, false, Option, none, some, [], arith, is_some, inl, inr, ◌⊎◌,
  Bytes, Option-cases,
}
use gtkaskpass_yubikey.Base.Int.{ℤ}
use gtkaskpass_yubikey.Base.Maps.{lookup, insert, lookup-insert}
use gtkaskpass_yubikey.Cache.Identity.{Identity, Key-discrete, agent_pin}
use gtkaskpass_yubikey.Cache.Store.{
  Entry, Store, Lookup, SeenKey, SeenKey-discrete, hit, retry, capacity, erase, expire, begin,
  begin_checked, begin_live, begin_entry, begin_current, begin_retry, issue, serve, put_entry,
  made_entry, next,
}
use gtkaskpass_yubikey.Cache.Store.Expiry.{lookup-expire}

abbrev sk : Bytes → Identity → SeenKey
sk caller id = record { caller = caller; key = id.key }

-- The answer that a caller who asks again gets.
abbrev IsRetry : Lookup → Type 0
IsRetry r = (r.reason ≡ retry) × (r.secret ≡ [])

begin_entry-IsRetry :
    (s : Store) (e : Entry) (id : Identity) (caller : Bytes) (n : ℕ) (now : ℤ)
    → IsRetry (begin_entry s e id caller true (some n) now).1
unfolding begin_entry begin_current begin_retry issue
begin_entry-IsRetry s e id caller n now = ground arith

-- Tracked callers are not served.
begin_live-IsRetry :
    (s : Store) (id : Identity) (caller : Bytes) (n : ℕ) (now : ℤ)
    → IsRetry (begin_live s id caller true (some n) now).1
      ⊎ (((begin_live s id caller true (some n) now).1.reason ≡ capacity)
          × ((begin_live s id caller true (some n) now).1.secret ≡ []))
unfolding begin_live
begin_live-IsRetry s id caller n now = elim (Option-cases (lookup Key-discrete id.key s.entries)) [
  | inl e ↦ ground (
    arith,
    begin_entry-IsRetry (put_entry s id.key (next s.seq, made_entry (next s.seq) id))
        (made_entry (next s.seq) id) id caller n now,
  )
  | inr (x, e) ↦ ground (arith, begin_entry-IsRetry s x id caller n now)
]

-- Once a secret or a ticket is handed out, the caller is tracked.
begin_entry-noted :
    (s : Store) (e : Entry) (id : Identity) (caller : Bytes) (previous : Option ℕ) (now : ℤ)
    → is_some (
        lookup SeenKey-discrete (sk caller id) (begin_entry s e id caller true previous now).0.seen)
      ≡ true
unfolding begin_entry begin_current begin_retry issue serve erase
begin_entry-noted s e id caller previous now = ground (
  arith,
  lookup-insert SeenKey-discrete (sk caller id) (sk caller id) 0 s.seen,
  lookup-insert SeenKey-discrete (sk caller id) (sk caller id) e.generation s.seen,
)

-- No secret is left under the key.
abbrev pub IsBlank : Option Entry → Type 0
IsBlank none = Unit
IsBlank (some e) = e.secret ≡ []

-- A hit notes the generation that it served, of the entry as it stays in the store.
begin_entry_hit :
    (s : Store) (e : Entry) (id : Identity) (caller : Bytes) (previous : Option ℕ) (now : ℤ)
    → (begin_entry s e id caller true previous now).1.reason ≡ hit
    → begin_entry s e id caller true previous now ≡ serve s e id caller true
unfolding begin_entry begin_current begin_retry issue erase
begin_entry_hit s e id caller previous now h = ground arith

-- The end of a retry of a generation that is still current.
begin_entry-IsBlank :
    (s : Store) (e : Entry) (id : Identity) (caller : Bytes) (n : ℕ) (now : ℤ)
    → lookup Key-discrete id.key s.entries ≡ some e
    → (n ≡ e.generation) ⊎ (e.secret ≡ [])
    → IsBlank (lookup Key-discrete id.key (begin_entry s e id caller true (some n) now).0.entries)
unfolding begin_entry begin_current begin_retry issue erase
begin_entry-IsBlank s e id caller n now there h =
    let g = next s.seq in
    let changed : Entry = record e { secret = []; generation = g; identity = id } in
    ground (
      arith,
      lookup-insert Key-discrete id.key id.key (record e { secret = []; generation = g }) s.entries,
      lookup-insert Key-discrete id.key id.key changed s.entries,
      lookup-insert Key-discrete id.key id.key (record changed { generation = next g })
          (insert Key-discrete id.key changed s.entries),
    )

made_entry_miss :
    (s : Store) (g : ℕ) (id : Identity) (caller : Bytes) (previous : Option ℕ) (now : ℤ)
    → (begin_entry s (made_entry g id) id caller true previous now).1.reason ≢ hit
unfolding begin_entry begin_current begin_retry issue
made_entry_miss s g id caller previous now = ground arith

begin_live_hit :
    (s : Store) (id : Identity) (caller : Bytes) (previous : Option ℕ) (now : ℤ)
    → (begin_live s id caller true previous now).1.reason ≡ hit
    → (e : Entry) × (lookup Key-discrete id.key s.entries ≡ some e)
      × (begin_live s id caller true previous now ≡ serve s e id caller true)
unfolding begin_live serve
begin_live_hit s id caller previous now h =
    elim (Option-cases (lookup Key-discrete id.key s.entries)) [
      | inl e ↦ absurd (
          ground (
            arith,
            begin_entry_hit (put_entry s id.key (next s.seq, made_entry (next s.seq) id))
                (made_entry (next s.seq) id) id caller previous now,
            made_entry_miss (put_entry s id.key (next s.seq, made_entry (next s.seq) id))
                (next s.seq) id caller previous now,
          ))
      | inr (x, e) ↦ (x, e, ground (arith, begin_entry_hit s x id caller previous now))
    ]

begin_checked_hit :
    (s : Store) (id : Identity) (caller : Bytes) (now : ℤ)
    → agent_pin id.key ≡ false
    → (begin_checked s id caller now).1.reason ≡ hit
    → (e : Entry) × (lookup Key-discrete id.key s.entries ≡ some e)
      × (begin_checked s id caller now ≡ serve s e id caller true)
unfolding begin_checked
begin_checked_hit s id caller now file h =
    let live =
      begin_live_hit s id caller (lookup SeenKey-discrete (sk caller id) s.seen) now
        (ground arith) in
    (live.0, live.1, ground arith)

begin_checked_again :
    (s : Store) (id : Identity) (caller : Bytes) (n : ℕ) (now : ℤ)
    → agent_pin id.key ≡ false
    → lookup SeenKey-discrete (sk caller id) s.seen ≡ some n
    → ((begin_checked s id caller now).1.reason ≢ hit)
      × ((begin_checked s id caller now).1.secret ≡ [])
unfolding begin_checked
begin_checked_again s id caller n now file seen =
    ground (arith, begin_live-IsRetry s id caller n now)

begin_checked_retry :
    (s : Store) (e : Entry) (id : Identity) (caller : Bytes) (n : ℕ) (now : ℤ)
    → agent_pin id.key ≡ false
    → lookup SeenKey-discrete (sk caller id) s.seen ≡ some n
    → lookup Key-discrete id.key s.entries ≡ some e
    → (begin_checked s id caller now).1.reason ≡ retry
    → begin_checked s id caller now ≡ begin_entry s e id caller true (some n) now
unfolding begin_checked begin_live
begin_checked_retry s e id caller n now file seen there h = ground arith

serve_hit_entry :
    (s : Store) (e : Entry) (id : Identity) (caller : Bytes)
    → ((serve s e id caller true).0.entries ≡ s.entries)
      × (lookup SeenKey-discrete (sk caller id) (serve s e id caller true).0.seen
          ≡ some e.generation)
unfolding serve
serve_hit_entry s e id caller = (
  refl,
  ground (arith, lookup-insert SeenKey-discrete (sk caller id) (sk caller id) e.generation s.seen),
)

-- The store after a hit: the caller is tracked with the generation that it was served.
record Served (s : Store) (id : Identity) (caller : Bytes) (e : Entry) : Type 0 where
  noted : lookup SeenKey-discrete (sk caller id) s.seen ≡ some e.generation
  entry : lookup Key-discrete id.key s.entries ≡ some e

begin-Served :
    (s : Store) (id : Identity) (caller : Bytes) (now later : ℤ)
    → agent_pin id.key ≡ false
    → (begin s id caller now later).1.reason ≡ hit
    → (e : Entry) × Served (begin s id caller now later).0 id caller e
unfolding begin
begin-Served s id caller now later file h =
    let (e, there, same) = begin_checked_hit (expire s now) id caller later file h in
    let (entries, noted) = serve_hit_entry (expire s now) e id caller in
    (e, rw same (record { noted = noted; entry = ap (lookup Key-discrete id.key) entries ∙ there }))

expire-Served :
    (s : Store) (id : Identity) (caller : Bytes) (e : Entry) (now : ℤ)
    → Served s id caller e
    → (x : Entry) × (lookup Key-discrete id.key (expire s now).entries ≡ some x)
      × ((e.generation ≡ x.generation) ⊎ (x.secret ≡ []))
unfolding erase
expire-Served s id caller e now v = elim (rw v.entry at (lookup-expire s now id.key)) [
  | inl (_, same) ↦ (e, same, inl refl)
  | inr (seq, _, gone) ↦ ((erase seq e).1, gone, inr refl)
]

-- When a caller that was just served a key file's secret asks again for the same identity, and no other
-- call of the store comes between, it is not served and gets no secret; and if that is admitted as a retry
-- then no secret is left under the key.
pub begin_again :
    (s : Store) (id : Identity) (caller : Bytes) (now later now' later' : ℤ)
    → agent_pin id.key ≡ false
    → (begin s id caller now later).1.reason ≡ hit
    → let again = begin (begin s id caller now later).0 id caller now' later' in
      (again.1.reason ≢ hit)
      × (again.1.secret ≡ [])
      × (again.1.reason ≡ retry → IsBlank (lookup Key-discrete id.key again.0.entries))
begin_again s id caller now later now' later' file h =
    let (e, v) = begin-Served s id caller now later file h in
    let s' = (begin s id caller now later).0 in
    let (x, there, stale) = expire-Served s' id caller e now' v in
    let noted : lookup SeenKey-discrete (sk caller id) (expire s' now').seen ≡ some e.generation =
      unfold expire in v.noted in
    let (quiet, none_given) =
      begin_checked_again (expire s' now') id caller e.generation later' file noted in
    unfold begin in
    (
      quiet,
      none_given,
      λ r.
          rw
            (begin_checked_retry (expire s' now') x id caller e.generation later' file noted there
              r)
            (begin_entry-IsBlank (expire s' now') x id caller e.generation later' there stale),
    )
