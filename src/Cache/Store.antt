-- ===== src/Cache/Store.antt =====
-- internal/cache/store.go: `Store`. A method takes the readings of the clock that it makes, in order,
-- and returns the new store. The mutex makes each method one step.
pub mod Cases
pub mod Expiry
pub mod Serving
pub mod Committing
pub mod Forgetting
pub mod Leases
pub mod Retries
pub mod Bounded
pub mod Entries
pub mod Run
pub mod Denied
pub mod Sweeping
use Prim.Native.Nat.{◌^◌}
use mathlib.Core.Option
use gtkaskpass_yubikey.Base.{
  ℕ, ◌+◌, ◌*◌, ◌%◌, Bool, true, false, not, ◌&&◌, ◌||◌, Option, none, some, List, [], ◌∷◌, Bytes,
  Bytes-discrete, ℕ_discrete, length, leb, ◌==◌, decide, is_empty, is_some, if◌then◌else◌,
}
use gtkaskpass_yubikey.Base.Int.{ℤ, pos, leb_ℤ, add64}
use gtkaskpass_yubikey.Base.Maps.{lookup, insert, delete, retain}
use gtkaskpass_yubikey.Askpass.{validate}
use gtkaskpass_yubikey.Cache.Identity.{Key, Identity, Key-discrete, Identity-discrete, agent_pin}

abbrev pub max_keys : ℕ
max_keys = 256

abbrev pub max_callers : ℕ
max_callers = 4096

abbrev pub max_tickets : ℕ
max_tickets = 256

-- Ten minutes, in nanoseconds.
abbrev pub ticket_lifetime : ℤ
ticket_lifetime = pos (10 * 60 * 1_000_000_000)

pub record Entry : Type 0 where
  pub identity : Identity
  pub generation : ℕ
  pub secret : Bytes
  pub expires : ℤ

pub record Ticket : Type 0 where
  pub identity : Identity
  pub generation : ℕ
  pub caller : Bytes
  pub expires : ℤ

pub record SeenKey : Type 0 where
  pub caller : Bytes
  pub key : Key

unfoldable pub SeenKey-discrete : Discrete SeenKey
SeenKey-discrete = hlevel ℕ_discrete

pub record Store : Type 0 where
  pub ttl : ℤ
  pub seq : ℕ
  pub entries : List (Key × Entry)
  pub tickets : List (ℕ × Ticket)
  pub seen : List (SeenKey × ℕ)

-- The `Reason` of a lookup; `unstated` is the empty string.
pub data Reason : Type 0 where
  unstated disabled capacity miss file_changed retry hit : Reason

pub record Lookup : Type 0 where
  pub generation : ℕ
  pub secret : Bytes
  pub token : ℕ
  pub ttl : ℤ
  pub reason : Reason

unfoldable pub new : ℤ → Store
new ttl = record { ttl = ttl; seq = 0; entries = []; tickets = []; seen = [] }

-- `next`: the counter is a uint64.
unfoldable pub next : ℕ → ℕ
next seq = (seq + 1) % 2 ^ 64

-- `erase`, with the counter after it.
unfoldable pub erase : ℕ → Entry → ℕ × Entry
erase seq e = (next seq, record e { secret = []; generation = next seq })

-- The loop of `expire` over the entries.
unfoldable pub expire_entries : ℤ → ℕ → List (Key × Entry) → ℕ × List (Key × Entry)
expire_entries now seq [] = (seq, [])
expire_entries now seq ((k, e) ∷ m) =
    let (seq', e') =
      if not (is_empty e.secret) && leb_ℤ e.expires now then erase seq e else (seq, e) in
    let (seq'', m') = expire_entries now seq' m in (seq'', (k, e') ∷ m')

unfoldable pub is_fresh : ℤ → ℕ → Ticket → Bool
is_fresh now token t = not (leb_ℤ t.expires now)

unfoldable pub expire : Store → ℤ → Store
expire s now =
    let (seq', entries') = expire_entries now s.seq s.entries in
    record s { seq = seq'; entries = entries'; tickets = retain (is_fresh now) s.tickets }

-- What `Begin` answers without a secret or a ticket.
abbrev pub refused : Reason → Lookup
refused reason = record { generation = 0; secret = []; token = 0; ttl = pos 0; reason = reason }

-- The end of `Begin`: reserve retry tracking and hand out a ticket.
unfoldable pub issue : Store → Entry → Identity → Bytes → Bool → Reason → ℤ → Store × Lookup
issue s e id caller track reason now =
    let token = next s.seq in
    let sk : SeenKey = record { caller = caller; key = id.key } in
    let ticket : Ticket = record {
      identity = id;
      generation = e.generation;
      caller = caller;
      expires = add64 now ticket_lifetime;
    } in
    (
      record s {
        seq = token;
        tickets = insert ℕ_discrete token ticket s.tickets;
        seen = if track then insert SeenKey-discrete sk 0 s.seen else s.seen;
      },
      record { generation = 0; secret = []; token = token; ttl = s.ttl; reason = reason },
    )

-- A cached secret goes to a caller that has not been given this key before.
unfoldable pub serve : Store → Entry → Identity → Bytes → Bool → Store × Lookup
serve s e id caller track =
    let sk : SeenKey = record { caller = caller; key = id.key } in
    (
      record s { seen = if track then insert SeenKey-discrete sk e.generation s.seen else s.seen },
      record { generation = e.generation; secret = e.secret; token = 0; ttl = pos 0; reason = hit },
    )

-- Write back the entry that `e` points to.
abbrev pub put_entry : Store → Key → ℕ × Entry → Store
put_entry s k (seq, e) = record s { seq = seq; entries = insert Key-discrete k e s.entries }

-- `Begin` on a caller that asks again: what it was given before did not work.
unfoldable pub begin_retry : Store → Entry → Identity → Bytes → Bool → ℕ → ℤ → Store × Lookup
begin_retry s e id caller track previous now =
    let erased = erase s.seq e in
    if previous == e.generation
    then issue (put_entry s id.key erased) erased.1 id caller track retry now
    else issue s e id caller track retry now

-- `Begin` from `if retry` on.
unfoldable pub begin_current :
    Store → Entry → Identity → Bytes → Bool → Option ℕ → Reason → ℤ → Store × Lookup
begin_current s e id caller track previous reason now =
    if is_some previous && track
    then begin_retry s e id caller track (Option.get_or previous 0) now
    else if not (is_empty e.secret)
    then serve s e id caller track
    else issue s e id caller track reason now

-- `Begin` once the entry is found or made: a changed file forgets its secret.
unfoldable pub begin_entry : Store → Entry → Identity → Bytes → Bool → Option ℕ → ℤ → Store × Lookup
begin_entry s e id caller track previous now =
    let erased = erase s.seq e in
    let changed : Entry = record erased.1 { identity = id } in
    if decide (Identity-discrete e.identity id)
    then begin_current s e id caller track previous miss now
    else begin_current (put_entry s id.key (erased.0, changed)) changed id caller track previous
        file_changed now

-- `&entry{identity: id, generation: s.next()}`
abbrev pub made_entry : ℕ → Identity → Entry
made_entry generation id = record {
  identity = id;
  generation = generation;
  secret = [];
  expires = pos 0;
}

-- `Begin` past its first checks.
unfoldable pub begin_live : Store → Identity → Bytes → Bool → Option ℕ → ℤ → Store × Lookup
begin_live s id caller track previous now = elim (lookup Key-discrete id.key s.entries) [
  | some e ↦ begin_entry s e id caller track previous now
  | none ↦
      let made = made_entry (next s.seq) id in
      if leb max_keys (length s.entries)
      then (s, refused capacity)
      else begin_entry (put_entry s id.key (next s.seq, made)) made id caller track previous now
]

-- No room for another caller or another ticket.
abbrev pub is_full : Store → Bool → Bool → Bool
is_full s track again =
    track && not again && leb max_callers (length s.seen) || leb max_tickets (length s.tickets)

-- The first checks of `Begin`, after `expire`.
unfoldable pub begin_checked : Store → Identity → Bytes → ℤ → Store × Lookup
begin_checked s id caller now =
    let sk : SeenKey = record { caller = caller; key = id.key } in
    let previous = lookup SeenKey-discrete sk s.seen in
    let track = not (agent_pin id.key) in
    if leb_ℤ s.ttl (pos 0)
    then (s, refused disabled)
    else if is_full s track (is_some previous && track)
    then (s, refused capacity)
    else begin_live s id caller track previous now

-- `Begin`
unfoldable pub begin : Store → Identity → Bytes → ℤ → ℤ → Store × Lookup
begin s id caller now later = begin_checked (expire s now) id caller later

-- Does the entry stand for this identity and generation?
abbrev pub matches : Entry → Identity → ℕ → Bool
matches e id generation = decide (Identity-discrete e.identity id) && e.generation == generation

-- `Current`
unfoldable pub current : Store → Identity → ℕ → ℤ → Store × Bool
current s id generation now =
    let s' = expire s now in
    (
      s',
      elim (lookup Key-discrete id.key s'.entries) [
        | none ↦ false
        | some e ↦ matches e id generation && not (is_empty e.secret)
      ],
    )

-- `Reject`
unfoldable pub reject : Store → Identity → ℕ → Store
reject s id generation = elim (lookup Key-discrete id.key s.entries) [
  | none ↦ s
  | some e ↦ if matches e id generation then put_entry s id.key (erase s.seq e) else s
]

-- The long condition of `Commit`: is the lease still good for this entry and secret?
unfoldable pub is_acceptable : Ticket → Entry → Identity → Bytes → Bool
is_acceptable t e id secret =
    decide (Identity-discrete t.identity id)
    && decide (Identity-discrete e.identity id)
    && t.generation == e.generation
    && not (is_empty secret)
    && validate secret

-- `Commit` of an acceptable secret.
unfoldable pub store_secret : Store → Entry → Identity → Bytes → Bytes → ℤ → Store
store_secret s e id caller secret now =
    let erased = erase s.seq e in
    let filled : Entry = record erased.1 { secret = secret; expires = add64 now s.ttl } in
    let sk : SeenKey = record { caller = caller; key = id.key } in
    let s' = put_entry s id.key (erased.0, filled) in
    record s' {
      seen =
          if agent_pin id.key
          then s'.seen
          else insert SeenKey-discrete sk filled.generation s'.seen;
    }

-- `Commit` from the use of the ticket on.
unfoldable pub commit_ticket : Store → Ticket → ℕ → Identity → Bytes → Bytes → ℤ → Store × Bool
commit_ticket s t token id caller secret now =
    let s' = record s { tickets = delete ℕ_discrete token s.tickets } in
    elim (lookup Key-discrete id.key s'.entries) [
      | none ↦ (s', false)
      | some e ↦
          if is_acceptable t e id secret
          then (store_secret s' e id caller secret now, true)
          else (s', false)
    ]

unfoldable pub commit_checked : Store → ℕ → Identity → Bytes → Bytes → ℤ → Store × Bool
commit_checked s token id caller secret now = elim (lookup ℕ_discrete token s.tickets) [
  | none ↦ (s, false)
  | some t ↦
      if decide (Bytes-discrete t.caller caller)
      then commit_ticket s t token id caller secret now
      else (s, false)
]

-- `Commit`
unfoldable pub commit : Store → ℕ → Identity → Bytes → Bytes → ℤ → ℤ → Store × Bool
commit s token id caller secret now later =
    commit_checked (expire s now) token id caller secret later

-- Is this key meant? No key means every key.
abbrev pub is_meant : Option Key → Key → Bool
is_meant none k = true
is_meant (some key) k = decide (Key-discrete key k)

-- The loop of `Forget` over the entries: each that is meant is erased, and deleted.
unfoldable pub forget_entries : Option Key → ℕ → List (Key × Entry) → ℕ × List (Key × Entry)
forget_entries key seq [] = (seq, [])
forget_entries key seq ((k, e) ∷ m) =
    let gone = forget_entries key (erase seq e).0 m in
    let (seq', m') = forget_entries key seq m in
    if is_meant key k then gone else (seq', (k, e) ∷ m')

unfoldable pub is_kept : Option Key → ℕ → Ticket → Bool
is_kept key token t = not (is_meant key t.identity.key)

-- `Forget`
unfoldable pub forget : Store → Option Key → Store
forget s key =
    let (seq', entries') = forget_entries key s.seq s.entries in
    record s { seq = seq'; entries = entries'; tickets = retain (is_kept key) s.tickets }

unfoldable pub is_pending : Key → List (ℕ × Ticket) → Bool
is_pending k [] = false
is_pending k ((token, t) ∷ m) = decide (Key-discrete t.identity.key k) || is_pending k m

abbrev caller_alive : (Bytes → Bool) → SeenKey → ℕ → Bool
caller_alive alive sk generation = alive sk.caller

abbrev ticket_alive : (Bytes → Bool) → ℕ → Ticket → Bool
ticket_alive alive token t = alive t.caller

abbrev is_in_use : List (ℕ × Ticket) → Key → Entry → Bool
is_in_use tickets k e = not (is_empty e.secret) || is_pending k tickets

-- `Sweep`. The process table is read anew for the tickets, after the callers.
unfoldable pub sweep : Store → (Bytes → Bool) → (Bytes → Bool) → ℤ → Store
sweep s alive still_alive now =
    let s' = expire s now in
    let tickets' = retain (ticket_alive still_alive) s'.tickets in
    record s' {
      seen = retain (caller_alive alive) s'.seen;
      tickets = tickets';
      entries = retain (is_in_use tickets') s'.entries;
    }
