-- ===== src/Cache/Store/Bounded.antt =====
-- The limits on the store, and the shape of its maps.
pub mod Begin
pub mod Methods
use gtkaskpass_yubikey.Base.{
  ℕ, ◌≡◌, ◌≤◌, ◌<◌, Bool, true, false, ◌||◌, Option, none, some, List, ◌∷◌, Bytes, ℕ_discrete,
  length, is_some, All, arith,
}
use gtkaskpass_yubikey.Base.Maps.{lookup, insert, delete, retain, Distinct, All-map, lookup-insert}
use gtkaskpass_yubikey.Cache.Identity.{Key, Identity, Key-discrete, agent_pin}
use gtkaskpass_yubikey.Cache.Store.{
  Entry, Ticket, SeenKey, SeenKey-discrete, Store, max_keys, max_callers, max_tickets,
}

abbrev pub seen_key : Bytes → Key → SeenKey
seen_key caller key = record { caller = caller; key = key }

-- The caller of a ticket is tracked, unless the ticket is for a PIN of the agent.
abbrev pub IsTracked : List (SeenKey × ℕ) → ℕ × Ticket → Type 0
IsTracked seen (token, t) =
    (agent_pin t.identity.key
      || is_some (lookup SeenKey-discrete (seen_key t.caller t.identity.key) seen))
    ≡ true

-- The store is within its limits, no key stands twice in a map, an entry stands under the key of its
-- identity, and every outstanding ticket has its retry tracking.
pub record IsBounded (s : Store) : Type 0 where
  pub entries_cap : length s.entries ≤ max_keys
  pub tickets_cap : length s.tickets ≤ max_tickets
  pub seen_cap : length s.seen ≤ max_callers
  pub entries_distinct : Distinct Key-discrete s.entries
  pub tickets_distinct : Distinct ℕ_discrete s.tickets
  pub seen_distinct : Distinct SeenKey-discrete s.seen
  pub keyed : All (λ p. p.1.identity.key ≡ p.0) s.entries
  pub tracked : All (IsTracked s.seen) s.tickets

pub IsTracked-insert :
    (k : SeenKey) (n : ℕ) (seen : List (SeenKey × ℕ)) (m : List (ℕ × Ticket))
    → All (IsTracked seen) m
    → All (IsTracked (insert SeenKey-discrete k n seen)) m
IsTracked-insert k n seen m h =
    All-map (IsTracked seen) (IsTracked (insert SeenKey-discrete k n seen)) m
      (λ token t.
        ground (arith, lookup-insert SeenKey-discrete k (seen_key t.caller t.identity.key) n seen))
      h
