-- ===== src/Cache/Store/Sweeping.antt =====
-- What `Sweep` leaves in the store.
use gtkaskpass_yubikey.Base.{
  ℕ, ◌≡◌, refl, Bool, true, false, some, List, [], ◌∷◌, Bytes, All, is_empty, if◌then◌else◌,
  if_cases, arith,
}
use gtkaskpass_yubikey.Base.Int.{ℤ}
use gtkaskpass_yubikey.Base.Maps.{lookup, retain, lookup-retain, retain-All, All-retain}
use gtkaskpass_yubikey.Cache.Identity.{Key, Key-discrete}
use gtkaskpass_yubikey.Cache.Store.{
  Entry, Store, erase, expire_entries, expire, sweep, caller_alive, ticket_alive, is_in_use,
}
use gtkaskpass_yubikey.Cache.Store.Expiry.{is_over, lookup-expire}
use gtkaskpass_yubikey.Cache.Store.Bounded.{IsBounded}
use gtkaskpass_yubikey.Cache.Store.Bounded.Methods.{expire-IsBounded}

-- The store after a sweep at a time, with what the process table said.
pub record IsSwept (s swept : Store) (alive still_alive : Bytes → Bool) (now : ℤ) : Type 0 where
  pub callers : All (λ p. alive p.0.caller ≡ true) swept.seen
  pub leases : All (λ p. still_alive p.1.caller ≡ true) swept.tickets
  pub used : All (λ p. is_in_use swept.tickets p.0 p.1 ≡ true) swept.entries
  pub fresh : All (λ p. is_over now p.1 ≡ false) swept.entries
  pub kept :
      (k : Key) (e : Entry)
      → lookup Key-discrete k s.entries ≡ some e
      → is_empty e.secret ≡ false
      → is_over now e ≡ false
      → lookup Key-discrete k swept.entries ≡ some e

fresh_head :
    (now : ℤ) (seq : ℕ) (e : Entry)
    → is_over now (if is_over now e then erase seq e else (seq, e)).1 ≡ false
unfolding erase
fresh_head now seq e =
    if_cases (λ (p : ℕ × Entry). is_over now p.1 ≡ false) (is_over now e) (λ _. refl) (λ h. h)

expire_entries-fresh :
    (now : ℤ) (seq : ℕ) (m : List (Key × Entry))
    → All (λ p. is_over now p.1 ≡ false) (expire_entries now seq m).1
unfolding expire_entries
expire_entries-fresh now seq [] = tt
expire_entries-fresh now seq ((k, e) ∷ m) = (
  fresh_head now seq e,
  expire_entries-fresh now (if is_over now e then erase seq e else (seq, e)).0 m,
)

expire-fresh : (s : Store) (now : ℤ) → All (λ p. is_over now p.1 ≡ false) (expire s now).entries
unfolding expire
expire-fresh s now = expire_entries-fresh now s.seq s.entries

expire-keeps :
    (s : Store) (now : ℤ) (k : Key) (e : Entry)
    → lookup Key-discrete k s.entries ≡ some e
    → is_over now e ≡ false
    → lookup Key-discrete k (expire s now).entries ≡ some e
expire-keeps s now k e there fresh = ground (arith, lookup-expire s now k, there, fresh)

-- In a store within its limits, after a sweep every tracked caller and every ticket's caller is
-- alive, each entry holds a secret or has a ticket, and no secret is held past its time; every secret whose time is not up stays
-- under its key.
pub sweep-IsSwept :
    (s : Store) (alive still_alive : Bytes → Bool) (now : ℤ)
    → IsBounded s
    → IsSwept s (sweep s alive still_alive now) alive still_alive now
unfolding sweep
sweep-IsSwept s alive still_alive now v =
    let s' = expire s now in
    let tickets' = retain (ticket_alive still_alive) s'.tickets in
    record {
      callers = retain-All (caller_alive alive) s'.seen;
      leases = retain-All (ticket_alive still_alive) s'.tickets;
      used = retain-All (is_in_use tickets') s'.entries;
      fresh =
          All-retain (λ p. is_over now p.1 ≡ false) (is_in_use tickets') s'.entries
            (expire-fresh s now);
      kept = λ k e there full fresh. ground (
        arith,
        lookup-retain Key-discrete (is_in_use tickets') k s'.entries
            (expire-IsBounded s now v).entries_distinct,
        expire-keeps s now k e there fresh,
        full,
      );
    }
