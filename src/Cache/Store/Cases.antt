-- ===== src/Cache/Store/Cases.antt =====
-- Case rules for `Commit`: what holds of each way out holds of the result.
use gtkaskpass_yubikey.Base.{
  ℕ, ◌≡◌, Bool, true, false, some, Bytes, Option-cases, Bool-cases, ℕ_discrete, Bytes-discrete, inl,
  inr, arith, decide,
}
use gtkaskpass_yubikey.Base.Int.{ℤ}
use gtkaskpass_yubikey.Base.Maps.{lookup, delete}
use gtkaskpass_yubikey.Cache.Identity.{Identity, Key-discrete}
use gtkaskpass_yubikey.Cache.Store.{
  Entry, Ticket, Store, commit_checked, commit_ticket, is_acceptable, store_secret,
}

pub commit_checked_cases {ℓ} :
    (P : Store × Bool → Type ℓ) (s : Store) (token : ℕ) (id : Identity) (caller value : Bytes)
    (now : ℤ)
    → P (s, false)
    → ((t : Ticket)
        → lookup ℕ_discrete token s.tickets ≡ some t
        → t.caller ≡ caller
        → P (commit_ticket s t token id caller value now))
    → P (commit_checked s token id caller value now)
unfolding commit_checked
commit_checked_cases P s token id caller value now out used =
    elim (Option-cases (lookup ℕ_discrete token s.tickets)) [
      | inl e ↦ rw (e, commit_checked) out
      | inr (t, e) ↦ elim (Bool-cases (decide (Bytes-discrete t.caller caller))) [
        | inl same ↦ rw (e, commit_checked, same) (used t e (ground arith))
        | inr other ↦ rw (e, commit_checked, other) out
      ]
    ]

-- The store with the ticket used up.
abbrev pub used_up : Store → ℕ → Store
used_up s token = record s { tickets = delete ℕ_discrete token s.tickets }

pub commit_ticket_cases {ℓ} :
    (P : Store × Bool → Type ℓ) (s : Store) (t : Ticket) (token : ℕ) (id : Identity)
    (caller value : Bytes) (now : ℤ)
    → P (used_up s token, false)
    → ((e : Entry)
        → lookup Key-discrete id.key s.entries ≡ some e
        → is_acceptable t e id value ≡ true
        → P (store_secret (used_up s token) e id caller value now, true))
    → P (commit_ticket s t token id caller value now)
unfolding commit_ticket
commit_ticket_cases P s t token id caller value now out stored =
    elim (Option-cases (lookup Key-discrete id.key s.entries)) [
      | inl e ↦ rw (e, commit_ticket) out
      | inr (x, e) ↦ elim (Bool-cases (is_acceptable t x id value)) [
        | inl good ↦ rw (e, commit_ticket, good) (stored x e good)
        | inr bad ↦ rw (e, commit_ticket, bad) out
      ]
    ]
