-- ===== src/Cache/Store/Leases.antt =====
-- What a ticket of `Begin` is good for.
use gtkaskpass_yubikey.Base.{
  ℕ, ◌≡◌, ◌≢◌, ◌↔◌, true, false, none, some, arith, is_empty, inl, inr, ◌⊎◌, Bytes, Option-cases,
  ℕ_discrete, Bool-cases, Bytes-discrete,
}
use gtkaskpass_yubikey.Base.Int.{ℤ}
use gtkaskpass_yubikey.Base.Maps.{
  lookup, delete, Distinct, lookup-delete, lookup-retain, retain-Distinct, lookup-retain-none,
  delete-Distinct,
}
use gtkaskpass_yubikey.Askpass.{validate}
use gtkaskpass_yubikey.Cache.Identity.{Identity, Key-discrete}
use gtkaskpass_yubikey.Cache.Store.{
  Entry, Ticket, Store, commit, commit_checked, commit_ticket, is_acceptable, store_secret, expire,
  is_fresh,
}
use gtkaskpass_yubikey.Cache.Store.Cases.{commit_checked_cases}
use gtkaskpass_yubikey.Cache.Store.Committing.{commit_checked_found}

-- What `Commit` asks of a ticket and the entry of its key.
pub record Accepts (s : Store) (t : Ticket) (e : Entry) (token : ℕ) (id : Identity)
    (caller value : Bytes) : Type 0 where
  pub ticket : lookup ℕ_discrete token s.tickets ≡ some t
  pub owner : t.caller ≡ caller
  pub entry : lookup Key-discrete id.key s.entries ≡ some e
  pub leased : t.identity ≡ id
  pub unchanged : e.identity ≡ id
  pub current : t.generation ≡ e.generation
  pub present : is_empty value ≡ false
  pub valid : validate value ≡ true

commit_checked_sound :
    (s : Store) (token : ℕ) (id : Identity) (caller value : Bytes) (now : ℤ)
    → (commit_checked s token id caller value now).1 ≡ true
    → (t : Ticket) × (e : Entry) × Accepts s t e token id caller value
unfolding commit_checked commit_ticket is_acceptable
commit_checked_sound s token id caller value now h =
    elim (Option-cases (lookup ℕ_discrete token s.tickets)) [
      | inl e ↦ absurd (ground arith)
      | inr (t, found) ↦ elim (Option-cases (lookup Key-discrete id.key s.entries)) [
        | inl e ↦ absurd (ground arith)
        | inr (e, there) ↦ (t, e, ground arith)
      ]
    ]

commit_checked_complete :
    (s : Store) (t : Ticket) (e : Entry) (token : ℕ) (id : Identity) (caller value : Bytes)
    (now : ℤ)
    → Accepts s t e token id caller value
    → (commit_checked s token id caller value now).1 ≡ true
unfolding commit_checked commit_ticket is_acceptable
commit_checked_complete s t e token id caller value now a = ground arith

-- `Commit` accepts exactly a live ticket of this caller and identity whose generation is still that
-- of the entry, with a secret that is present and well formed.
pub commit_iff :
    (s : Store) (token : ℕ) (id : Identity) (caller value : Bytes) (now later : ℤ)
    → ((commit s token id caller value now later).1 ≡ true)
      ↔ ((t : Ticket) × (e : Entry) × Accepts (expire s now) t e token id caller value)
unfolding commit
commit_iff s token id caller value now later = (
  commit_checked_sound (expire s now) token id caller value later,
  λ (t, e, a). commit_checked_complete (expire s now) t e token id caller value later a,
)

-- The ticket is unknown, or another caller's.
abbrev Spent : Store → ℕ → Bytes → Type 0
Spent s token caller =
    (lookup ℕ_discrete token s.tickets ≡ none)
    ⊎ ((t : Ticket) × (lookup ℕ_discrete token s.tickets ≡ some t) × (t.caller ≢ caller))

commit_ticket_tickets :
    (s : Store) (t : Ticket) (token : ℕ) (id : Identity) (caller value : Bytes) (now : ℤ)
    → (commit_ticket s t token id caller value now).0.tickets ≡ delete ℕ_discrete token s.tickets
unfolding commit_ticket store_secret
commit_ticket_tickets s t token id caller value now = ground arith

commit_checked-Spent :
    (s : Store) (token : ℕ) (id : Identity) (caller value : Bytes) (now : ℤ)
    → Spent (commit_checked s token id caller value now).0 token caller
unfolding commit_checked
commit_checked-Spent s token id caller value now =
    elim (Option-cases (lookup ℕ_discrete token s.tickets)) [
      | inl e ↦ rw (e, commit_checked) (inl e)
      | inr (t, e) ↦ elim (Bytes-discrete t.caller caller) [
        | yes p ↦ rw (commit_checked_found s t token id caller value now e p) (
            inl (
              ground (
                arith,
                commit_ticket_tickets s t token id caller value now,
                lookup-delete ℕ_discrete token token s.tickets,
              )))
        | no p ↦ inr (t, ground arith, p)
      ]
    ]

expire-Spent :
    (s : Store) (token : ℕ) (caller : Bytes) (now : ℤ)
    → Distinct ℕ_discrete s.tickets
    → Spent s token caller
    → Spent (expire s now) token caller
unfolding expire
expire-Spent s token caller now d (inl e) =
    inl (lookup-retain-none ℕ_discrete (is_fresh now) token s.tickets e)
expire-Spent s token caller now d (inr (t, e, other)) = elim (Bool-cases (is_fresh now token t)) [
  | inl fresh ↦
      inr (t, ground (arith, lookup-retain ℕ_discrete (is_fresh now) token s.tickets), other)
  | inr over ↦ inl (ground (arith, lookup-retain ℕ_discrete (is_fresh now) token s.tickets))
]

Spent-refused :
    (s : Store) (token : ℕ) (id : Identity) (caller value : Bytes) (now : ℤ)
    → Spent s token caller
    → (commit_checked s token id caller value now).1 ≡ false
unfolding commit_checked
Spent-refused s token id caller value now (inl e) = ground arith
Spent-refused s token id caller value now (inr (t, e, other)) = ground arith

commit_checked-Distinct :
    (s : Store) (token : ℕ) (id : Identity) (caller value : Bytes) (now : ℤ)
    → Distinct ℕ_discrete s.tickets
    → Distinct ℕ_discrete (commit_checked s token id caller value now).0.tickets
commit_checked-Distinct s token id caller value now d =
    commit_checked_cases (λ r. Distinct ℕ_discrete r.0.tickets) s token id caller value now d
      λ t _ _.
        rw (commit_ticket_tickets s t token id caller value now)
          (delete-Distinct ℕ_discrete token s.tickets d)

-- A ticket is good for one `Commit` of its caller, whether or not that one succeeded, and whatever
-- the second one offers.
pub commit_once :
    (s : Store) (token : ℕ) (id id' : Identity) (caller value value' : Bytes)
    (now later now' later' : ℤ)
    → Distinct ℕ_discrete s.tickets
    → (commit (commit s token id caller value now later).0 token id' caller value' now' later').1
      ≡ false
unfolding commit
commit_once s token id id' caller value value' now later now' later' d =
    let s' = (commit_checked (expire s now) token id caller value later).0 in
    Spent-refused (expire s' now') token id' caller value' later' (
      expire-Spent s' token caller now'
        (commit_checked-Distinct (expire s now) token id caller value later
          (unfold expire in retain-Distinct ℕ_discrete (is_fresh now) s.tickets d))
        (commit_checked-Spent (expire s now) token id caller value later))
