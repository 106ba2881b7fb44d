-- ===== src/Cache/Store/Entries.antt =====
-- A property of entries that every entry without a secret has is kept by each method, as far as the
-- secrets that `Commit` adds have it.
use gtkaskpass_yubikey.Base.{
  ℕ, ◌≡◌, refl, not, ◌&&◌, Bool, Option, List, [], ◌∷◌, Bytes, All, Bool-cases, if_cases,
  Option-cases, is_empty, inl, inr, is_some, ◌==◌, decide, leb, length, arith,
}
use mathlib.Core.Option
use gtkaskpass_yubikey.Base.Int.{ℤ, pos, leb_ℤ}
use gtkaskpass_yubikey.Base.Maps.{lookup, All-insert, All-retain}
use gtkaskpass_yubikey.Cache.Identity.{Key, Identity, Key-discrete, Identity-discrete, agent_pin}
use gtkaskpass_yubikey.Cache.Store.{
  Entry, Store, Lookup, Reason, SeenKey-discrete, miss, file_changed, disabled, capacity, refused,
  is_full, erase, expire, expire_entries, begin_checked, begin_live, begin_entry, begin_current,
  begin_retry, issue, serve, put_entry, next, commit_checked, store_secret, is_acceptable, reject,
  matches, forget, forget_entries, is_meant, sweep, is_in_use, ticket_alive,
}
use gtkaskpass_yubikey.Base.Maps.{retain}
use gtkaskpass_yubikey.Cache.Store.Cases.{commit_checked_cases, commit_ticket_cases}
use gtkaskpass_yubikey.Cache.Store.Expiry.{is_over}

module _ {ℓ} (P : Entry → Type ℓ) (blank : (e : Entry) → e.secret ≡ [] → P e) where
  abbrev pub Each : Store → Type ℓ
  Each s = All (λ p. P p.1) s.entries

  expire_entries-All :
      (now : ℤ) (seq : ℕ) (m : List (Key × Entry))
      → All (λ p. P p.1) m
      → All (λ p. P p.1) (expire_entries now seq m).1
  unfolding expire_entries erase
  expire_entries-All now seq [] h = tt
  expire_entries-All now seq ((k, e) ∷ m) h = elim (Bool-cases (is_over now e)) [
    | inl over ↦ rw over (blank _ refl, expire_entries-All now (next seq) m h.1)
    | inr fresh ↦ rw fresh (h.0, expire_entries-All now seq m h.1)
  ]

  pub expire-Each : (s : Store) (now : ℤ) → Each s → Each (expire s now)
  unfolding expire
  expire-Each s now h = expire_entries-All now s.seq s.entries h

  put-Each :
      (s : Store) (k : Key) (seq : ℕ) (e : Entry) → P e → Each s → Each (put_entry s k (seq, e))
  put-Each s k seq e p h = All-insert Key-discrete (λ p. P p.1) k e s.entries p h

  -- The store of an answer.
  record IsKept (r : Store × Lookup) : Type ℓ where
    kept : Each r.0

  issue-Each :
      (s : Store) (e : Entry) (id : Identity) (caller : Bytes) (track : Bool) (why : Reason)
      (now : ℤ)
      → Each s
      → IsKept (issue s e id caller track why now)
  unfolding issue
  issue-Each s e id caller track why now h = record { kept = h }

  begin_current-Each :
      (s : Store) (e : Entry) (id : Identity) (caller : Bytes) (track : Bool) (previous : Option ℕ)
      (why : Reason) (now : ℤ)
      → Each s
      → IsKept (begin_current s e id caller track previous why now)
  unfolding begin_current begin_retry erase serve
  begin_current-Each s e id caller track previous why now h =
      if_cases IsKept (is_some previous && track)
        (λ _.
          if_cases IsKept (Option.get_or previous 0 == e.generation)
            (λ _.
              issue-Each _ _ id caller track _ now
                (put-Each s id.key (next s.seq) _ (blank _ refl) h))
            (λ _. issue-Each s e id caller track _ now h))
        (λ _.
          if_cases IsKept (not (is_empty e.secret)) (λ _. record { kept = h })
            (λ _. issue-Each s e id caller track why now h))

  begin_entry-Each :
      (s : Store) (e : Entry) (id : Identity) (caller : Bytes) (track : Bool) (previous : Option ℕ)
      (now : ℤ)
      → Each s
      → IsKept (begin_entry s e id caller track previous now)
  unfolding begin_entry erase
  begin_entry-Each s e id caller track previous now h =
      if_cases IsKept (decide (Identity-discrete e.identity id))
        (λ _. begin_current-Each s e id caller track previous miss now h)
        (λ _.
          begin_current-Each _ _ id caller track previous file_changed now
            (put-Each s id.key (next s.seq) _ (blank _ refl) h))

  begin_live-Each :
      (s : Store) (id : Identity) (caller : Bytes) (track : Bool) (previous : Option ℕ) (now : ℤ)
      → Each s
      → IsKept (begin_live s id caller track previous now)
  unfolding begin_live
  begin_live-Each s id caller track previous now h =
      elim (Option-cases (lookup Key-discrete id.key s.entries)) [
        | inr (e, found) ↦
            rw (found, begin_live) (begin_entry-Each s e id caller track previous now h)
        | inl missing ↦
            rw (missing, begin_live)
              (if_cases IsKept (leb 256 (length s.entries)) (λ _. record { kept = h })
                λ _.
                  begin_entry-Each _ _ id caller track previous now
                    (put-Each s id.key (next s.seq) _ (blank _ refl) h))
      ]

  begin_checked-IsKept :
      (s : Store) (id : Identity) (caller : Bytes) (now : ℤ)
      → Each s
      → IsKept (begin_checked s id caller now)
  unfolding begin_checked
  begin_checked-IsKept s id caller now h =
      let previous = lookup SeenKey-discrete (record { caller = caller; key = id.key }) s.seen in
      if_cases IsKept (leb_ℤ s.ttl (pos 0)) {x = (s, refused disabled)} (λ _. record { kept = h })
        λ _.
          if_cases IsKept
            (is_full s (not (agent_pin id.key)) (is_some previous && not (agent_pin id.key)))
            {x = (s, refused capacity)} (λ _. record { kept = h })
            λ _. begin_live-Each s id caller (not (agent_pin id.key)) previous now h

  pub begin_checked-Each :
      (s : Store) (id : Identity) (caller : Bytes) (now : ℤ)
      → Each s
      → Each (begin_checked s id caller now).0
  begin_checked-Each s id caller now h = (begin_checked-IsKept s id caller now h).kept

  pub reject-Each :
      (s : Store) (id : Identity) (generation : ℕ) → Each s → Each (reject s id generation)
  unfolding reject erase
  reject-Each s id generation h = elim (Option-cases (lookup Key-discrete id.key s.entries)) [
    | inl e ↦ rw (e, reject) h
    | inr (x, e) ↦
        rw (e, reject)
          (if_cases Each (matches x id generation)
            (λ _. put-Each s id.key (next s.seq) _ (blank _ refl) h) (λ _. h))
  ]

  forget_entries-All :
      (key : Option Key) (seq : ℕ) (m : List (Key × Entry))
      → All (λ p. P p.1) m
      → All (λ p. P p.1) (forget_entries key seq m).1
  unfolding forget_entries
  forget_entries-All key seq [] h = tt
  forget_entries-All key seq ((k, e) ∷ m) h = elim (Bool-cases (is_meant key k)) [
    | inl gone ↦ rw gone (forget_entries-All key (erase seq e).0 m h.1)
    | inr kept ↦ rw kept (h.0, forget_entries-All key seq m h.1)
  ]

  pub forget-Each : (s : Store) (key : Option Key) → Each s → Each (forget s key)
  unfolding forget
  forget-Each s key h = forget_entries-All key s.seq s.entries h

  pub sweep-Each :
      (s : Store) (alive still_alive : Bytes → Bool) (now : ℤ)
      → Each s
      → Each (sweep s alive still_alive now)
  unfolding sweep
  sweep-Each s alive still_alive now h =
      All-retain (λ p. P p.1) (is_in_use (retain (ticket_alive still_alive) (expire s now).tickets))
        (expire s now).entries (expire-Each s now h)

  pub commit_checked-Each :
      (s : Store) (token : ℕ) (id : Identity) (caller value : Bytes) (now : ℤ)
      → ((e : Entry) → e.identity ≡ id → e.secret ≡ value → P e)
      → Each s
      → Each (commit_checked s token id caller value now).0
  unfolding is_acceptable store_secret erase
  commit_checked-Each s token id caller value now added h =
      commit_checked_cases (λ r. Each r.0) s token id caller value now h
        λ t _ _.
          commit_ticket_cases (λ r. Each r.0) s t token id caller value now h
            λ e _ good. put-Each s id.key (next s.seq) _ (added _ (ground arith) refl) h
