-- ===== src/Cache/Store/Denied.antt =====
-- internal/cache/store.go: a generation that was rejected stays denied.
use gtkaskpass_yubikey.Base.{
  ℕ, ◌≡◌, ◌≢◌, ◌∙◌, ap, sym, false, some, List, [], ◌∷◌, All, arith, refl, inl, inr, Option-cases,
}
use gtkaskpass_yubikey.Base.Int.{ℤ}
use gtkaskpass_yubikey.Base.Maps.{lookup, Distinct, All-lookup}
use gtkaskpass_yubikey.Cache.Identity.{Key, Identity, Key-discrete}
use gtkaskpass_yubikey.Cache.Store.{Entry, Store, reject, current, begin, commit, expire}
use gtkaskpass_yubikey.Cache.Store.Run.{
  Call, begins, checks, rejects, commits, forgets, sweeps, step,
}
use gtkaskpass_yubikey.Cache.Store.Bounded.{IsBounded}
use gtkaskpass_yubikey.Cache.Store.Bounded.Methods.{reject-IsBounded}
use gtkaskpass_yubikey.Cache.Store.Entries.{
  Each, expire-Each, begin_checked-Each, commit_checked-Each, reject-Each, forget-Each, sweep-Each,
}
use gtkaskpass_yubikey.Cache.Store.Forgetting.{usable, current-usable, usable-expire, usable-reject}

-- A store after more calls, the latest first.
unfoldable pub later : Store → List Call → Store
unfolding step
later s [] = s
later s (c ∷ calls) = step (later s calls) c

-- None of the calls offers a secret for this identity.
abbrev pub Uncommitted : Identity → List Call → Type 0
Uncommitted id [] = Unit
Uncommitted id (commits token other caller value now later ∷ calls) =
    (other ≢ id) × Uncommitted id calls
Uncommitted id (c ∷ calls) = Uncommitted id calls

module _ (id : Identity) (n : ℕ) where
  -- `Current` denies the generation for this entry.
  abbrev IsDenied : Entry → Type 0
  IsDenied e = usable (some e) id n ≡ false

  blank-IsDenied : (e : Entry) → e.secret ≡ [] → IsDenied e
  blank-IsDenied e h = ground (arith, h)

  other-IsDenied : (e : Entry) (other : Identity) → e.identity ≡ other → other ≢ id → IsDenied e
  other-IsDenied e other same h = ground (arith, same, h)

  -- An entry for another key.
  apart-IsDenied : (e : Entry) (k : Key) → e.identity.key ≡ k → k ≢ id.key → IsDenied e
  apart-IsDenied e k same h =
      other-IsDenied e e.identity (ground arith) λ p. h (sym same ∙ ap (λ (i : Identity). i.key) p)

  found-Each :
      (m : List (Key × Entry))
      → Distinct Key-discrete m
      → All (λ p. p.1.identity.key ≡ p.0) m
      → ((e : Entry) → lookup Key-discrete id.key m ≡ some e → IsDenied e)
      → All (λ p. IsDenied p.1) m
  unfolding lookup
  found-Each [] d h f = tt
  found-Each ((k, e) ∷ m) d h f = elim (Key-discrete k id.key) [
    | yes same ↦ (
      f e (ground (arith, same)),
      found-Each m d.1 h.1 (λ x p. absurd (ground (arith, same, d.0, p))),
    )
    | no apart ↦
        (apart-IsDenied e k h.0 apart, found-Each m d.1 h.1 (λ x p. f x (ground (arith, apart, p))))
  ]

  reject-IsDenied : (s : Store) → IsBounded s → Each IsDenied blank-IsDenied (reject s id n)
  reject-IsDenied s v =
      let w = reject-IsBounded s id n v in
      found-Each (reject s id n).entries w.entries_distinct w.keyed
        λ e p. ap (λ o. usable o id n) (sym p) ∙ usable-reject s id n

  later-IsDenied :
      (s : Store) (calls : List Call)
      → Uncommitted id calls
      → Each IsDenied blank-IsDenied s
      → Each IsDenied blank-IsDenied (later s calls)
  unfolding later begin current commit
  later-IsDenied s [] u h = h
  later-IsDenied s (begins i caller now now' ∷ calls) u h =
      begin_checked-Each IsDenied blank-IsDenied (expire (later s calls) now) i caller now'
        (expire-Each IsDenied blank-IsDenied (later s calls) now (later-IsDenied s calls u h))
  later-IsDenied s (checks i generation now ∷ calls) u h =
      expire-Each IsDenied blank-IsDenied (later s calls) now (later-IsDenied s calls u h)
  later-IsDenied s (rejects i generation ∷ calls) u h =
      reject-Each IsDenied blank-IsDenied (later s calls) i generation (later-IsDenied s calls u h)
  later-IsDenied s (commits token i caller value now now' ∷ calls) u h =
      commit_checked-Each IsDenied blank-IsDenied (expire (later s calls) now) token i caller value
        now' (λ e p q. other-IsDenied e i p u.0)
        (expire-Each IsDenied blank-IsDenied (later s calls) now (later-IsDenied s calls u.1 h))
  later-IsDenied s (forgets key ∷ calls) u h =
      forget-Each IsDenied blank-IsDenied (later s calls) key (later-IsDenied s calls u h)
  later-IsDenied s (sweeps alive still_alive now ∷ calls) u h =
      sweep-Each IsDenied blank-IsDenied (later s calls) alive still_alive now
        (later-IsDenied s calls u h)

  denied-usable :
      (s : Store)
      → Each IsDenied blank-IsDenied s
      → usable (lookup Key-discrete id.key s.entries) id n ≡ false
  denied-usable s h = elim (Option-cases (lookup Key-discrete id.key s.entries)) [
    | inl e ↦ rw e refl
    | inr (x, e) ↦ rw e (All-lookup Key-discrete (λ p. IsDenied p.1) id.key x s.entries h e)
  ]

-- Once a generation of an identity is rejected, in a store within its limits, Current denies that
-- generation after any further calls among which no Commit offers a secret for this identity.
pub current-later :
    (s : Store) (id : Identity) (generation : ℕ) (calls : List Call) (now : ℤ)
    → IsBounded s
    → Uncommitted id calls
    → (current (later (reject s id generation) calls) id generation now).1 ≡ false
current-later s id generation calls now v u =
    let s' = later (reject s id generation) calls in
    current-usable s' id generation now
    ∙ usable-expire s' id generation now (
        denied-usable id generation s' (
          later-IsDenied id generation (reject s id generation) calls u
            (reject-IsDenied id generation s v)))
