-- ===== src/Cache/Store/Forgetting.antt =====
-- What `Forget` and `Reject` take away.
use gtkaskpass_yubikey.Base.{
  ℕ, ◌≡◌, ◌≢◌, Bool, true, false, not, ◌&&◌, Option, none, some, List, [], ◌∷◌, arith, is_empty,
  inl, inr, if◌then◌else◌, Bytes, Option-cases, Bool-cases, All,
}
use gtkaskpass_yubikey.Base.Int.{ℤ}
use gtkaskpass_yubikey.Base.Maps.{lookup, retain, retain-All, All-map, lookup-insert}
use gtkaskpass_yubikey.Cache.Identity.{Key, Identity, Key-discrete}
use gtkaskpass_yubikey.Cache.Store.{
  Entry, Ticket, Store, hit, begin, commit, commit_checked, commit_ticket, forget, forget_entries,
  is_meant, is_kept, expire, current, reject, erase, matches,
}
use gtkaskpass_yubikey.Cache.Store.Expiry.{lookup-expire}
use gtkaskpass_yubikey.Cache.Store.Serving.{begin-Answers}

not-true : (b : Bool) → not b ≡ true → b ≡ false
not-true b h = ground arith

pub lookup-forget_entries :
    (key : Option Key) (k : Key) (seq : ℕ) (m : List (Key × Entry))
    → lookup Key-discrete k (forget_entries key seq m).1
      ≡ (if is_meant key k then none else lookup Key-discrete k m)
unfolding lookup forget_entries
lookup-forget_entries key k seq [] = ground arith
lookup-forget_entries key k seq ((j, e) ∷ m) =
    ground (arith, lookup-forget_entries key k seq m, lookup-forget_entries key k (erase seq e).0 m)

pub lookup-forget :
    (s : Store) (key : Option Key) (k : Key)
    → lookup Key-discrete k (forget s key).entries
      ≡ (if is_meant key k then none else lookup Key-discrete k s.entries)
unfolding forget
lookup-forget s key k = lookup-forget_entries key k s.seq s.entries

pub expire-none :
    (s : Store) (now : ℤ) (k : Key)
    → lookup Key-discrete k s.entries ≡ none
    → lookup Key-discrete k (expire s now).entries ≡ none
expire-none s now k e = ground (arith, lookup-expire s now k)

commit_checked-none :
    (s : Store) (token : ℕ) (id : Identity) (caller secret : Bytes) (now : ℤ)
    → lookup Key-discrete id.key s.entries ≡ none
    → (commit_checked s token id caller secret now).1 ≡ false
unfolding commit_checked commit_ticket
commit_checked-none s token id caller secret now e = ground arith

kept-All :
    (key : Option Key) (m : List (ℕ × Ticket))
    → All (λ p. is_meant key p.1.identity.key ≡ false) (retain (is_kept key) m)
unfolding is_kept
kept-All key m =
    All-map _ _ (retain (is_kept key) m) (λ k t h. not-true _ h) (retain-All (is_kept key) m)

-- After `Forget` no secret of a key that is meant is served, no lease for it is left and none is
-- honoured; the entries of other keys stay as they are.
pub forget_forgets :
    (s : Store) (key : Option Key) (id : Identity) (caller secret : Bytes) (token : ℕ)
    (now later : ℤ)
    → is_meant key id.key ≡ true
    → let s' = forget s key in
      ((begin s' id caller now later).1.reason ≢ hit)
      × ((begin s' id caller now later).1.secret ≡ [])
      × ((commit s' token id caller secret now later).1 ≡ false)
      × All (λ p. is_meant key p.1.identity.key ≡ false) s'.tickets
      × ((k : Key)
          → is_meant key k ≡ false
          → lookup Key-discrete k s'.entries ≡ lookup Key-discrete k s.entries)
unfolding commit
forget_forgets s key id caller secret token now later h =
    let gone = expire-none (forget s key) now id.key (rw lookup-forget (rw h)) in
    let quiet = rw gone at (begin-Answers (forget s key) id caller now later) in
    (
      quiet.0,
      quiet.1,
      commit_checked-none (expire (forget s key) now) token id caller secret later gone,
      unfold forget in kept-All key s.tickets,
      λ k other. ground (arith, lookup-forget s key k),
    )

abbrev pub usable : Option Entry → Identity → ℕ → Bool
usable none id generation = false
usable (some e) id generation = matches e id generation && not (is_empty e.secret)

pub current-usable :
    (s : Store) (id : Identity) (generation : ℕ) (now : ℤ)
    → (current s id generation now).1
      ≡ usable (lookup Key-discrete id.key (expire s now).entries) id generation
unfolding current
current-usable s id generation now = ground arith

pub usable-expire :
    (s : Store) (id : Identity) (generation : ℕ) (now : ℤ)
    → usable (lookup Key-discrete id.key s.entries) id generation ≡ false
    → usable (lookup Key-discrete id.key (expire s now).entries) id generation ≡ false
unfolding erase
usable-expire s id generation now h = ground (arith, lookup-expire s now id.key)

pub usable-reject :
    (s : Store) (id : Identity) (generation : ℕ)
    → usable (lookup Key-discrete id.key (reject s id generation).entries) id generation ≡ false
unfolding reject erase
usable-reject s id generation = elim (Option-cases (lookup Key-discrete id.key s.entries)) [
  | inl e ↦ rw (e, reject, e)
  | inr (x, e) ↦ elim (Bool-cases (matches x id generation)) [
    | inl m ↦ ground (arith, lookup-insert Key-discrete id.key id.key (erase s.seq x).1 s.entries)
    | inr m ↦ ground arith
  ]
]
