-- ===== src/Cache/Store/Expiry.antt =====
-- What `expire` leaves in the store.
use mathlib.Core.Logic.{if_pos, if_neg}
use gtkaskpass_yubikey.Base.{
  Bool-cases, ℕ, ◌≡◌, refl, ◌⊎◌, inl, inr, Bool, true, false, not, ◌&&◌, Option, none, some, List,
  [], ◌∷◌, is_empty, if◌then◌else◌,
}
use gtkaskpass_yubikey.Base.Int.{ℤ, leb_ℤ}
use gtkaskpass_yubikey.Base.Maps.{lookup}
use gtkaskpass_yubikey.Cache.Identity.{Key, Key-discrete}
use gtkaskpass_yubikey.Cache.Store.{Entry, Store, erase, expire_entries, expire}

-- Does the entry hold a secret whose time is up?
abbrev pub is_over : ℤ → Entry → Bool
is_over now e = not (is_empty e.secret) && leb_ℤ e.expires now

-- The entry as `expire` leaves it, erased at some value of the counter if its time is up.
abbrev pub Expired : ℤ → Option Entry → Option Entry → Type 0
Expired now none r = r ≡ none
Expired now (some e) r =
    ((is_over now e ≡ false) × (r ≡ some e))
    ⊎ ((seq : ℕ) × (is_over now e ≡ true) × (r ≡ some (erase seq e).1))

Expired-head :
    (now : ℤ) (seq : ℕ) (e : Entry)
    → Expired now (some e) (some (if is_over now e then erase seq e else (seq, e)).1)
Expired-head now seq e = elim (Bool-cases (is_over now e)) [
  | inl over ↦ inr (seq, over, rw over)
  | inr fresh ↦ inl (fresh, rw fresh)
]

pub lookup-expire_entries :
    (now : ℤ) (seq : ℕ) (k : Key) (m : List (Key × Entry))
    → Expired now (lookup Key-discrete k m) (lookup Key-discrete k (expire_entries now seq m).1)
unfolding lookup expire_entries
lookup-expire_entries now seq k [] = refl
lookup-expire_entries now seq k ((j, e) ∷ m) = elim (Key-discrete j k) [
  | yes p ↦ rw (if_pos _ p, if_pos _ p) (Expired-head now seq e)
  | no p ↦
      rw (if_neg _ p, if_neg _ p)
        (lookup-expire_entries now (if is_over now e then erase seq e else (seq, e)).0 k m)
]

pub lookup-expire :
    (s : Store) (now : ℤ) (k : Key)
    → Expired now (lookup Key-discrete k s.entries) (lookup Key-discrete k (expire s now).entries)
unfolding expire
lookup-expire s now k = lookup-expire_entries now s.seq k s.entries
