-- ===== src/Cache/Resolve/Pins.antt =====
-- The stamp of an identity determines the file's number, its size and its times.
use mathlib.Core.Option
use gtkaskpass_yubikey.Base.{
  ℕ, suc, ◌≡◌, ◌≢◌, refl, sym, ap, ◌∙◌, true, false, not, ◌||◌, Option, some, [], ◌∷◌, ◌++◌, Bytes,
  All, ◌==◌, arith, Bool-cases, Option-cases, inl, inr,
}
use gtkaskpass_yubikey.Base.Int.{ℤ, pos, negsuc}
use gtkaskpass_yubikey.Text.{cut_byte}
use gtkaskpass_yubikey.Text.Affixes.{cut_byte-append}
use gtkaskpass_yubikey.Text.Decimal.{
  itoa, decimal, digits-IsDigit, IsDigit, decimal-injective, itoa-injective,
}
use gtkaskpass_yubikey.Cache.Identity.{Key, Identity, agent_pin, valid}
use gtkaskpass_yubikey.Cache.Resolve.{
  Stat, Files, is_regular, stamp, resolve_file, resolve_path, resolve,
}

-- Two texts that begin with parts without a colon, each before a colon, agree part by part.
parts-agree :
    (xs ys r s : Bytes)
    → All (λ c. c ≢ 58) xs
    → All (λ c. c ≢ 58) ys
    → xs ++ 58 ∷ r ≡ ys ++ 58 ∷ s
    → (xs ≡ ys) × (r ≡ s)
parts-agree xs ys r s h k e =
    let same : some (xs, r) ≡ some (ys, s) =
      sym (cut_byte-append 58 xs r h) ∙ ap (cut_byte 58) e ∙ cut_byte-append 58 ys s k in
    let pair : (xs, r) ≡ (ys, s) =
      ap (λ (o : Option (Bytes × Bytes)). Option.get_or o ([], [])) same in
    (ap (λ (p : Bytes × Bytes). p.0) pair, ap (λ (p : Bytes × Bytes). p.1) pair)

digits-no_colon : (cs : Bytes) → All IsDigit cs → All (λ c. c ≢ 58) cs
digits-no_colon [] h = tt
digits-no_colon (c ∷ cs) h = ((λ e. ground (arith, h.0, e)), digits-no_colon cs h.1)

decimal-no_colon : (n : ℕ) → All (λ c. c ≢ 58) (decimal n)
decimal-no_colon n = digits-no_colon (decimal n) (digits-IsDigit n n)

itoa-no_colon : (a : ℤ) → All (λ c. c ≢ 58) (itoa a)
itoa-no_colon (pos n) = decimal-no_colon n
itoa-no_colon (negsuc n) = ((λ e. ground (arith, e)), decimal-no_colon (suc n))

itoa-agree : (a b : ℤ) (r s : Bytes) → itoa a ++ 58 ∷ r ≡ itoa b ++ 58 ∷ s → (a ≡ b) × (r ≡ s)
itoa-agree a b r s e =
    let parts = parts-agree (itoa a) (itoa b) r s (itoa-no_colon a) (itoa-no_colon b) e in
    (itoa-injective a b parts.0, parts.1)

decimal-agree :
    (a b : ℕ) (r s : Bytes) → decimal a ++ 58 ∷ r ≡ decimal b ++ 58 ∷ s → (a ≡ b) × (r ≡ s)
decimal-agree a b r s e =
    let parts =
      parts-agree (decimal a) (decimal b) r s (decimal-no_colon a) (decimal-no_colon b) e in
    (decimal-injective a b parts.0, parts.1)

-- The ends of a stamp.
abbrev from_ctime_sec : Stat → Bytes
from_ctime_sec st = itoa st.ctime_sec ++ 58 ∷ itoa st.ctime_nsec

abbrev from_mtime_nsec : Stat → Bytes
from_mtime_nsec st = itoa st.mtime_nsec ++ 58 ∷ from_ctime_sec st

abbrev from_mtime_sec : Stat → Bytes
from_mtime_sec st = itoa st.mtime_sec ++ 58 ∷ from_mtime_nsec st

abbrev from_size : Stat → Bytes
from_size st = itoa st.size ++ 58 ∷ from_mtime_sec st

abbrev from_ino : Stat → Bytes
from_ino st = decimal st.ino ++ 58 ∷ from_size st

-- The same file, of the same size, and not modified or changed in between.
pub record IsSameFile (a b : Stat) : Type 0 where
  pub dev : a.dev ≡ b.dev
  pub ino : a.ino ≡ b.ino
  pub size : a.size ≡ b.size
  pub mtime_sec : a.mtime_sec ≡ b.mtime_sec
  pub mtime_nsec : a.mtime_nsec ≡ b.mtime_nsec
  pub ctime_sec : a.ctime_sec ≡ b.ctime_sec
  pub ctime_nsec : a.ctime_nsec ≡ b.ctime_nsec

-- Two files with the same stamp have the same device, inode, size and times.
pub stamp-IsSameFile : (a b : Stat) → stamp a ≡ stamp b → IsSameFile a b
unfolding stamp
stamp-IsSameFile a b h =
    let p = decimal-agree a.dev b.dev (from_ino a) (from_ino b) h in
    let q = decimal-agree a.ino b.ino (from_size a) (from_size b) p.1 in
    let r = itoa-agree a.size b.size (from_mtime_sec a) (from_mtime_sec b) q.1 in
    let s = itoa-agree a.mtime_sec b.mtime_sec (from_mtime_nsec a) (from_mtime_nsec b) r.1 in
    let t = itoa-agree a.mtime_nsec b.mtime_nsec (from_ctime_sec a) (from_ctime_sec b) s.1 in
    let u = itoa-agree a.ctime_sec b.ctime_sec (itoa a.ctime_nsec) (itoa b.ctime_nsec) t.1 in
    record {
      dev = p.0;
      ino = q.0;
      size = r.0;
      mtime_sec = s.0;
      mtime_nsec = t.0;
      ctime_sec = u.0;
      ctime_nsec = itoa-injective a.ctime_nsec b.ctime_nsec u.1;
    }

-- What an identity is resolved to: the PIN of an agent's key, without a file, or a regular file of
-- the user's own, found at its real path, with its stamp.
pub data IsResolved (files : Files) (k : Key) : Identity → Type 0 where
  agent : agent_pin k ≡ true → IsResolved files k (record { key = k; stamp = [] })
  file :
      (q p : Bytes) (st : Stat)
      → agent_pin k ≡ false
      → files.absolute k.path ≡ some q
      → files.real_path q ≡ some p
      → files.stat p ≡ some st
      → is_regular st ≡ true
      → st.uid ≡ files.user
      → IsResolved files k (record { key = record k { path = p }; stamp = stamp st })

file_ok :
    (files : Files) (k : Key) (p : Bytes) (st : Stat)
    → files.stat p ≡ some st
    → (not (is_regular st) || not (st.uid == files.user)) ≡ false
    → resolve_file files k p ≡ some (record { key = record k { path = p }; stamp = stamp st })
unfolding resolve_file
file_ok files k p st e good = rw (resolve_file, e, good) refl

file-found :
    (files : Files) (k : Key) (p : Bytes) (id : Identity)
    → resolve_file files k p ≡ some id
    → (st : Stat) × (files.stat p ≡ some st)
      × (is_regular st ≡ true)
      × (st.uid ≡ files.user)
      × (id ≡ record { key = record k { path = p }; stamp = stamp st })
unfolding resolve_file
file-found files k p id h = elim (Option-cases (files.stat p)) [
  | inl e ↦ absurd (ground (arith, h, e))
  | inr (st, e) ↦ elim (Bool-cases (not (is_regular st) || not (st.uid == files.user))) [
    | inl bad ↦ absurd (ground (arith, h, e, bad))
    | inr good ↦ (
      st,
      e,
      ground (arith, good),
      ground (arith, good),
      ap (λ o. Option.get_or o id) (sym h ∙ file_ok files k p st e good),
    )
  ]
]

path-found :
    (files : Files) (k : Key) (id : Identity)
    → resolve_path files k ≡ some id
    → (q : Bytes) × (p : Bytes) × (files.absolute k.path ≡ some q)
      × (files.real_path q ≡ some p)
      × (resolve_file files k p ≡ some id)
unfolding resolve_path
path-found files k id h = elim (Option-cases (files.absolute k.path)) [
  | inl e ↦ absurd (ground (arith, h, e))
  | inr (q, e) ↦ elim (Option-cases (files.real_path q)) [
    | inl f ↦ absurd (ground (arith, h, e, f))
    | inr (p, f) ↦ (q, p, e, f, ground (arith, h, e, f))
  ]
]

file-IsResolved :
    (files : Files) (k : Key) (id : Identity)
    → agent_pin k ≡ false
    → resolve_path files k ≡ some id
    → IsResolved files k id
file-IsResolved files k id b h =
    let (q, p, e, f, g) = path-found files k id h in
    let (st, found, regular, own, same) = file-found files k p id g in
    rw same (file q p st b e f found regular own)

-- A key resolves only if it is valid. It resolves to itself, without a stamp, if it is the PIN of
-- an agent's key, and otherwise to a regular file of the user's own, found at the real path of its
-- absolute path, with the stamp of that file.
pub resolve-IsResolved :
    (files : Files) (k : Key) (id : Identity)
    → resolve files k ≡ some id
    → (valid k ≡ true) × IsResolved files k id
unfolding resolve
resolve-IsResolved files k id h = elim (Bool-cases (valid k)) [
  | inr bad ↦ absurd (ground (arith, h, bad))
  | inl good ↦ elim (Bool-cases (agent_pin k)) [
    | inl a ↦
        let ok : resolve files k ≡ some (record { key = k; stamp = [] }) =
          rw (resolve, good, a) refl in
        let same : id ≡ record { key = k; stamp = [] } =
          ap (λ o. Option.get_or o id) (sym h ∙ ok) in
        (good, rw same (agent a))
    | inr b ↦
        let ok : resolve files k ≡ resolve_path files k = rw (resolve, good, b) refl in
        (good, file-IsResolved files k id b (sym ok ∙ h))
  ]
]
