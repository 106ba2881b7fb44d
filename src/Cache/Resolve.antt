-- ===== src/Cache/Resolve.antt =====
-- `Resolve` of internal/cache/identity.go. What it asks of the file system is a record of answers.
pub mod Pins
use gtkaskpass_yubikey.Base.{
  ℕ, suc, ◌*◌, ◌/◌, ◌%◌, ◌≡◌, ◌≢◌, refl, sym, ap, ◌∙◌, Bool, true, false, not, ◌&&◌, ◌||◌, Option,
  none, some, List, [], ◌∷◌, ◌++◌, Bytes, All, ◌==◌, if◌then◌else◌, arith, Bool-cases, Option-cases,
  inl, inr,
}
use gtkaskpass_yubikey.Base.Int.{ℤ, pos, negsuc}
use gtkaskpass_yubikey.Text.{cut_byte}
use gtkaskpass_yubikey.Text.Affixes.{cut_byte-append}
use gtkaskpass_yubikey.Text.Decimal.{
  itoa, decimal, digits-IsDigit, IsDigit, decimal-injective, itoa-injective,
}
use gtkaskpass_yubikey.Cache.Identity.{Key, Identity, agent_pin, valid}

-- `unix.Stat_t`
pub record Stat : Type 0 where
  pub mode : ℕ
  pub uid : ℕ
  pub dev : ℕ
  pub ino : ℕ
  pub size : ℤ
  pub mtime_sec : ℤ
  pub mtime_nsec : ℤ
  pub ctime_sec : ℤ
  pub ctime_nsec : ℤ

-- What filepath.Abs, filepath.EvalSymlinks and stat(2) answer, and the user's own number.
pub record Files : Type 0 where
  pub absolute : Bytes → Option Bytes
  pub real_path : Bytes → Option Bytes
  pub stat : Bytes → Option Stat
  pub user : ℕ

-- `st.Mode & S_IFMT == S_IFREG`
abbrev pub is_regular : Stat → Bool
is_regular st = st.mode / 4096 % 16 == 8

-- `%d:%d:%d:%d:%d:%d:%d`
unfoldable pub stamp : Stat → Bytes
stamp st =
    decimal st.dev
    ++ (58
        ∷ (decimal st.ino
            ++ (58
                ∷ (itoa st.size
                    ++ (58
                        ∷ (itoa st.mtime_sec
                            ++ (58
                                ∷ (itoa st.mtime_nsec
                                    ++ (58
                                        ∷ (itoa st.ctime_sec ++ (58 ∷ itoa st.ctime_nsec)))))))))))

unfoldable pub resolve_file : Files → Key → Bytes → Option Identity
resolve_file files k p = elim (files.stat p) [
  | none ↦ none
  | some st ↦
      if not (is_regular st) || not (st.uid == files.user)
      then none
      else some (record { key = record k { path = p }; stamp = stamp st })
]

unfoldable pub resolve_path : Files → Key → Option Identity
resolve_path files k = elim (files.absolute k.path) [
  | none ↦ none
  | some p ↦ elim (files.real_path p) [ none ↦ none | some q ↦ resolve_file files k q ]
]

-- `Resolve`
unfoldable pub resolve : Files → Key → Option Identity
resolve files k =
    if not (valid k)
    then none
    else if agent_pin k
    then some (record { key = k; stamp = [] })
    else resolve_path files k
