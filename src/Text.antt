-- ===== src/Text.antt =====
-- What the code uses of Go's `strings` and `unicode/utf8`, over bytes.
pub mod Affixes
pub mod Utf8
pub mod Decimal
pub mod Paths
pub mod Lengths
use mathlib.Core.Option
use gtkaskpass_yubikey.Base.{
  ℕ, zero, suc, ◌-◌, Bool, true, false, ◌&&◌, ◌||◌, Option, none, some, List, [], ◌∷◌, ◌++◌, Bytes,
  Bytes-discrete, ◌==◌, leb, decide, is_some, is_empty, if◌then◌else◌,
}

abbrev pub within : ℕ → ℕ → ℕ → Bool
within lo hi c = leb lo c && leb c hi

-- strings.CutPrefix
unfoldable pub cut_prefix : Bytes → Bytes → Option Bytes
cut_prefix [] s = some s
cut_prefix (p ∷ ps) [] = none
cut_prefix (p ∷ ps) (c ∷ s) = if p == c then cut_prefix ps s else none

-- strings.HasPrefix
abbrev pub has_prefix : Bytes → Bytes → Bool
has_prefix p s = is_some (cut_prefix p s)

-- strings.CutSuffix
unfoldable pub cut_suffix : Bytes → Bytes → Option Bytes
cut_suffix suffix [] = if decide (Bytes-discrete [] suffix) then some [] else none
cut_suffix suffix (c ∷ s) =
    let rest = Option.map (λ r. c ∷ r) (cut_suffix suffix s) in
    if decide (Bytes-discrete (c ∷ s) suffix) then some [] else rest

-- strings.HasSuffix
abbrev pub has_suffix : Bytes → Bytes → Bool
has_suffix suffix s = is_some (cut_suffix suffix s)

-- strings.TrimSuffix
abbrev pub trim_suffix : Bytes → Bytes → Bytes
trim_suffix suffix s = Option.get_or (cut_suffix suffix s) s

-- strings.TrimPrefix
abbrev pub trim_prefix : Bytes → Bytes → Bytes
trim_prefix prefix s = Option.get_or (cut_prefix prefix s) s

-- strings.ContainsAny(s, "\x00\r\n")
unfoldable pub has_line_break : Bytes → Bool
has_line_break [] = false
has_line_break (c ∷ s) = (c == 0 || c == b'\r' || c == b'\n') || has_line_break s

unfoldable pub space_len3 : ℕ → Bytes → ℕ
space_len3 a (b ∷ c ∷ r) =
    if a == 0xe1 && b == 0x9a && c == 0x80
      || a == 0xe2 && b == 0x80 && (within 0x80 0x8a c || c == 0xa8 || c == 0xa9 || c == 0xaf)
      || a == 0xe2 && b == 0x81 && c == 0x9f
      || a == 0xe3 && b == 0x80 && c == 0x80
    then 3
    else 0
space_len3 a _ = 0

unfoldable pub space_len2 : ℕ → Bytes → ℕ
unfolding space_len3
space_len2 a [] = 0
space_len2 a (b ∷ r) = if a == 0xc2 && (b == 0x85 || b == 0xa0) then 2 else space_len3 a (b ∷ r)

-- The length of the white space (unicode.IsSpace, in UTF-8) at the start of `a ∷ r`, or 0.
unfoldable pub space_len : ℕ → Bytes → ℕ
unfolding space_len2
space_len a r = if within 9 13 a || a == b' ' then 1 else space_len2 a r

-- A field that is complete, unless it is empty.
abbrev flush : Bytes → List Bytes → List Bytes
flush [] fields = fields
flush (c ∷ w) fields = (c ∷ w) ∷ fields

-- `skip` counts the bytes of the current white space that are still to be passed over.
fields_from : ℕ → Bytes → Bytes → List Bytes
fields_from skip w [] = flush w []
fields_from (suc skip) w (c ∷ s) = fields_from skip w s
fields_from zero w (c ∷ s) = elim (space_len c s) [
  | zero ↦ fields_from zero (w ++ c ∷ []) s
  | suc more ↦ flush w (fields_from more [] s)
]

-- strings.Fields
unfoldable pub fields : Bytes → List Bytes
unfolding fields_from space_len
fields = fields_from zero []

-- strings.Join(words, " ")
unfoldable pub join : List Bytes → Bytes
join [] = []
join (w ∷ []) = w
join (w ∷ v ∷ ws) = w ++ b' ' ∷ join (v ∷ ws)

-- strings.Cut at one byte
unfoldable pub cut_byte : ℕ → Bytes → Option (Bytes × Bytes)
cut_byte sep [] = none
cut_byte sep (c ∷ s) =
    let rest = Option.map (λ (p : Bytes × Bytes). (c ∷ p.0, p.1)) (cut_byte sep s) in
    if c == sep then some ([], s) else rest

-- What follows the last `sep`: strings.LastIndexByte
unfoldable pub after_last : ℕ → Bytes → Option Bytes
after_last sep [] = none
after_last sep (c ∷ s) =
    let rest = after_last sep s in
    elim rest [ none ↦ if c == sep then some s else none | some r ↦ some r ]

-- `skip` is as for `fields_from`.
unfoldable pub trim_left : ℕ → Bytes → Bytes
unfolding space_len
trim_left skip [] = []
trim_left (suc skip) (c ∷ s) = trim_left skip s
trim_left zero (c ∷ s) = elim (space_len c s) [ zero ↦ c ∷ s | suc more ↦ trim_left more s ]

unfoldable pub trim_right : Bytes → Bytes
trim_right [] = []
trim_right (c ∷ s) =
    let rest = trim_right s in if is_empty (trim_left zero (c ∷ s)) then [] else c ∷ rest

-- strings.TrimSpace
abbrev pub trim_space : Bytes → Bytes
trim_space s = trim_right (trim_left zero s)
