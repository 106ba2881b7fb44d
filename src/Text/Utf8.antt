-- ===== src/Text/Utf8.antt =====
-- utf8.ValidString.
use gtkaskpass_yubikey.Base.{
  ℕ, Bool, true, false, ◌&&◌, Option, none, some, List, [], ◌∷◌, Bytes, ◌==◌, leb, if◌then◌else◌,
}

abbrev within : ℕ → ℕ → ℕ → Bool
within lo hi c = leb lo c && leb c hi

-- The ranges of the bytes that must follow a first byte; `none` where no character starts with it.
unfoldable pub followers : ℕ → Option (List (ℕ × ℕ))
followers b =
    if leb b 0x7f
    then some []
    else if within 0xc2 0xdf b
    then some ((0x80, 0xbf) ∷ [])
    else if b == 0xe0
    then some ((0xa0, 0xbf) ∷ (0x80, 0xbf) ∷ [])
    else if b == 0xed
    then some ((0x80, 0x9f) ∷ (0x80, 0xbf) ∷ [])
    else if within 0xe1 0xef b
    then some ((0x80, 0xbf) ∷ (0x80, 0xbf) ∷ [])
    else if b == 0xf0
    then some ((0x90, 0xbf) ∷ (0x80, 0xbf) ∷ (0x80, 0xbf) ∷ [])
    else if b == 0xf4
    then some ((0x80, 0x8f) ∷ (0x80, 0xbf) ∷ (0x80, 0xbf) ∷ [])
    else if within 0xf1 0xf3 b
    then some ((0x80, 0xbf) ∷ (0x80, 0xbf) ∷ (0x80, 0xbf) ∷ [])
    else none

unfoldable pub valid_from : List (ℕ × ℕ) → Bytes → Bool
unfolding followers
valid_from [] [] = true
valid_from (r ∷ rs) [] = false
valid_from ((lo, hi) ∷ rs) (b ∷ s) = within lo hi b && valid_from rs s
valid_from [] (b ∷ s) = elim (followers b) [ none ↦ false | some rs ↦ valid_from rs s ]

unfoldable pub valid_utf8 : Bytes → Bool
unfolding valid_from
valid_utf8 = valid_from []
