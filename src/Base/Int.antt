-- ===== src/Base/Int.antt =====
-- Signed 64-bit values such as time.Duration: integers over the native numbers, and int64 addition.
-- Sums and orders go through the two parts of an integer, which are numbers that `omega` reads.
use Prim.Native.Nat.{ℕ, suc, ◌+◌, ◌-◌, ◌^◌, ◌≤◌}
use mathlib.Core.Path.{◌≡◌}
use mathlib.Core.Bool.{Bool, true, false}
use native.Mathlib.Omega.{arith}
use gtkaskpass_yubikey.Base.Tests.{leb, if◌then◌else◌}

-- `negsuc n` is -(n + 1).
pub data ℤ : Type 0 where
  pos : ℕ → ℤ
  negsuc : ℕ → ℤ

abbrev pub pos_part : ℤ → ℕ
pos_part (pos n) = n
pos_part (negsuc n) = 0

abbrev pub neg_part : ℤ → ℕ
neg_part (pos n) = 0
neg_part (negsuc n) = suc n

-- a - b, as an integer.
abbrev pub sub_ℕ : ℕ → ℕ → ℤ
sub_ℕ a b = if leb b a then pos (a - b) else negsuc (b - a - 1)

infixl 65 ◌+ℤ◌
infix 50 ◌≤ℤ◌
unfoldable pub ◌+ℤ◌ : ℤ → ℤ → ℤ
a +ℤ b = sub_ℕ (pos_part a + pos_part b) (neg_part a + neg_part b)

abbrev pub ◌≤ℤ◌ : ℤ → ℤ → Type 0
a ≤ℤ b = pos_part a + neg_part b ≤ pos_part b + neg_part a

abbrev pub leb_ℤ : ℤ → ℤ → Bool
leb_ℤ a b = leb (pos_part a + neg_part b) (pos_part b + neg_part a)

pub leb_ℤ→≤ℤ : (a b : ℤ) → leb_ℤ a b ≡ true → a ≤ℤ b
leb_ℤ→≤ℤ a b h = ground arith

pub leb_ℤ-false : (a b : ℤ) → b ≤ℤ a → ¬ (a ≤ℤ b) → leb_ℤ a b ≡ false
leb_ℤ-false a b h k = ground arith

-- Go's `+` on int64.
unfoldable pub add64 : ℤ → ℤ → ℤ
unfolding ◌+ℤ◌
add64 a b =
    let s = a +ℤ b in
    if leb_ℤ (pos (2 ^ 63)) s
    then s +ℤ negsuc (2 ^ 64 - 1)
    else if leb_ℤ (negsuc (2 ^ 63 - 1)) s
    then s
    else s +ℤ pos (2 ^ 64)

-- Where two non-negative values do not overflow, addition is exact.
pub add64-pos : (m n : ℕ) → suc (m + n) ≤ 2 ^ 63 → add64 (pos m) (pos n) ≡ pos (m + n)
unfolding add64
add64-pos m n h = ground arith
