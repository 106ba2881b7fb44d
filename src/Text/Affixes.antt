-- ===== src/Text/Affixes.antt =====
-- Cutting a prefix or a suffix off a text is exact.
use gtkaskpass_yubikey.Base.{
  ℕ, ◌≡◌, ◌≢◌, refl, ap, ◌||◌, some, [], ◌∷◌, ◌++◌, arith, All, Bytes, length, length-append, inl,
  inr, Option-cases,
}
use gtkaskpass_yubikey.Text.{cut_prefix, cut_suffix, has_line_break, cut_byte}

pub cut_prefix-append : (p s : Bytes) → cut_prefix p (p ++ s) ≡ some s
unfolding cut_prefix
cut_prefix-append [] s = refl
cut_prefix-append (c ∷ p) s = ground (arith, cut_prefix-append p s)

pub cut_prefix_sound : (p s r : Bytes) → cut_prefix p s ≡ some r → s ≡ p ++ r
unfolding cut_prefix
cut_prefix_sound [] s r e = cc
cut_prefix_sound (c ∷ p) [] r e = absurd (cc)
cut_prefix_sound (c ∷ p) (d ∷ s) r e = ground (arith, cut_prefix_sound p s r)

pub cut_suffix_sound : (suffix s r : Bytes) → cut_suffix suffix s ≡ some r → s ≡ r ++ suffix
unfolding cut_suffix
cut_suffix_sound suffix [] r e = ground arith
cut_suffix_sound suffix (c ∷ s) r e = elim (Option-cases (cut_suffix suffix s)) [
  | inl none_left ↦ ground arith
  | inr (q, found) ↦ ground (arith, cut_suffix_sound suffix s q found)
]

ne_longer : (c : ℕ) (r s : Bytes) → c ∷ (r ++ s) ≢ s
ne_longer c r s e = omega (arith, ap length e, length-append r s)

pub cut_suffix-append : (r suffix : Bytes) → cut_suffix suffix (r ++ suffix) ≡ some r
unfolding cut_suffix
cut_suffix-append [] [] = ground arith
cut_suffix-append [] (c ∷ s) = ground arith
cut_suffix-append (c ∷ r) suffix = ground (arith, ne_longer c r suffix, cut_suffix-append r suffix)

-- What a known split of a text gives.
pub cut_suffix_of : (r suffix : Bytes) {s : Bytes} → s ≡ r ++ suffix → cut_suffix suffix s ≡ some r
cut_suffix_of r suffix e = rw e (cut_suffix-append r suffix)

pub cut_prefix_of : (p r : Bytes) {s : Bytes} → s ≡ p ++ r → cut_prefix p s ≡ some r
cut_prefix_of p r e = rw e (cut_prefix-append p r)

pub has_line_break-append :
    (s t : Bytes) → has_line_break (s ++ t) ≡ has_line_break s || has_line_break t
unfolding has_line_break
has_line_break-append [] t = refl
has_line_break-append (c ∷ s) t = ground (arith, has_line_break-append s t)

pub cut_byte-append :
    (sep : ℕ) (xs ys : Bytes)
    → All (λ c. c ≢ sep) xs
    → cut_byte sep (xs ++ sep ∷ ys) ≡ some (xs, ys)
unfolding cut_byte
cut_byte-append sep [] ys h = ground arith
cut_byte-append sep (x ∷ xs) ys h = ground (arith, h.0, cut_byte-append sep xs ys h.1)
