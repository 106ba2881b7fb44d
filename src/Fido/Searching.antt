-- ===== src/Fido/Searching.antt =====
-- The loop of `identity` of internal/fido/backend.go ends.
use gtkaskpass_yubikey.Base.{
  ℕ, zero, suc, ◌≤◌, ◌≡◌, ◌≢◌, true, false, ◌||◌, [], ◌∷◌, Bytes, codes, is_empty, length, ◌==◌,
  if_cases, arith,
}
use gtkaskpass_yubikey.Text.Paths.{is_abs, dir}
use gtkaskpass_yubikey.Text.Lengths.{dir-le}
use gtkaskpass_yubikey.Fido.{System, Search, usb, root, exhausted, read, is_root, search_usb}

root_other : root ≢ exhausted
root_other e = ground arith

usb_other : (p vid pid : Bytes) → usb p vid pid ≢ exhausted
usb_other p vid pid e = ground arith

-- From an absolute path, the loop reaches the directory of a USB device or the root after as many rounds
-- as the path has bytes.
pub search-ends :
    (sys : System) (n : ℕ) (p : Bytes)
    → is_abs p ≡ true
    → length p ≤ n
    → search_usb sys n p ≢ exhausted
unfolding search_usb
search-ends sys n [] a le = absurd (ground arith)
search-ends sys zero (c ∷ p) a le = absurd (omega arith)
search-ends sys (suc n) (c ∷ []) a le =
    if_cases (λ (r : Search). r ≢ exhausted) (is_root (c ∷ [])) (λ _. root_other)
      (λ other. absurd (single c a other))
  where
    single : (c : ℕ) → (c == 47) ≡ true → is_root (c ∷ []) ≡ false → ⊥
    single c a other = ground arith
search-ends sys (suc n) (c ∷ d ∷ p) a le =
    if_cases (λ (r : Search). r ≢ exhausted) (is_root (c ∷ d ∷ p)) (λ _. root_other)
      λ _.
        if_cases (λ (r : Search). r ≢ exhausted)
          (is_empty (read sys (c ∷ d ∷ p) (codes "idVendor"))
            || is_empty (read sys (c ∷ d ∷ p) (codes "idProduct")))
          (λ _.
            search-ends sys n (dir (c ∷ d ∷ p)) (dir-le c d p a).0
              (omega (arith, (dir-le c d p a).1, le)))
          (λ _. usb_other _ _ _)
