-- ===== src/Text/Lengths.antt =====
-- The parent directory of an absolute path is shorter, but for the root.
use gtkaskpass_yubikey.Base.{
  ℕ, suc, ◌+◌, ◌≤◌, ◌≡◌, refl, Bool, true, false, ◌||◌, List, [], ◌∷◌, ◌++◌, Bytes, Bytes-discrete,
  codes, decide, is_empty, length, length-append, ◌==◌, if◌then◌else◌, if_cases, arith, Bool-cases,
  inl, inr,
}
use gtkaskpass_yubikey.Text.Paths.{
  is_abs, elements, up, clean_elements, assemble, clean, head_of, dir,
}

-- The bytes of the elements, each with a slash.
abbrev weight : List Bytes → ℕ
weight [] = 0
weight (e ∷ es) = suc (length e + weight es)

-- The same without the empty ones
abbrev kept : List Bytes → ℕ
kept [] = 0
kept (e ∷ es) = if is_empty e then kept es else suc (length e + kept es)

up-le : (rooted : Bool) (out : List Bytes) → weight (up rooted out) ≤ 3 + weight out
up-le true [] = omega arith
up-le false [] = omega arith
up-le rooted (e ∷ out) =
    if_cases (λ o. weight o ≤ 3 + weight (e ∷ out)) (decide (Bytes-discrete e (codes "..")))
      (λ _. omega arith) (λ _. omega arith)

dots-length :
    (e : Bytes)
    → decide (Bytes-discrete e (codes "..")) ≡ true
    → (length e ≡ 2) × (is_empty e ≡ false)
dots-length e h = elim (Bytes-discrete e (codes "..")) [
  | yes p ↦ (rw p refl, rw p refl)
  | no p ↦ absurd (ground arith)
]

abbrev next : Bool → Bytes → List Bytes → List Bytes
next rooted e out =
    if is_empty e || decide (Bytes-discrete e (codes "."))
    then out
    else if decide (Bytes-discrete e (codes ".."))
    then up rooted out
    else e ∷ out

kept_le : (e : Bytes) (es : List Bytes) → kept es ≤ kept (e ∷ es)
kept_le e es = if_cases (λ n. kept es ≤ n) (is_empty e) (λ _. omega arith) (λ _. omega arith)

kept_cons :
    (e : Bytes) (es : List Bytes) → is_empty e ≡ false → kept (e ∷ es) ≡ suc (length e + kept es)
kept_cons e es h = rw h refl

next-le :
    (rooted : Bool) (e : Bytes) (es out : List Bytes)
    → weight (next rooted e out) + kept es ≤ kept (e ∷ es) + weight out
next-le rooted e es out =
    if_cases (λ o. weight o + kept es ≤ kept (e ∷ es) + weight out)
      (is_empty e || decide (Bytes-discrete e (codes "."))) (λ _. omega (arith, kept_le e es))
      (λ full.
        if_cases (λ o. weight o + kept es ≤ kept (e ∷ es) + weight out)
          (decide (Bytes-discrete e (codes "..")))
          (λ dots. omega (
            arith,
            kept_cons e es (dots-length e dots).1,
            (dots-length e dots).0,
            up-le rooted out,
          ))
          (λ _. omega (arith, kept_cons e es (ground arith))))

clean-le :
    (rooted : Bool) (es out : List Bytes)
    → weight (clean_elements rooted es out) ≤ kept es + weight out
unfolding clean_elements
clean-le rooted [] out = omega arith
clean-le rooted (e ∷ es) out =
    omega (arith, clean-le rooted es (next rooted e out), next-le rooted e es out)

kept_all : (e : Bytes) (es : List Bytes) → kept (e ∷ es) ≤ suc (length e + kept es)
kept_all e es =
    if_cases (λ n. n ≤ suc (length e + kept es)) (is_empty e) (λ _. omega arith) (λ _. omega arith)

-- A text that ends with a slash has an empty element at its end.
head-le :
    (w s : Bytes)
    → is_empty (head_of s) ≡ false
    → kept (elements w (head_of s)) ≤ length w + length (head_of s)
unfolding head_of elements
head-le w [] e = absurd (ground arith)
head-le w (c ∷ s) e = elim (Bool-cases (is_empty (head_of s))) [
  | inl h ↦ elim (Bool-cases (c == 47)) [
    | inl k ↦ rw (h, k, k) (omega (arith, kept_all w ([] ∷ [])))
    | inr k ↦
        let none_left : is_empty (head_of (c ∷ s)) ≡ true = rw (h, k) refl in absurd (ground arith)
  ]
  | inr h ↦ elim (Bool-cases (c == 47)) [
    | inl k ↦ rw (h, k) (omega (arith, kept_all w (elements [] (head_of s)), head-le [] s h))
    | inr k ↦ rw (h, k) (omega (arith, head-le (w ++ (c ∷ [])) s h, length-append w (c ∷ [])))
  ]
]

assemble-length :
    (e : Bytes) (out : List Bytes) (tail : Bytes)
    → suc (length (assemble (e ∷ out) tail)) ≡ weight (e ∷ out) + length tail
assemble-length e [] tail = omega (arith, length-append e tail)
assemble-length e (f ∷ out) tail =
    omega (arith, assemble-length f out (47 ∷ (e ++ tail)), length-append e tail)

head_of-le : (s : Bytes) → length (head_of s) ≤ length s
unfolding head_of
head_of-le [] = omega arith
head_of-le (c ∷ s) = elim (Bool-cases (is_empty (head_of s))) [
  | inl h ↦ elim (Bool-cases (c == 47)) [
    | inl k ↦ rw (h, k) (omega arith)
    | inr k ↦ rw (h, k) (omega arith)
  ]
  | inr h ↦ rw h (omega (arith, head_of-le s))
]

assemble-le :
    (out : List Bytes) (n : ℕ) → weight out ≤ n → 1 ≤ n → suc (length (assemble out [])) ≤ n
assemble-le [] n h k = omega arith
assemble-le (e ∷ out) n h k = omega (arith, assemble-length e out [], h)

empty : (x : Bytes) → is_empty x ≡ true → x ≡ []
empty [] e = refl
empty (c ∷ x) e = absurd (ground arith)

rest-le : (s : Bytes) → kept (elements [] (head_of s)) ≤ length s
unfolding elements
rest-le s = elim (Bool-cases (is_empty (head_of s))) [
  | inl h ↦ rw (empty (head_of s) h) (omega arith)
  | inr h ↦ omega (arith, head-le [] s h, head_of-le s)
]

head_of-slash : (c : ℕ) (r : Bytes) → (c == 47) ≡ true → head_of (c ∷ r) ≡ c ∷ head_of r
unfolding head_of
head_of-slash c r slash = elim (Bool-cases (is_empty (head_of r))) [
  | inl h ↦ rw (h, slash, empty (head_of r) h) refl
  | inr h ↦ rw h refl
]

clean-slash :
    (c : ℕ) (h : Bytes)
    → (c == 47) ≡ true
    → clean (c ∷ h) ≡ 47 ∷ assemble (clean_elements true (elements [] h) []) []
unfolding clean elements clean_elements
clean-slash c h slash = rw slash refl

-- The directory of an absolute path that is not the root is absolute, and shorter.
pub dir-le :
    (c d : ℕ) (s : Bytes)
    → (c == 47) ≡ true
    → (is_abs (dir (c ∷ d ∷ s)) ≡ true) × (length (dir (c ∷ d ∷ s)) ≤ suc (length s))
dir-le c d s slash =
    let r : Bytes = d ∷ s in
    let out = clean_elements true (elements [] (head_of r)) [] in
    let short : weight out ≤ suc (length s) =
      omega (arith, clean-le true (elements [] (head_of r)) [], rest-le r) in
    rw (head_of-slash c r slash, clean-slash c (head_of r) slash)
      (refl, assemble-le out (suc (length s)) short (omega arith))
