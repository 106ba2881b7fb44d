-- ===== src/Text/Decimal.antt =====
-- What the code uses of `fmt` and `strconv`: `%d` and `Atoi`.
use gtkaskpass_yubikey.Base.{
  ℕ, zero, suc, ◌+◌, ◌-◌, ◌*◌, ◌/◌, ◌%◌, ◌^◌, ◌≤◌, ◌<◌, ◌≡◌, ◌≢◌, sym, ap, ◌∙◌, Bool, true, false,
  Option, none, some, [], ◌∷◌, ◌++◌, Bytes, All, drop, ◌==◌, ltb, is_empty, if◌then◌else◌, arith,
  Bool-cases, inl, inr,
}
use gtkaskpass_yubikey.Base.Int.{ℤ, pos, negsuc}
use gtkaskpass_yubikey.Text.{within}

-- The digits of a number below 10 ^ fuel, with fuel at least one.
unfoldable pub digits : ℕ → ℕ → Bytes
digits zero n = (48 + n % 10) ∷ []
digits (suc fuel) n =
    let rest = digits fuel (n / 10) in
    if ltb n 10 then (48 + n) ∷ [] else rest ++ ((48 + n % 10) ∷ [])

-- `%d` of an unsigned number
abbrev pub decimal : ℕ → Bytes
decimal n = digits n n

-- `%d`
abbrev pub itoa : ℤ → Bytes
itoa (pos n) = decimal n
itoa (negsuc n) = 45 ∷ decimal (suc n)

abbrev pub IsDigit : ℕ → Type 0
IsDigit c = within 48 57 c ≡ true

unfoldable pub read_digits : ℕ → Bytes → Option ℕ
read_digits n [] = some n
read_digits n (c ∷ cs) = if within 48 57 c then read_digits (n * 10 + (c - 48)) cs else none

-- An int64 with a sign.
abbrev in_range : Bool → Option ℕ → Option ℤ
in_range minus none = none
in_range false (some n) = if ltb n (2 ^ 63) then some (pos n) else none
in_range true (some zero) = some (pos 0)
in_range true (some (suc n)) = if ltb n (2 ^ 63) then some (negsuc n) else none

abbrev atoi_unsigned : Bool → Bytes → Option ℤ
atoi_unsigned minus text = if is_empty text then none else in_range minus (read_digits 0 text)

-- strconv.Atoi
unfoldable pub atoi : Bytes → Option ℤ
atoi [] = none
atoi (c ∷ cs) =
    if c == 45
    then atoi_unsigned true cs
    else if c == 43
    then atoi_unsigned false cs
    else atoi_unsigned false (c ∷ cs)

snoc-IsDigit : (xs : Bytes) (y : ℕ) → All IsDigit xs → IsDigit y → All IsDigit (xs ++ (y ∷ []))
snoc-IsDigit [] y h p = (p, tt)
snoc-IsDigit (x ∷ xs) y h p = (h.0, snoc-IsDigit xs y h.1 p)

read_digit : (n : ℕ) → read_digits (n / 10) ((48 + n % 10) ∷ []) ≡ some n
unfolding read_digits
read_digit n = ground arith

pub read_digits-append :
    (n m : ℕ) (xs ys : Bytes)
    → read_digits n xs ≡ some m
    → read_digits n (xs ++ ys) ≡ read_digits m ys
unfolding read_digits
read_digits-append n m [] ys h = ground arith
read_digits-append n m (c ∷ xs) ys h =
    ground (arith, read_digits-append (n * 10 + (c - 48)) m xs ys)

pub read-digits : (fuel n : ℕ) → n ≤ fuel → read_digits 0 (digits fuel n) ≡ some n
unfolding digits read_digits
read-digits zero n h = ground arith
read-digits (suc fuel) n h = elim (Bool-cases (ltb n 10)) [
  | inl e ↦ ground (arith, e)
  | inr e ↦ rw e (
      read_digits-append 0 (n / 10) (digits fuel (n / 10)) ((48 + n % 10) ∷ [])
        (read-digits fuel (n / 10) (omega arith))
      ∙ read_digit n)
]

pub digits-IsDigit : (fuel n : ℕ) → All IsDigit (digits fuel n)
unfolding digits
digits-IsDigit zero n = (ground arith, tt)
digits-IsDigit (suc fuel) n = elim (Bool-cases (ltb n 10)) [
  | inl e ↦ rw e (ground (arith, e), tt)
  | inr e ↦ rw e (
      snoc-IsDigit (digits fuel (n / 10)) (48 + n % 10) (digits-IsDigit fuel (n / 10))
        (ground arith))
]

-- A number begins with a digit, so with neither sign.
data IsNumber : Bytes → Type 0 where
  number : (c : ℕ) (cs : Bytes) → IsDigit c → IsNumber (c ∷ cs)

append-IsNumber : (xs ys : Bytes) → IsNumber xs → IsNumber (xs ++ ys)
append-IsNumber _ ys (number c xs h) = number c (xs ++ ys) h

digits-IsNumber : (fuel n : ℕ) → IsNumber (digits fuel n)
unfolding digits
digits-IsNumber zero n = number (48 + n % 10) [] (ground arith)
digits-IsNumber (suc fuel) n = elim (Bool-cases (ltb n 10)) [
  | inl e ↦ rw e (number (48 + n) [] (ground (arith, e)))
  | inr e ↦
      rw e (
        append-IsNumber (digits fuel (n / 10)) ((48 + n % 10) ∷ []) (digits-IsNumber fuel (n / 10)))
]

atoi-IsNumber :
    (text : Bytes) (n : ℕ)
    → IsNumber text
    → read_digits 0 text ≡ some n
    → n < 2 ^ 63
    → atoi text ≡ some (pos n)
unfolding atoi
atoi-IsNumber _ n (number c cs d) e h =
    let plain : atoi (c ∷ cs) ≡ in_range false (read_digits 0 (c ∷ cs)) = ground (arith, d) in
    plain ∙ rw e (ground (arith, h))

-- What `%d` prints of a number in range, `Atoi` reads back.
pub atoi-decimal : (n : ℕ) → n < 2 ^ 63 → atoi (decimal n) ≡ some (pos n)
atoi-decimal n h =
    atoi-IsNumber (decimal n) n (digits-IsNumber n n) (read-digits n n (omega arith)) h

pub decimal-injective : (m n : ℕ) → decimal m ≡ decimal n → m ≡ n
decimal-injective m n h =
    let same : some m ≡ some n =
      sym (read-digits m m (omega arith)) ∙ ap (read_digits 0) h ∙ read-digits n n (omega arith) in
    cc

no_sign : (m : ℕ) (text : Bytes) → IsNumber text → ◌≢◌ {A = Bytes} (45 ∷ decimal m) text
no_sign m _ (number c cs d) e = ground (arith, e, d)

negative-differs : (m n : ℕ) → ◌≢◌ {A = Bytes} (45 ∷ decimal m) (decimal n)
negative-differs m n h = no_sign m (decimal n) (digits-IsNumber n n) h

pub itoa-injective : (a b : ℤ) → itoa a ≡ itoa b → a ≡ b
itoa-injective (pos m) (pos n) h = ap pos (decimal-injective m n h)
itoa-injective (pos m) (negsuc n) h = absurd (negative-differs (suc n) m (sym h))
itoa-injective (negsuc m) (pos n) h = absurd (negative-differs (suc m) n h)
itoa-injective (negsuc m) (negsuc n) h =
    let tails : decimal (suc m) ≡ decimal (suc n) = ap (drop 1) h in
    let same = decimal-injective (suc m) (suc n) tails in ap negsuc (omega (arith, same))
