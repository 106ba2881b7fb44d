-- ===== src/Base64/RoundTrip.antt =====
-- Decoding gives back what was encoded.
use mathlib.Core.Path.{subst}
use gtkaskpass_yubikey.Base.{
  ℕ, ◌+◌, ◌*◌, ◌/◌, ◌%◌, ◌<◌, ◌≡◌, refl, Bool, true, false, Option, none, some, [], ◌∷◌, arith,
  Bytes, All, length, if◌then◌else◌,
}
use gtkaskpass_yubikey.Base64.{◌>>=◌, digit, value, encode, decode_digits, decode, without_breaks}

pub value-digit : (n : ℕ) → n < 64 → value (digit n) ≡ some n
unfolding value digit
value-digit n h = ground arith

abbrev pub IsByte : ℕ → Type 0
IsByte b = b < 256

digit-ne_break : (n : ℕ) → n < 64 → (13 < digit n)
unfolding digit
digit-ne_break n h = ground arith

without_breaks_none : (s : Bytes) → All (λ c. 13 < c) s → without_breaks s ≡ s
unfolding without_breaks
without_breaks_none [] h = refl
without_breaks_none (c ∷ s) h = ground (arith, without_breaks_none s h.1)

encode-All : (s : Bytes) → All IsByte s → All (λ c. 13 < c) (encode s)
unfolding encode
encode-All [] h = tt
encode-All (a ∷ []) h =
    (digit-ne_break (a / 4) (omega arith), (digit-ne_break (a % 4 * 16) (omega arith), tt))
encode-All (a ∷ b ∷ []) h = (
  digit-ne_break (a / 4) (omega arith),
  (
    digit-ne_break (a % 4 * 16 + b / 16) (omega arith),
    (digit-ne_break (b % 16 * 4) (omega arith), tt),
  ),
)
encode-All (a ∷ b ∷ c ∷ s) h = (
  digit-ne_break (a / 4) (omega arith),
  (
    digit-ne_break (a % 4 * 16 + b / 16) (omega arith),
    (
      digit-ne_break (b % 16 * 4 + c / 64) (omega arith),
      (digit-ne_break (c % 64) (omega arith), encode-All s h.1.1.1),
    ),
  ),
)

decode_digits-encode : (s : Bytes) → All IsByte s → decode_digits (encode s) ≡ some s
unfolding encode decode_digits
decode_digits-encode [] h = refl
decode_digits-encode (a ∷ []) h = ground (arith, value-digit (a / 4), value-digit (a % 4 * 16))
decode_digits-encode (a ∷ b ∷ []) h =
    ground (arith, value-digit (a / 4), value-digit (a % 4 * 16 + b / 16), value-digit (b % 16 * 4))
decode_digits-encode (a ∷ b ∷ c ∷ s) h = ground (
  arith,
  value-digit (a / 4),
  value-digit (a % 4 * 16 + b / 16),
  value-digit (b % 16 * 4 + c / 64),
  value-digit (c % 64),
  decode_digits-encode s h.1.1.1,
)

-- Decoding an encoded text gives the bytes back.
pub decode-encode : (s : Bytes) → All IsByte s → decode (encode s) ≡ some s
unfolding decode
decode-encode s h = rw (without_breaks_none (encode s) (encode-All s h)) (decode_digits-encode s h)

value-lt : (c n : ℕ) → value c ≡ some n → n < 64
unfolding value
value-lt c n e = ground arith

>>=-eq-some :
    {A B : Type 0} (m : Option A) (f : A → Option B) {b : B}
    → (m >>= f) ≡ some b
    → (a : A) × (m ≡ some a) × (f a ≡ some b)
>>=-eq-some none f e = cc
>>=-eq-some (some a) f e = (a, refl, e)

if-All :
    (t : Bool) (s d : Bytes) → (if t then some s else none) ≡ some d → All IsByte s → All IsByte d
if-All true s d e h = let same : s ≡ d = ground arith in subst (All IsByte) same h
if-All false s d e h = absurd (cc)

-- Decoded digits are bytes.
decode_digits-All : (s d : Bytes) → decode_digits s ≡ some d → All IsByte d
unfolding decode_digits
decode_digits-All [] d e = if-All true [] d e tt
decode_digits-All (a ∷ []) d e = absurd (cc)
decode_digits-All (a ∷ b ∷ []) d e =
    let (x, vx, e₁) = >>=-eq-some (value a) _ e in
    let (y, vy, e₂) = >>=-eq-some (value b) _ e₁ in
    if-All _ _ d e₂ (omega (arith, value-lt a x vx, value-lt b y vy), tt)
decode_digits-All (a ∷ b ∷ c ∷ []) d e =
    let (x, vx, e₁) = >>=-eq-some (value a) _ e in
    let (y, vy, e₂) = >>=-eq-some (value b) _ e₁ in
    let (z, vz, e₃) = >>=-eq-some (value c) _ e₂ in
    if-All _ _ d e₃ (
      omega (arith, value-lt a x vx, value-lt b y vy),
      (omega (arith, value-lt b y vy, value-lt c z vz), tt),
    )
decode_digits-All (a ∷ b ∷ c ∷ k ∷ s) d e =
    let (x, vx, e₁) = >>=-eq-some (value a) _ e in
    let (y, vy, e₂) = >>=-eq-some (value b) _ e₁ in
    let (z, vz, e₃) = >>=-eq-some (value c) _ e₂ in
    let (w, vw, e₄) = >>=-eq-some (value k) _ e₃ in
    let (rest, dec, e₅) = >>=-eq-some (decode_digits s) _ e₄ in
    if-All true _ d e₅ (
      omega (arith, value-lt a x vx, value-lt b y vy),
      (
        omega (arith, value-lt b y vy, value-lt c z vz),
        (omega (arith, value-lt c z vz, value-lt k w vw), decode_digits-All s rest dec),
      ),
    )

pub decode-All : (s d : Bytes) → decode s ≡ some d → All IsByte d
unfolding decode
decode-All s d e = decode_digits-All (without_breaks s) d e

-- Four digits for three bytes, with no padding.
pub length-encode : (s : Bytes) → length (encode s) ≡ (4 * length s + 2) / 3
unfolding encode
length-encode [] = omega arith
length-encode (a ∷ []) = omega arith
length-encode (a ∷ b ∷ []) = omega arith
length-encode (a ∷ b ∷ c ∷ s) = omega (arith, length-encode s)

-- Every character of an encoded text is in the alphabet.
pub encode-alphabet :
    (s : Bytes) → All IsByte s → All (λ c. (n : ℕ) × (value c ≡ some n)) (encode s)
unfolding encode
encode-alphabet [] h = tt
encode-alphabet (a ∷ []) h =
    ((a / 4, value-digit _ (omega arith)), ((a % 4 * 16, value-digit _ (omega arith)), tt))
encode-alphabet (a ∷ b ∷ []) h = (
  (a / 4, value-digit _ (omega arith)),
  (
    (a % 4 * 16 + b / 16, value-digit _ (omega arith)),
    ((b % 16 * 4, value-digit _ (omega arith)), tt),
  ),
)
encode-alphabet (a ∷ b ∷ c ∷ s) h = (
  (a / 4, value-digit _ (omega arith)),
  (
    (a % 4 * 16 + b / 16, value-digit _ (omega arith)),
    (
      (b % 16 * 4 + c / 64, value-digit _ (omega arith)),
      ((c % 64, value-digit _ (omega arith)), encode-alphabet s h.1.1.1),
    ),
  ),
)
