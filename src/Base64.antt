-- ===== src/Base64.antt =====
-- What the code uses of Go's `encoding/base64`: RawStdEncoding, decoding in strict mode.
pub mod RoundTrip
use gtkaskpass_yubikey.Base.{
  ℕ, ◌+◌, ◌-◌, ◌*◌, ◌/◌, ◌%◌, Bool, ◌&&◌, ◌||◌, Option, none, some, List, [], ◌∷◌, Bytes, ◌==◌, ltb,
  leb, if◌then◌else◌,
}

infixl 5 ◌>>=◌
abbrev pub ◌>>=◌ : {A B : Type 0} → Option A → (A → Option B) → Option B
none >>= f = none
some a >>= f = f a

-- The character of a 6-bit value.
unfoldable pub digit : ℕ → ℕ
digit n =
    if ltb n 26
    then b'A' + n
    else if ltb n 52
    then b'a' + (n - 26)
    else if ltb n 62
    then b'0' + (n - 52)
    else if n == 62
    then b'+'
    else b'/'

-- The 6-bit value of a character of the alphabet.
unfoldable pub value : ℕ → Option ℕ
value c =
    if leb b'A' c && leb c b'Z'
    then some (c - b'A')
    else if leb b'a' c && leb c b'z'
    then some (c - b'a' + 26)
    else if leb b'0' c && leb c b'9'
    then some (c - b'0' + 52)
    else if c == b'+'
    then some 62
    else if c == b'/'
    then some 63
    else none

-- EncodeToString
unfoldable pub encode : Bytes → Bytes
encode [] = []
encode (a ∷ []) = digit (a / 4) ∷ digit (a % 4 * 16) ∷ []
encode (a ∷ b ∷ []) = digit (a / 4) ∷ digit (a % 4 * 16 + b / 16) ∷ digit (b % 16 * 4) ∷ []
encode (a ∷ b ∷ c ∷ s) =
    digit (a / 4)
    ∷ digit (a % 4 * 16 + b / 16)
    ∷ digit (b % 16 * 4 + c / 64)
    ∷ digit (c % 64)
    ∷ encode s

-- The decoder passes over line breaks.
unfoldable pub without_breaks : Bytes → Bytes
without_breaks [] = []
without_breaks (c ∷ s) =
    let rest = without_breaks s in if c == b'\r' || c == b'\n' then rest else c ∷ rest

-- Groups of four digits. In a shorter last group the bits that are left over must be zero, and no
-- group has one digit.
unfoldable pub decode_digits : Bytes → Option Bytes
decode_digits [] = some []
decode_digits (a ∷ []) = none
decode_digits (a ∷ b ∷ []) = do
  x ← value a
  y ← value b
  if y % 16 == 0 then some ((x * 4 + y / 16) ∷ []) else none
decode_digits (a ∷ b ∷ c ∷ []) = do
  x ← value a
  y ← value b
  z ← value c
  if z % 4 == 0 then some ((x * 4 + y / 16) ∷ (y % 16 * 16 + z / 4) ∷ []) else none
decode_digits (a ∷ b ∷ c ∷ d ∷ s) = do
  x ← value a
  y ← value b
  z ← value c
  w ← value d
  rest ← decode_digits s
  some ((x * 4 + y / 16) ∷ (y % 16 * 16 + z / 4) ∷ (z % 4 * 64 + w) ∷ rest)

-- Strict().DecodeString
unfoldable pub decode : Bytes → Option Bytes
unfolding without_breaks decode_digits value
decode s = decode_digits (without_breaks s)
