-- ===== src/Touch/Descriptor.antt =====
-- `Descriptor` of internal/touch/report.go: the input reports of a FIDO HID report descriptor.
pub mod Items
pub mod Layouts
pub mod Ends
use Prim.Native.Nat.{bit_or}
use mathlib.Core.Option
use gtkaskpass_yubikey.Base.{
  ℕ, zero, suc, ◌+◌, ◌*◌, ◌/◌, ◌%◌, ◌^◌, ◌-◌, Bool, true, false, not, ◌&&◌, ◌||◌, Option, none,
  some, List, [], ◌∷◌, Bytes, ℕ_discrete, length, take, drop, ltb, leb, ◌==◌, is_empty, is_some,
  if◌then◌else◌,
}
use gtkaskpass_yubikey.Base.Maps.{lookup, insert}

-- Report identifiers with the length of the report on the wire; 0 stands for unnumbered reports.
abbrev pub Layout : Type 0
Layout = List (ℕ × ℕ)

-- `fuel` belongs to the model only.
pub data Outcome {ℓ} (A : Type ℓ) : Type ℓ where
  done : A → Outcome A
  bad : Outcome A
  fuel : Outcome A

infixl 5 ◌>>=◌
abbrev pub ◌>>=◌ {ℓ κ} : {A : Type ℓ} {B : Type κ} → Outcome A → (A → Outcome B) → Outcome B
done a >>= f = f a
bad >>= f = bad
fuel >>= f = fuel

pub record Globals : Type 0 where
  pub page : ℕ
  pub size : ℕ
  pub count : ℕ
  pub id : ℕ

-- The variables of `Descriptor`. The head of a list is the top of its stack.
pub record Parser : Type 0 where
  pub g : Globals
  pub stack : List Globals
  pub collections : List Bool
  pub usage : ℕ
  pub has_usage : Bool
  pub bits : List (ℕ × ℕ)
  pub fido : List (ℕ × Bool)
  pub other : List (ℕ × Bool)
  pub numbered : Bool

pub record Item : Type 0 where
  pub typ : ℕ
  pub tag : ℕ
  pub size : ℕ
  pub value : ℕ

abbrev pub start : Parser
start = record {
  g = record { page = 0; size = 0; count = 0; id = 0 };
  stack = [];
  collections = [];
  usage = 0;
  has_usage = false;
  bits = [];
  fido = [];
  other = [];
  numbered = false;
}

-- A missing key reads as the zero value.
abbrev pub number_at : ℕ → List (ℕ × ℕ) → ℕ
number_at k m = Option.get_or (lookup ℕ_discrete k m) 0

abbrev pub flag_at : ℕ → List (ℕ × Bool) → Bool
flag_at k m = Option.get_or (lookup ℕ_discrete k m) false

-- `v |= uint32(b) << (8 * j)` over the bytes of an item.
unfoldable pub join_bytes : ℕ → ℕ → Bytes → ℕ
join_bytes j v [] = v
join_bytes j v (b ∷ bs) = join_bytes (j + 1) (bit_or v (b * 2 ^ (8 * j) % 2 ^ 32)) bs

-- The number of data bytes after a prefix.
abbrev pub data_size : ℕ → ℕ
data_size prefix = if prefix % 4 == 3 then 4 else prefix % 4

-- Read the item behind a prefix byte.
unfoldable pub read_item : ℕ → Bytes → Outcome (Item × Bytes)
read_item prefix rest =
    let n = data_size prefix in
    if prefix == 0xfe
    then bad
    else if ltb (length rest) n
    then bad
    else done (
      record {
        typ = prefix / 4 % 4;
        tag = prefix / 16;
        size = n;
        value = join_bytes 0 0 (take n rest);
      },
      drop n rest,
    )

abbrev pop : Parser → List Globals → Outcome Parser
pop p [] = bad
pop p (g ∷ stack) = done (record p { g = g; stack = stack })

unfoldable pub global_item : Parser → ℕ → ℕ → Outcome Parser
global_item p tag v =
    if tag == 0
    then (if ltb 0xffff v then bad else done (record p { g = record (p.g) { page = v } }))
    else if tag == 7
    then done (record p { g = record (p.g) { size = v } })
    else if tag == 8
    then (if v == 0 || ltb 255 v
        then bad
        else done (record p { g = record (p.g) { id = v }; numbered = true }))
    else if tag == 9
    then done (record p { g = record (p.g) { count = v } })
    else if tag == 10
    then (if leb 16 (length p.stack) then bad else done (record p { stack = p.g ∷ p.stack }))
    else if tag == 11
    then pop p p.stack
    else done p

unfoldable pub local_item : Parser → ℕ → ℕ → ℕ → Parser
local_item p tag n v =
    if tag == 0
    then record p {
      usage = if ltb n 4 then bit_or v (p.g.page * 2 ^ 16 % 2 ^ 32) else v;
      has_usage = true;
    }
    else p

abbrev pub top : List Bool → Bool
top [] = false
top (c ∷ cs) = c

abbrev close_collection : Parser → List Bool → Outcome Parser
close_collection p [] = bad
close_collection p (c ∷ cs) = done (record p { collections = cs })

-- Is the size of a report missing or too large?
abbrev pub bad_size : Globals → Bool
bad_size g =
    g.size == 0
    || g.count == 0
    || ltb 8192 g.size
    || ltb 8192 g.count
    || ltb 8192 (g.size * g.count % 2 ^ 32)

-- `bits[g.id]` after an item.
abbrev pub total_bits : Parser → ℕ
total_bits p = (number_at p.g.id p.bits + p.g.size * p.g.count) % 2 ^ 32

-- The maps of `Descriptor` after an Input item.
abbrev pub note_input : Parser → Bool → ℕ → Parser
note_input p inside v =
    let bits = insert ℕ_discrete p.g.id (total_bits p) p.bits in
    if inside && v % 2 == 0
    then record p { bits = bits; fido = insert ℕ_discrete p.g.id true p.fido }
    else record p { bits = bits; other = insert ℕ_discrete p.g.id true p.other }

-- An Input item: reports of `size * count` bits under the current identifier.
unfoldable pub input_item : Parser → Bool → ℕ → Outcome Parser
input_item p inside v =
    if bad_size p.g
    then bad
    else if ltb 8192 (total_bits p)
    then bad
    else done (note_input p inside v)

unfoldable pub main_tag : Parser → ℕ → ℕ → Outcome Parser
main_tag p tag v =
    let inside = top p.collections in
    if tag == 10
    then (if leb 32 (length p.collections)
        then bad
        else done (record p {
          collections = (inside || v == 1 && p.has_usage && p.usage == 0xf1d00001) ∷ p.collections;
        }))
    else if tag == 12
    then close_collection p p.collections
    else if tag == 8
    then input_item p inside v
    else done p

unfoldable pub main_item : Parser → ℕ → ℕ → Outcome Parser
main_item p tag v = do q ← main_tag p tag v; done (record q { has_usage = false; usage = 0 })

-- One round of the loop.
unfoldable pub item : Parser → Item → Outcome Parser
item p i =
    if i.typ == 1
    then global_item p i.tag i.value
    else if i.typ == 2
    then done (local_item p i.tag i.size i.value)
    else if i.typ == 0
    then main_item p i.tag i.value
    else done p

unfoldable pub items : ℕ → Bytes → Parser → Outcome Parser
items n [] p = done p
items zero (prefix ∷ rest) p = fuel
items (suc n) (prefix ∷ rest) p = do
  (i, rest') ← read_item prefix rest
  q ← item p i
  items n rest' q

-- Reports that are not FIDO's alone, or not whole bytes, or too short.
abbrev pub unusable : Parser → ℕ → ℕ → Bool
unusable p id b = not (flag_at id p.fido) || flag_at id p.other || not (b % 8 == 0) || ltb (b / 8) 8

-- The loop that makes the result.
unfoldable pub collect : Parser → List (ℕ × ℕ) → Outcome Layout
collect p [] = done []
collect p ((id, b) ∷ m) =
    let rest = collect p m in
    if unusable p id b then rest else if p.numbered && id == 0 then bad else (do
      layout ← rest
      done (insert ℕ_discrete id (if p.numbered then b / 8 + 1 else b / 8) layout))

unfoldable pub finish : Parser → Outcome Layout
finish p = if not (is_empty p.collections) || not (is_empty p.stack) then bad else collect p p.bits

unfoldable pub descriptor : Bytes → Outcome Layout
descriptor text =
    if is_empty text || ltb 4096 (length text)
    then bad
    else (do p ← items (length text) text start; finish p)
