-- ===== src/Touch/Descriptor/Items.antt =====
-- What holds of the variables of `Descriptor` after each item.
use mathlib.Core.Path.{subst, subst₂}
use gtkaskpass_yubikey.Base.{
  ℕ, zero, suc, ◌%◌, ◌≡◌, ◌≤◌, refl, Bool, true, false, ◌&&◌, ◌||◌, List, [], ◌∷◌, Bytes,
  ℕ_discrete, All, length, arith, if_cases, Bool-cases, inl, inr, ltb, leb, ◌==◌,
}
use gtkaskpass_yubikey.Base.Maps.{insert, Distinct, All-insert, insert-Distinct, All-map}
use gtkaskpass_yubikey.Touch.Descriptor.{
  Outcome, done, bad, fuel, ◌>>=◌, Globals, Parser, Item, read_item, global_item, local_item,
  input_item, main_tag, main_item, item, items, top, bad_size, total_bits, note_input, pop,
  close_collection,
}

-- Each result has the property.
pub record Ensures {ℓ κ} {A : Type ℓ} (P : A → Type κ) (r : Outcome A) : Type (ℓ ⊔ κ) where
  pub holds : (a : A) → r ≡ done a → P a

module _ {ℓ κ} {A : Type ℓ} {P : A → Type κ} where
  pub Ensures-done : {a : A} → P a → Ensures P (done a)
  Ensures-done {a} p = record { holds = λ b e. subst P (done-injective e) p }
    where
      done-injective : {b : A} → done a ≡ done b → a ≡ b
      done-injective e = cc

  pub Ensures-bad : Ensures P bad
  Ensures-bad = record { holds = λ b e. absurd (cc) }

  Ensures-fuel : Ensures P fuel
  Ensures-fuel = record { holds = λ b e. absurd (cc) }

  pub Ensures-bind {ℓ' κ'} :
      {B : Type ℓ'} {Q : B → Type κ'} (r : Outcome B) (f : B → Outcome A)
      → Ensures Q r
      → ((b : B) → Q b → Ensures P (f b))
      → Ensures P (r >>= f)
  Ensures-bind (done b) f h k = k b (h.holds b refl)
  Ensures-bind bad f h k = Ensures-bad
  Ensures-bind fuel f h k = Ensures-fuel

-- Report identifiers are bytes, and 0 until an identifier has been seen.
abbrev pub IsId : Bool → ℕ → Type 0
IsId true id = id ≤ 255
IsId false id = id ≡ 0

pub record IsParser (p : Parser) : Type 0 where
  pub current : IsId p.numbered p.g.id
  pub saved : All (λ g. IsId p.numbered g.id) p.stack
  pub keys : All (λ q. IsId p.numbered q.0) p.bits
  pub sizes : All (λ q. q.1 ≤ 8192) p.bits
  pub distinct : Distinct ℕ_discrete p.bits

IsId-mono : (b : Bool) (id : ℕ) → IsId b id → IsId true id
IsId-mono true id h = h
IsId-mono false id h = omega arith

All-list-map {ℓ κ} :
    {A : Type ℓ} (P Q : A → Type κ) (m : List A) → ((a : A) → P a → Q a) → All P m → All Q m
All-list-map P Q [] f h = tt
All-list-map P Q (a ∷ m) f h = (f a h.0, All-list-map P Q m f h.1)

-- The parser at its first identifier, or a later one.
identify :
    (p : Parser) (v : ℕ)
    → IsParser p
    → v ≤ 255
    → IsParser (record p { g = record (p.g) { id = v }; numbered = true })
identify p v h b = record {
  current = b;
  saved = All-list-map _ _ p.stack (λ g. IsId-mono p.numbered g.id) h.saved;
  keys = All-map _ _ p.bits (λ id n. IsId-mono p.numbered id) h.keys;
  sizes = h.sizes;
  distinct = h.distinct;
}

-- A parser that differs in nothing that the invariant reads.
recast :
    (p : Parser) {q : Parser}
    → IsParser p
    → p.g.id ≡ q.g.id
    → p.stack ≡ q.stack
    → p.bits ≡ q.bits
    → p.numbered ≡ q.numbered
    → IsParser q
recast p h a b c d = record {
  current = subst₂ IsId d a h.current;
  saved = subst₂ (λ n (m : List Globals). All (λ g. IsId n g.id) m) d b h.saved;
  keys = subst₂ (λ n (m : List (ℕ × ℕ)). All (λ x. IsId n x.0) m) d c h.keys;
  sizes = subst (All (λ x. x.1 ≤ 8192)) c h.sizes;
  distinct = subst (Distinct ℕ_discrete) c h.distinct;
}

push : (p : Parser) → IsParser p → IsParser (record p { stack = p.g ∷ p.stack })
push p h = record {
  current = h.current;
  saved = (h.current, h.saved);
  keys = h.keys;
  sizes = h.sizes;
  distinct = h.distinct;
}

popped :
    (p : Parser) (g : Globals) (stack : List Globals)
    → p.stack ≡ g ∷ stack
    → IsParser p
    → IsParser (record p { g = g; stack = stack })
popped p g stack e h =
    let saved = subst (All (λ x. IsId p.numbered x.id)) e h.saved in
    record {
      current = saved.0;
      saved = saved.1;
      keys = h.keys;
      sizes = h.sizes;
      distinct = h.distinct;
    }

pop-IsParser :
    (p : Parser) (m : List Globals) → p.stack ≡ m → IsParser p → Ensures IsParser (pop p m)
pop-IsParser p [] e h = Ensures-bad
pop-IsParser p (g ∷ m) e h = Ensures-done (popped p g m e h)

global_item-IsParser :
    (p : Parser) (tag v : ℕ) → IsParser p → Ensures IsParser (global_item p tag v)
unfolding global_item
global_item-IsParser p tag v h =
    if_cases (Ensures IsParser) (tag == 0)
      (λ _.
        if_cases (Ensures IsParser) (ltb 0xffff v) (λ _. Ensures-bad)
          (λ _. Ensures-done (recast p h refl refl refl refl)))
      λ _.
        if_cases (Ensures IsParser) (tag == 7) (λ _. Ensures-done (recast p h refl refl refl refl))
          λ _.
            if_cases (Ensures IsParser) (tag == 8)
              (λ _.
                if_cases (Ensures IsParser) (v == 0 || ltb 255 v) (λ _. Ensures-bad)
                  (λ small. Ensures-done (identify p v h (ground arith))))
              λ _.
                if_cases (Ensures IsParser) (tag == 9)
                  (λ _. Ensures-done (recast p h refl refl refl refl))
                  λ _.
                    if_cases (Ensures IsParser) (tag == 10)
                      (λ _.
                        if_cases (Ensures IsParser) (leb 16 (length p.stack)) (λ _. Ensures-bad)
                          (λ _. Ensures-done (push p h)))
                      λ _.
                        if_cases (Ensures IsParser) (tag == 11) (λ _. pop-IsParser p p.stack refl h)
                          (λ _. Ensures-done h)

local_item-IsParser : (p : Parser) (tag n v : ℕ) → IsParser p → IsParser (local_item p tag n v)
unfolding local_item
local_item-IsParser p tag n v h =
    if_cases IsParser (tag == 0) (λ _. recast p h refl refl refl refl) (λ _. h)

counted :
    (p : Parser) (total : ℕ)
    → IsParser p
    → total ≤ 8192
    → IsParser (record p { bits = insert ℕ_discrete p.g.id total p.bits })
counted p total h small = record {
  current = h.current;
  saved = h.saved;
  keys = All-insert ℕ_discrete (λ q. IsId p.numbered q.0) p.g.id total p.bits h.current h.keys;
  sizes = All-insert ℕ_discrete (λ q. q.1 ≤ 8192) p.g.id total p.bits small h.sizes;
  distinct = insert-Distinct ℕ_discrete p.g.id total p.bits h.distinct;
}

note_input-IsParser :
    (p : Parser) (inside : Bool) (v : ℕ)
    → IsParser (record p { bits = insert ℕ_discrete p.g.id (total_bits p) p.bits })
    → IsParser (note_input p inside v)
note_input-IsParser p inside v c = elim (Bool-cases (inside && v % 2 == 0)) [
  | inl e ↦ rw e (recast _ c refl refl refl refl)
  | inr e ↦ rw e (recast _ c refl refl refl refl)
]

input_item-IsParser :
    (p : Parser) (inside : Bool) (v : ℕ) → IsParser p → Ensures IsParser (input_item p inside v)
unfolding input_item
input_item-IsParser p inside v h =
    if_cases (Ensures IsParser) (bad_size p.g) (λ _. Ensures-bad)
      λ _.
        if_cases (Ensures IsParser) (ltb 8192 (total_bits p)) (λ _. Ensures-bad)
          λ small.
            Ensures-done
              (note_input-IsParser p inside v (counted p (total_bits p) h (ground arith)))

close-IsParser : (p : Parser) (m : List Bool) → IsParser p → Ensures IsParser (close_collection p m)
close-IsParser p [] h = Ensures-bad
close-IsParser p (c ∷ cs) h = Ensures-done (recast p h refl refl refl refl)

main_tag-IsParser : (p : Parser) (tag v : ℕ) → IsParser p → Ensures IsParser (main_tag p tag v)
unfolding main_tag
main_tag-IsParser p tag v h =
    if_cases (Ensures IsParser) (tag == 10)
      (λ _.
        if_cases (Ensures IsParser) (leb 32 (length p.collections)) (λ _. Ensures-bad)
          (λ _. Ensures-done (recast p h refl refl refl refl)))
      λ _.
        if_cases (Ensures IsParser) (tag == 12) (λ _. close-IsParser p p.collections h)
          λ _.
            if_cases (Ensures IsParser) (tag == 8)
              (λ _. input_item-IsParser p (top p.collections) v h) (λ _. Ensures-done h)

main_item-IsParser : (p : Parser) (tag v : ℕ) → IsParser p → Ensures IsParser (main_item p tag v)
unfolding main_item
main_item-IsParser p tag v h =
    Ensures-bind (main_tag p tag v) _ (main_tag-IsParser p tag v h)
      λ q k. Ensures-done (recast q k refl refl refl refl)

item-IsParser : (p : Parser) (i : Item) → IsParser p → Ensures IsParser (item p i)
unfolding item
item-IsParser p i h =
    if_cases (Ensures IsParser) (i.typ == 1) (λ _. global_item-IsParser p i.tag i.value h)
      λ _.
        if_cases (Ensures IsParser) (i.typ == 2)
          (λ _. Ensures-done (local_item-IsParser p i.tag i.size i.value h))
          λ _.
            if_cases (Ensures IsParser) (i.typ == 0) (λ _. main_item-IsParser p i.tag i.value h)
              (λ _. Ensures-done h)

pub anything {ℓ} : {A : Type ℓ} (r : Outcome A) → Ensures (λ _. Unit {0}) r
anything r = record { holds = λ a e. tt }

pub items-IsParser :
    (n : ℕ) (text : Bytes) (p : Parser) → IsParser p → Ensures IsParser (items n text p)
unfolding items
items-IsParser zero [] p h = Ensures-done h
items-IsParser (suc n) [] p h = Ensures-done h
items-IsParser zero (prefix ∷ rest) p h = Ensures-fuel
items-IsParser (suc n) (prefix ∷ rest) p h =
    Ensures-bind (read_item prefix rest) _ (anything _)
      λ r _. Ensures-bind (item p r.0) _ (item-IsParser p r.0 h) λ q k. items-IsParser n r.1 q k
