-- ===== src/Touch/Descriptor/Ends.antt =====
-- `Descriptor` reads its text to the end: the model's fuel does not run out.
use gtkaskpass_yubikey.Base.{
  ℕ, zero, suc, ◌≡◌, ◌≢◌, ◌≤◌, refl, Bool, List, [], ◌∷◌, Bytes, length, length-drop-le, arith,
  ◌==◌, ◌⊎◌, inl, inr, if_cases, ◌&&◌,
}
use gtkaskpass_yubikey.Touch.Descriptor.{
  Outcome, done, bad, fuel, ◌>>=◌, Globals, Parser, Item, start, pop, close_collection, read_item,
  global_item, input_item, main_tag, main_item, item, items, collect, finish, descriptor, data_size,
  Layout, unusable,
}

-- The fuel runs out in a sequence only where it does in a part.
>>=-ne-fuel {ℓ κ} :
    {A : Type ℓ} {B : Type κ} (r : Outcome A) (f : A → Outcome B)
    → r ≢ fuel
    → ((a : A) → r ≡ done a → f a ≢ fuel)
    → (r >>= f) ≢ fuel
>>=-ne-fuel (done a) f h k = k a refl
>>=-ne-fuel bad f h k = λ e. cc
>>=-ne-fuel fuel f h k = λ e. h refl

pop-ne-fuel : (p : Parser) (m : List Globals) → pop p m ≢ fuel
pop-ne-fuel p [] e = cc
pop-ne-fuel p (g ∷ m) e = cc

close-ne-fuel : (p : Parser) (m : List Bool) → close_collection p m ≢ fuel
close-ne-fuel p [] e = cc
close-ne-fuel p (c ∷ m) e = cc

global-ne-fuel : (p : Parser) (tag v : ℕ) → global_item p tag v ≢ fuel
unfolding global_item
global-ne-fuel p tag v = ground (arith, pop-ne-fuel p p.stack)

main-ne-fuel : (p : Parser) (tag v : ℕ) → main_item p tag v ≢ fuel
unfolding main_item main_tag input_item
main-ne-fuel p tag v =
    >>=-ne-fuel (main_tag p tag v) _ (ground (arith, close-ne-fuel p p.collections)) (λ q _ e. cc)

item-ne-fuel : (p : Parser) (i : Item) → item p i ≢ fuel
unfolding item
item-ne-fuel p i = ground (arith, global-ne-fuel p i.tag i.value, main-ne-fuel p i.tag i.value)

read_item-ne-fuel : (prefix : ℕ) (rest : Bytes) → read_item prefix rest ≢ fuel
unfolding read_item
read_item-ne-fuel prefix rest = ground arith

-- An item is behind its prefix.
length-read_item-le :
    (prefix : ℕ) (rest : Bytes) (r : Item × Bytes)
    → read_item prefix rest ≡ done r
    → length r.1 ≤ length rest
unfolding read_item
length-read_item-le prefix rest r e = ground (arith, length-drop-le (data_size prefix) rest)

items-ne-fuel : (n : ℕ) (text : Bytes) (p : Parser) → length text ≤ n → items n text p ≢ fuel
unfolding items
items-ne-fuel zero [] p h = λ e. cc
items-ne-fuel (suc n) [] p h = λ e. cc
items-ne-fuel zero (prefix ∷ rest) p h = absurd (omega arith)
items-ne-fuel (suc n) (prefix ∷ rest) p h =
    >>=-ne-fuel (read_item prefix rest) _ (read_item-ne-fuel prefix rest) λ r e.
      >>=-ne-fuel (item p r.0) _ (item-ne-fuel p r.0)
        λ q _. items-ne-fuel n r.1 q (omega (arith, length-read_item-le prefix rest r e))

collect-ne-fuel : (p : Parser) (m : List (ℕ × ℕ)) → collect p m ≢ fuel
unfolding collect
collect-ne-fuel p [] = λ e. cc
collect-ne-fuel p ((id, b) ∷ m) =
    if_cases (λ r. r ≢ fuel) (unusable p id b) (λ _. collect-ne-fuel p m)
      λ _.
        if_cases (λ r. r ≢ fuel) (p.numbered && id == 0) {x = bad} (λ _ e. cc)
          λ _. >>=-ne-fuel (collect p m) _ (collect-ne-fuel p m) (λ layout _ e. cc)

finish-ne-fuel : (p : Parser) → finish p ≢ fuel
unfolding finish
finish-ne-fuel p = ground (arith, collect-ne-fuel p p.bits)

-- As many rounds as the text has bytes are enough, so `Descriptor` ends with a layout or its error.
pub descriptor-total :
    (text : Bytes) → ((layout : Layout) × (descriptor text ≡ done layout)) ⊎ (descriptor text ≡ bad)
descriptor-total text = cases (descriptor text) refl
  where
    never : descriptor text ≢ fuel
    never =
        unfold descriptor in
        ground (
          arith,
          >>=-ne-fuel (items (length text) text start) finish
              (items-ne-fuel (length text) text start (omega arith)) (λ p _. finish-ne-fuel p),
        )

    cases :
        (r : Outcome Layout)
        → descriptor text ≡ r
        → ((layout : Layout) × (descriptor text ≡ done layout)) ⊎ (descriptor text ≡ bad)
    cases (done layout) e = inl (layout, e)
    cases bad e = inr e
    cases fuel e = absurd (never e)
