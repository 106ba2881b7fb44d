-- ===== src/Touch/Descriptor/Layouts.antt =====
-- Every layout that `Descriptor` accepts is fit for reading reports.
use gtkaskpass_yubikey.Base.{
  ℕ, ◌+◌, ◌/◌, ◌≡◌, ◌≢◌, ◌≤◌, refl, Bool, true, false, not, ◌&&◌, ◌||◌, List, [], ◌∷◌, Bytes,
  ℕ_discrete, All, length, arith, if_cases, if◌then◌else◌, ltb, ◌==◌, is_empty,
}
use gtkaskpass_yubikey.Base.Maps.{insert, Distinct, All-insert, insert-Distinct}
use gtkaskpass_yubikey.Touch.Descriptor.Items.{
  Ensures, Ensures-done, Ensures-bad, Ensures-bind, IsId, IsParser, items-IsParser,
}
use gtkaskpass_yubikey.Touch.Descriptor.{
  Layout, done, Parser, start, items, collect, finish, descriptor, unusable,
}

start-IsParser : IsParser start
start-IsParser = record { current = refl; saved = tt; keys = tt; sizes = tt; distinct = tt }

-- A report of a layout: its identifier is a byte, 0 exactly in a descriptor without identifiers, and
-- its length on the wire, with the identifier, is at least 8 and at most 1024 bytes of data.
abbrev pub IsReport : Bool → ℕ × ℕ → Type 0
IsReport true (id, n) = (id ≤ 255) × (id ≢ 0) × (9 ≤ n) × (n ≤ 1025)
IsReport false (id, n) = (id ≡ 0) × (8 ≤ n) × (n ≤ 1024)

-- What `collect` makes of the bits of a parser.
abbrev IsCollected : Bool → Layout → Type 0
IsCollected numbered layout = All (IsReport numbered) layout × Distinct ℕ_discrete layout

added :
    (numbered : Bool) (id b : ℕ) (layout : Layout)
    → IsId numbered id
    → b ≤ 8192
    → ltb (b / 8) 8 ≡ false
    → (numbered && id == 0) ≡ false
    → IsCollected numbered layout
    → IsCollected numbered (insert ℕ_discrete id (if numbered then b / 8 + 1 else b / 8) layout)
added true id b layout h small large zero_free c = (
  All-insert ℕ_discrete (IsReport true) id _ layout (ground arith) c.0,
  insert-Distinct ℕ_discrete id _ layout c.1,
)
added false id b layout h small large zero_free c = (
  All-insert ℕ_discrete (IsReport false) id _ layout (ground arith) c.0,
  insert-Distinct ℕ_discrete id _ layout c.1,
)

collect-IsCollected :
    (p : Parser) (m : List (ℕ × ℕ))
    → All (λ q. IsId p.numbered q.0) m
    → All (λ q. q.1 ≤ 8192) m
    → Ensures (IsCollected p.numbered) (collect p m)
unfolding collect
collect-IsCollected p [] h k = Ensures-done (tt, tt)
collect-IsCollected p ((id, b) ∷ m) h k =
    let rest = collect-IsCollected p m h.1 k.1 in
    if_cases (Ensures (IsCollected p.numbered)) (unusable p id b) (λ _. rest)
      λ usable.
        if_cases (Ensures (IsCollected p.numbered)) (p.numbered && id == 0) (λ _. Ensures-bad)
          λ ok.
            Ensures-bind (collect p m) _ rest
              λ layout c. Ensures-done (added p.numbered id b layout h.0 k.0 (ground arith) ok c)

finish-IsReport :
    (p : Parser)
    → IsParser p
    → Ensures
        (λ layout. (n : Bool) × All (IsReport n) layout × Distinct ℕ_discrete layout)
        (finish p)
unfolding finish
finish-IsReport p h =
    if_cases (Ensures (λ layout. (n : Bool) × All (IsReport n) layout × Distinct ℕ_discrete layout))
      (not (is_empty p.collections) || not (is_empty p.stack)) (λ _. Ensures-bad)
      λ _. weaken (collect-IsCollected p p.bits h.keys h.sizes)
  where
    weaken :
        Ensures (IsCollected p.numbered) (collect p p.bits)
        → Ensures
            (λ layout. (n : Bool) × All (IsReport n) layout × Distinct ℕ_discrete layout)
            (collect p p.bits)
    weaken e = record {
      holds = λ layout q. (p.numbered, (e.holds layout q).0, (e.holds layout q).1);
    }

-- In every layout that `Descriptor` returns no identifier stands twice; either all identifiers are
-- bytes other than 0 and the lengths 9 to 1025, or the only one is 0 and its length is 8 to 1024.
pub descriptor-IsReport :
    (text : Bytes) (layout : Layout)
    → descriptor text ≡ done layout
    → (n : Bool) × All (IsReport n) layout × Distinct ℕ_discrete layout
descriptor-IsReport text layout e = all.holds layout e
  where
    all : Ensures (λ m. (n : Bool) × All (IsReport n) m × Distinct ℕ_discrete m) (descriptor text)
    all =
        unfold descriptor in
        if_cases (Ensures (λ m. (n : Bool) × All (IsReport n) m × Distinct ℕ_discrete m))
          (is_empty text || ltb 4096 (length text)) (λ _. Ensures-bad)
          λ _.
            Ensures-bind (items (length text) text start) finish
              (items-IsParser (length text) text start start-IsParser) finish-IsReport
