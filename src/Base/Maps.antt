-- ===== src/Base/Maps.antt =====
-- Go's maps as association lists. The order of the list stands for the order in which `range`
-- visits the map.
use Prim.Native.Nat.{suc, ◌≤◌}
use mathlib.Core.Path.{◌≡◌, refl}
use mathlib.Core.Logic.{◌≢◌, inl, inr, ite, if_pos, if_neg}
use mathlib.Core.Bool.{Bool, true}
use mathlib.Core.Option.{Option, none, some}
use mathlib.Core.List.{List, [], ◌∷◌}
use native.Mathlib.Omega.{arith}
use gtkaskpass_yubikey.Base.Tests.{if◌then◌else◌, is_some, Bool-cases}
use gtkaskpass_yubikey.Base.Lists.{length, All}

module _ {ℓ} {K V : Type ℓ} where
  -- `for k, v := range m { if !keep(k, v) { delete(m, k) } }`
  unfoldable pub retain : (K → V → Bool) → List (K × V) → List (K × V)
  retain keep [] = []
  retain keep ((k, v) ∷ m) = let rest = retain keep m in if keep k v then (k, v) ∷ rest else rest

  pub length-retain-le :
      (keep : K → V → Bool) (m : List (K × V)) → length (retain keep m) ≤ length m
  unfolding retain
  length-retain-le keep [] = omega arith
  length-retain-le keep ((k, v) ∷ m) = ground (arith, length-retain-le keep m)

  pub All-retain {κ} :
      (P : K × V → Type κ) (keep : K → V → Bool) (m : List (K × V))
      → All P m
      → All P (retain keep m)
  unfolding retain
  All-retain P keep [] h = tt
  All-retain P keep ((k, v) ∷ m) h = elim (Bool-cases (keep k v)) [
    | inl e ↦ rw e (h.0, All-retain P keep m h.1)
    | inr e ↦ rw e (All-retain P keep m h.1)
  ]

  -- What is retained passed the test.
  pub retain-All :
      (keep : K → V → Bool) (m : List (K × V)) → All (λ p. keep p.0 p.1 ≡ true) (retain keep m)
  unfolding retain
  retain-All keep [] = tt
  retain-All keep ((k, v) ∷ m) = elim (Bool-cases (keep k v)) [
    | inl e ↦ rw e (e, retain-All keep m)
    | inr e ↦ rw e (retain-All keep m)
  ]

  pub All-map {κ κ'} :
      (P : K × V → Type κ) (Q : K × V → Type κ') (m : List (K × V))
      → ((k : K) (v : V) → P (k, v) → Q (k, v))
      → All P m
      → All Q m
  All-map P Q [] f h = tt
  All-map P Q ((k, v) ∷ m) f h = (f k v h.0, All-map P Q m f h.1)

module _ {ℓ} {K V : Type ℓ} (dec : Discrete K) where
  -- `m[k]`, with `ok`
  unfoldable pub lookup : K → List (K × V) → Option V
  lookup k [] = none
  lookup k ((j, v) ∷ m) = ite (dec j k) (some v) (lookup k m)

  -- `m[k] = v`
  unfoldable pub insert : K → V → List (K × V) → List (K × V)
  insert k v [] = (k, v) ∷ []
  insert k v ((j, w) ∷ m) = ite (dec j k) ((k, v) ∷ m) ((j, w) ∷ insert k v m)

  -- `delete(m, k)`
  unfoldable pub delete : K → List (K × V) → List (K × V)
  delete k [] = []
  delete k ((j, w) ∷ m) = ite (dec j k) (delete k m) ((j, w) ∷ delete k m)

  pub lookup-insert :
      (k j : K) (v : V) (m : List (K × V))
      → lookup j (insert k v m) ≡ ite (dec k j) (some v) (lookup j m)
  unfolding lookup insert
  lookup-insert k j v [] = refl
  lookup-insert k j v ((i, w) ∷ m) = ground (arith, lookup-insert k j v m)

  pub lookup-delete :
      (k j : K) (m : List (K × V)) → lookup j (delete k m) ≡ ite (dec k j) none (lookup j m)
  unfolding lookup delete
  lookup-delete k j [] = ground arith
  lookup-delete k j ((i, w) ∷ m) = ground (arith, lookup-delete k j m)

  -- An overwrite keeps the size and a new key adds one.
  pub length-insert :
      (k : K) (v : V) (m : List (K × V))
      → length (insert k v m) ≡ (if is_some (lookup k m) then length m else suc (length m))
  unfolding lookup insert
  length-insert k v [] = refl
  length-insert k v ((i, w) ∷ m) = ground (arith, length-insert k v m)

  pub length-delete-le : (k : K) (m : List (K × V)) → length (delete k m) ≤ length m
  unfolding delete
  length-delete-le k [] = omega arith
  length-delete-le k ((i, w) ∷ m) = ground (arith, length-delete-le k m)

  pub All-insert {κ} :
      (P : K × V → Type κ) (k : K) (v : V) (m : List (K × V))
      → P (k, v)
      → All P m
      → All P (insert k v m)
  unfolding insert
  All-insert P k v [] p h = (p, tt)
  All-insert P k v ((i, w) ∷ m) p h = elim (dec i k) [
    | yes e ↦ rw (if_pos _ e) (p, h.1)
    | no e ↦ rw (if_neg _ e) (h.0, All-insert P k v m p h.1)
  ]

  pub All-delete {κ} :
      (P : K × V → Type κ) (k : K) (m : List (K × V)) → All P m → All P (delete k m)
  unfolding delete
  All-delete P k [] h = tt
  All-delete P k ((i, w) ∷ m) h = elim (dec i k) [
    | yes e ↦ rw (if_pos _ e) (All-delete P k m h.1)
    | no e ↦ rw (if_neg _ e) (h.0, All-delete P k m h.1)
  ]

  pub All-lookup {κ} :
      (P : K × V → Type κ) (k : K) (v : V) (m : List (K × V))
      → All P m
      → lookup k m ≡ some v
      → P (k, v)
  unfolding lookup
  All-lookup P k v [] h e = absurd (cc)
  All-lookup P k v ((i, w) ∷ m) h e = elim (dec i k) [
    | yes p ↦ let same : ◌≡◌ {A = K × V} (i, w) (k, v) = ground arith in rw (← same) h.0
    | no p ↦ All-lookup P k v m h.1 (ground arith)
  ]

  -- No key stands twice.
  abbrev pub Distinct : List (K × V) → Type ℓ
  Distinct [] = Unit
  Distinct ((k, v) ∷ m) = (lookup k m ≡ none) × Distinct m

  pub lookup-retain-none :
      (keep : K → V → Bool) (k : K) (m : List (K × V))
      → lookup k m ≡ none
      → lookup k (retain keep m) ≡ none
  unfolding lookup retain
  lookup-retain-none keep k [] e = refl
  lookup-retain-none keep k ((i, w) ∷ m) e = ground (arith, lookup-retain-none keep k m)

  pub lookup-retain :
      (keep : K → V → Bool) (k : K) (m : List (K × V))
      → Distinct m
      → lookup k (retain keep m)
        ≡ elim (lookup k m) [ none ↦ none | some v ↦ if keep k v then some v else none ]
  unfolding lookup retain
  lookup-retain keep k [] d = refl
  lookup-retain keep k ((i, w) ∷ m) d =
      ground (arith, lookup-retain keep k m, lookup-retain-none keep k m)

  pub retain-Distinct :
      (keep : K → V → Bool) (m : List (K × V)) → Distinct m → Distinct (retain keep m)
  unfolding retain
  retain-Distinct keep [] d = tt
  retain-Distinct keep ((i, w) ∷ m) d = elim (Bool-cases (keep i w)) [
    | inl e ↦ rw e (lookup-retain-none keep i m d.0, retain-Distinct keep m d.1)
    | inr e ↦ rw e (retain-Distinct keep m d.1)
  ]

  pub insert-Distinct : (k : K) (v : V) (m : List (K × V)) → Distinct m → Distinct (insert k v m)
  unfolding insert lookup
  insert-Distinct k v [] d = (refl, tt)
  insert-Distinct k v ((i, w) ∷ m) d = elim (dec i k) [
    | yes e ↦ rw (if_pos _ e, ← e) d
    | no e ↦ rw (if_neg _ e) (ground (arith, lookup-insert k i v m), insert-Distinct k v m d.1)
  ]

  pub delete-Distinct : (k : K) (m : List (K × V)) → Distinct m → Distinct (delete k m)
  unfolding delete
  delete-Distinct k [] d = tt
  delete-Distinct k ((i, w) ∷ m) d = elim (dec i k) [
    | yes e ↦ rw (if_pos _ e) (delete-Distinct k m d.1)
    | no e ↦ rw (if_neg _ e) (ground (arith, lookup-delete k i m), delete-Distinct k m d.1)
  ]

  -- Deleting a key that is there makes the map smaller.
  pub length-delete-lt :
      (k : K) (v : V) (m : List (K × V))
      → lookup k m ≡ some v
      → suc (length (delete k m)) ≤ length m
  unfolding lookup delete
  length-delete-lt k v [] e = absurd (cc)
  length-delete-lt k v ((i, w) ∷ m) e = ground (arith, length-delete-le k m, length-delete-lt k v m)

  lookup-tail :
      (i k : K) (w v : V) (m : List (K × V))
      → lookup i m ≡ none
      → lookup k m ≡ some v
      → lookup k ((i, w) ∷ m) ≡ some v
  unfolding lookup
  lookup-tail i k w v m d e = ground (arith, d, e)

  -- In a map each pair is what its key finds.
  pub lookup-All : (m : List (K × V)) → Distinct m → All (λ p. lookup p.0 m ≡ some p.1) m
  unfolding lookup
  lookup-All [] d = tt
  lookup-All ((i, w) ∷ m) d = (
    if_pos (dec i i) refl _ _,
    All-map (λ p. lookup p.0 m ≡ some p.1) (λ p. lookup p.0 ((i, w) ∷ m) ≡ some p.1) m
        (λ k v e. lookup-tail i k w v m d.0 e) (lookup-All m d.1),
  )

  pub lookup-none_head :
      (k i : K) (w : V) (m : List (K × V))
      → lookup k ((i, w) ∷ m) ≡ none
      → (i ≢ k) × (lookup k m ≡ none)
  unfolding lookup
  lookup-none_head k i w m e = elim (dec i k) [
    | yes p ↦ absurd (ground (arith, e, p))
    | no p ↦ (p, ground (arith, e, p))
  ]

  pub lookup-none_cons :
      (k i : K) (w : V) (m : List (K × V))
      → i ≢ k
      → lookup k m ≡ none
      → lookup k ((i, w) ∷ m) ≡ none
  unfolding lookup
  lookup-none_cons k i w m p e = ground (arith, e, p)

  pub lookup-insert_other :
      (k j : K) (v : V) (m : List (K × V)) → k ≢ j → lookup j (insert k v m) ≡ lookup j m
  lookup-insert_other k j v m p = ground (arith, lookup-insert k j v m, p)

  pub lookup-insert_same : (k : K) (v : V) (m : List (K × V)) → lookup k (insert k v m) ≡ some v
  lookup-insert_same k v m = ground (arith, lookup-insert k k v m)

  pub lookup-nil : (k : K) → lookup k [] ≡ none
  unfolding lookup
  lookup-nil k = refl

  -- A key that has a value keeps one when another pair is written.
  pub is_some-insert :
      (k j : K) (v : V) (m : List (K × V))
      → is_some (lookup j m) ≡ true
      → is_some (lookup j (insert k v m)) ≡ true
  is_some-insert k j v m h = ground (arith, lookup-insert k j v m, h)

  -- What passes the test with every value is found as before.
  pub lookup-retain_same :
      (keep : K → V → Bool) (k : K) (m : List (K × V))
      → ((v : V) → keep k v ≡ true)
      → lookup k (retain keep m) ≡ lookup k m
  unfolding lookup retain
  lookup-retain_same keep k [] h = refl
  lookup-retain_same keep k ((i, w) ∷ m) h = elim (dec i k) [
    | yes e ↦ let kept : keep i w ≡ true = rw e (h w) in ground (arith, e, kept)
    | no e ↦ ground (arith, e, lookup-retain_same keep k m h)
  ]
