-- ===== src/Lifecycle.antt =====
-- internal/lifecycle/linux.go: processes as the kernel's process table shows them.
use gtkaskpass_yubikey.Base.{
  ℕ, zero, suc, Bool, false, not, ◌&&◌, Option, none, some, List, [], ◌∷◌, ◌++◌, Bytes,
  Bytes-discrete, codes, decide, length, ltb, if◌then◌else◌,
}
use gtkaskpass_yubikey.Base.Int.{ℤ}
use gtkaskpass_yubikey.Text.{fields, after_last}
use gtkaskpass_yubikey.Text.Decimal.{itoa, atoi}

-- The contents of /proc/<pid>/stat, if it can be read.
abbrev pub ProcessTable : Type 0
ProcessTable = ℤ → Option Bytes

pub record Process : Type 0 where
  pub pid : ℤ
  pub parent : ℤ
  pub start : Bytes
  pub state : Bytes

-- `f[i]`, the empty string past the end, where the code does not read
abbrev field : ℕ → List Bytes → Bytes
field i [] = []
field zero (f ∷ fs) = f
field (suc i) (f ∷ fs) = field i fs

-- `ReadProcess` once the fields are split.
unfoldable pub from_fields : ℤ → List Bytes → Option Process
from_fields pid f = if ltb (length f) 20 then none else elim (atoi (field 1 f)) [
  | none ↦ none
  | some parent ↦
      some (record { pid = pid; parent = parent; start = field 19 f; state = field 0 f })
]

-- `ReadProcess`
unfoldable pub read_process : ProcessTable → ℤ → Option Process
read_process proc pid = elim (proc pid) [
  | none ↦ none
  | some b ↦ elim (after_last 41 b) [ none ↦ none | some rest ↦ from_fields pid (fields rest) ]
]

-- `ID`
unfoldable pub id : Process → Bytes
id p = itoa p.pid ++ 58 ∷ p.start

abbrev is_same : Process → Process → Bool
is_same p n =
    decide (Bytes-discrete n.start p.start)
    && not (decide (Bytes-discrete n.state (codes "Z")))
    && not (decide (Bytes-discrete n.state (codes "X")))

-- `Alive`
unfoldable pub alive : ProcessTable → Process → Bool
alive proc p = elim (read_process proc p.pid) [ none ↦ false | some n ↦ is_same p n ]
