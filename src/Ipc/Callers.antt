-- ===== src/Ipc/Callers.antt =====
-- The caller names of internal/cacheipc/ipc.go, which are the identifiers of processes.
use gtkaskpass_yubikey.Base.{
  ℕ, ◌^◌, ◌<◌, ◌≡◌, ◌≢◌, sym, ap, ◌∙◌, Bool, false, not, ◌||◌, Option, none, some, [], ◌∷◌, ◌++◌,
  Bytes, All, if◌then◌else◌, arith,
}
use gtkaskpass_yubikey.Base.Int.{ℤ, pos, leb_ℤ}
use gtkaskpass_yubikey.Text.{cut_byte}
use gtkaskpass_yubikey.Text.Affixes.{cut_byte-append}
use gtkaskpass_yubikey.Text.Decimal.{itoa, atoi, decimal, digits-IsDigit, atoi-decimal, IsDigit}
use gtkaskpass_yubikey.Lifecycle.{ProcessTable, Process, read_process, id, alive}

-- `caller`: the name of the parent of the peer.
unfoldable pub caller : ProcessTable → ℤ → Option Bytes
caller proc pid = elim (read_process proc pid) [
  | none ↦ none
  | some helper ↦ elim (read_process proc helper.parent) [
    | none ↦ none
    | some p ↦ if leb_ℤ p.pid (pos 1) || not (alive proc p) then none else some (id p)
  ]
]

-- `alive`
unfoldable pub name_alive : ProcessTable → Bytes → Bool
name_alive proc name = elim (cut_byte 58 name) [
  | none ↦ false
  | some parts ↦ elim (atoi parts.0) [
    | none ↦ false
    | some pid ↦ alive proc (record { pid = pid; parent = pos 0; start = parts.1; state = [] })
  ]
]

no_colon : (cs : Bytes) → All IsDigit cs → All (λ c. c ≢ 58) cs
no_colon [] h = tt
no_colon (c ∷ cs) h = ((λ e. ground (arith, h.0, e)), no_colon cs h.1)

cut-id : (n : ℕ) (start : Bytes) → cut_byte 58 (decimal n ++ 58 ∷ start) ≡ some (decimal n, start)
cut-id n start = cut_byte-append 58 (decimal n) start (no_colon (decimal n) (digits-IsDigit n n))

named :
    (proc : ProcessTable) (p : Process) (n : ℕ)
    → p.pid ≡ pos n
    → n < 2 ^ 63
    → name_alive proc (decimal n ++ 58 ∷ p.start) ≡ alive proc p
unfolding name_alive alive
named proc p n e h =
    rw (name_alive, cut-id n p.start, atoi-decimal n h) (ap (λ c. alive_as c) (sym e))
  where
    alive_as : ℤ → Bool
    alive_as c = alive proc (record { pid = c; parent = pos 0; start = p.start; state = [] })

-- The name of a process with a number that an int64 holds is alive exactly where the process is,
-- whatever its start time is written like.
pub name_alive-id :
    (proc : ProcessTable) (p : Process) (n : ℕ)
    → p.pid ≡ pos n
    → n < 2 ^ 63
    → name_alive proc (id p) ≡ alive proc p
unfolding id
name_alive-id proc p n e h =
    ap (λ c. name_alive proc (itoa c ++ 58 ∷ p.start)) e ∙ named proc p n e h
