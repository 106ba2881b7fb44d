-- ===== src/Touch/Tracker/Reports.antt =====
-- What a report can do: the frames of internal/touch/report.go that `Report` acts on.
use gtkaskpass_yubikey.Base.{
  ℕ, suc, ◌+◌, ◌*◌, ◌/◌, ◌%◌, ◌-◌, ◌≡◌, ◌≢◌, refl, not, ◌||◌, [], ◌∷◌, Bytes, ℕ_discrete, length,
  arith, if_cases, Option-cases, inl, inr, ◌⊎◌, ltb, ◌==◌, is_some,
}
use gtkaskpass_yubikey.Base.Maps.{lookup}
use gtkaskpass_yubikey.Touch.Descriptor.{Layout}
use gtkaskpass_yubikey.Touch.Tracker.{Tracker, command, header, numbered, report}

-- The channel of a header's first four bytes.
abbrev pub channel : ℕ → ℕ → ℕ → ℕ → ℕ
channel a b c d = ((a * 256 + b) * 256 + c) * 256 + d

-- What holds of the tracker as it was and after each command holds after a header.
pub header_cases {ℓ} :
    (P : Tracker → Type ℓ) (t : Tracker) (text : Bytes) (now : ℕ)
    → P t
    → ((a b c d cmd hi lo status : ℕ) (rest : Bytes)
        → text ≡ a ∷ b ∷ c ∷ d ∷ cmd ∷ hi ∷ lo ∷ status ∷ rest
        → channel a b c d ≢ 0
        → channel a b c d ≢ 0xffff_ffff
        → P (command t (channel a b c d) cmd (hi * 256 + lo) status now))
    → P (header t text now)
unfolding header
header_cases P t (a ∷ b ∷ c ∷ d ∷ cmd ∷ hi ∷ lo ∷ status ∷ rest) now keep act =
    if_cases P (cmd / 128 % 2 == 0) (λ _. keep)
      (λ _.
        if_cases P (channel a b c d == 0 || channel a b c d == 0xffff_ffff) (λ _. keep)
          (λ e.
            if_cases P (ltb (8 + length rest - 7 + 128 * (8 + length rest - 5)) (hi * 256 + lo))
              (λ _. keep)
              (λ _.
                act a b c d cmd hi lo status rest refl (λ h. ground (arith, e, h))
                  (λ h. ground (arith, e, h)))))
header_cases P t [] now keep act = keep
header_cases P t (a ∷ []) now keep act = keep
header_cases P t (a ∷ b ∷ []) now keep act = keep
header_cases P t (a ∷ b ∷ c ∷ []) now keep act = keep
header_cases P t (a ∷ b ∷ c ∷ d ∷ []) now keep act = keep
header_cases P t (a ∷ b ∷ c ∷ d ∷ e ∷ []) now keep act = keep
header_cases P t (a ∷ b ∷ c ∷ d ∷ e ∷ f ∷ []) now keep act = keep
header_cases P t (a ∷ b ∷ c ∷ d ∷ e ∷ f ∷ g ∷ []) now keep act = keep

-- The data of a report: all of it, or what follows its identifier.
abbrev pub IsData : Bytes → Bytes → Type 0
IsData text bytes = (text ≡ bytes) ⊎ ((id : ℕ) × (text ≡ id ∷ bytes))

unnumbered_cases {ℓ} :
    (P : Tracker → Type ℓ) (t : Tracker) (layout : Layout) (text : Bytes) (now : ℕ)
    → P t
    → ((bytes : Bytes) → IsData text bytes → P (header t bytes now))
    → P (numbered t layout 0 text now)
unfolding numbered
unnumbered_cases P t layout text now keep act = elim (Option-cases (lookup ℕ_discrete 0 layout)) [
  | inl e ↦ rw (numbered, e) keep
  | inr (size, e) ↦
      rw (numbered, e)
        (if_cases P (not (length text == size)) (λ _. keep) (λ _. act text (inl refl)))
]

numbered_cases {ℓ} :
    (P : Tracker → Type ℓ) (t : Tracker) (layout : Layout) (id : ℕ) (rest : Bytes) (now : ℕ)
    → P t
    → ((bytes : Bytes) → IsData (id ∷ rest) bytes → P (header t bytes now))
    → P (numbered t layout id (id ∷ rest) now)
unfolding numbered
numbered_cases P t layout id rest now keep act = elim (Option-cases (lookup ℕ_discrete id layout)) [
  | inl e ↦ rw (numbered, e) keep
  | inr (size, e) ↦
      rw (numbered, e)
        (if_cases P (not (suc (length rest) == size)) (λ _. keep)
          (λ _.
            if_cases (λ bytes. P (header t bytes now)) (id == 0) (λ _. act (id ∷ rest) (inl refl))
              (λ _. act rest (inr (id, refl)))))
]

-- What holds of the tracker as it was and after each header holds after a report.
pub report_cases {ℓ} :
    (P : Tracker → Type ℓ) (t : Tracker) (layout : Layout) (text : Bytes) (now : ℕ)
    → P t
    → ((bytes : Bytes) → IsData text bytes → P (header t bytes now))
    → P (report t layout text now)
unfolding report
report_cases P t layout [] now keep act =
    if_cases P (is_some (lookup ℕ_discrete 0 layout))
      (λ _. unnumbered_cases P t layout [] now keep act) (λ _. keep)
report_cases P t layout (id ∷ rest) now keep act =
    if_cases P (is_some (lookup ℕ_discrete 0 layout))
      (λ _. unnumbered_cases P t layout (id ∷ rest) now keep act)
      (λ _. numbered_cases P t layout id rest now keep act)
