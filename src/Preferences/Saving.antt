-- ===== src/Preferences/Saving.antt =====
-- What `Save` leaves behind, and what `New` makes of it.
use gtkaskpass_yubikey.Base.{
  ℕ, ◌≡◌, ◌⊎◌, inl, inr, true, false, not, ◌&&◌, ◌||◌, Option, none, some, List, Bytes,
  Bytes-discrete, length, leb, is_empty, is_some, if_cases, Bool-cases, Option-cases, arith,
}
use gtkaskpass_yubikey.Base.Int.{pos}
use gtkaskpass_yubikey.Base.Maps.{insert}
use gtkaskpass_yubikey.Askpass.Fingerprint.{valid_fingerprint}
use gtkaskpass_yubikey.Preferences.{
  Document, Error, system_error, limit_reached, unsafe_directory, unsafe_target, Store, value_at,
  Calls, Saved, is_unsafe_directory, is_unsafe_target, replace, save_checked, save,
}

-- The document of the devices.
abbrev pub document : List (Bytes × Bytes) → Document
document devices = record { version = pos 1; devices = some devices }

-- There is room for the fingerprint.
abbrev pub HasRoom : Store → Bytes → Type 0
HasRoom s fp = (leb 256 (length s.devices) && is_empty (value_at fp s.devices)) ≡ false

-- What `Save` leaves behind: the store and the file as they were, without an error only where there
-- was nothing to save, or both with the new device, and no error.
pub data Outcome (marshal : Document → Option Bytes) (s : Store) (fp id : Bytes)
    (file : Option Bytes) : Saved → Type 0 where
  kept :
      (e : Option Error)
      → (e ≡ none → (valid_fingerprint fp ≡ false) ⊎ (is_empty id ≡ true))
      → Outcome marshal s fp id file (s, file, e)
  replaced :
      (text : Bytes)
      → s.err ≡ none
      → valid_fingerprint fp ≡ true
      → is_empty id ≡ false
      → HasRoom s fp
      → marshal (document (insert Bytes-discrete fp id s.devices)) ≡ some text
      → Outcome marshal s fp id file
          (record s { devices = insert Bytes-discrete fp id s.devices }, some text, none)

module _ (marshal : Document → Option Bytes) (c : Calls) (user : ℕ) (s : Store) (fp id : Bytes)
    (file : Option Bytes) where
  fails : (e : Error) → Outcome marshal s fp id file (s, file, some e)
  fails e = kept (some e) (λ h. absurd (cc))

  replace-Outcome :
      s.err ≡ none
      → valid_fingerprint fp ≡ true
      → is_empty id ≡ false
      → HasRoom s fp
      → Outcome marshal s fp id file (
          replace c s
            (insert Bytes-discrete fp id s.devices)
            (marshal (document (insert Bytes-discrete fp id s.devices)))
            file)
  unfolding replace
  replace-Outcome a b d r =
      elim (Option-cases (marshal (document (insert Bytes-discrete fp id s.devices)))) [
        | inl e ↦ rw e (fails system_error)
        | inr (text, e) ↦ rw e (
            if_cases (Outcome marshal s fp id file)
              (not c.creates || not c.writes || not c.syncs || not c.closes || not c.renames)
              (λ _. fails system_error) (λ _. replaced text a b d r e))
      ]

  checked-Outcome :
      s.err ≡ none
      → valid_fingerprint fp ≡ true
      → is_empty id ≡ false
      → HasRoom s fp
      → Outcome marshal s fp id file (save_checked marshal c user s fp id file)
  unfolding save_checked
  checked-Outcome a b d r =
      if_cases (Outcome marshal s fp id file) (not c.makes_directory) (λ _. fails system_error)
        (λ _. elim (Option-cases c.directory) [
          | inl e ↦ rw e (fails system_error)
          | inr (st, e) ↦ rw e (
              if_cases (Outcome marshal s fp id file) (is_unsafe_directory user st)
                (λ _. fails unsafe_directory)
                (λ _.
                  if_cases (Outcome marshal s fp id file) (is_unsafe_target c.target)
                    (λ _. fails unsafe_target) (λ _. replace-Outcome a b d r)))
        ])

  -- `Save` leaves the store and the file as they were, and gives an error unless the fingerprint is
  -- not valid or the device is empty; or the store was loaded without an error, the fingerprint is
  -- valid, the device is not empty, there is room, the device is in the store, the file is the text
  -- of its devices, and there is no error.
  pub save-Outcome : Outcome marshal s fp id file (save marshal c user s fp id file)
  unfolding save
  save-Outcome =
      if_cases (Outcome marshal s fp id file) (is_some s.err)
        (λ h. kept s.err (λ e. absurd (ground (arith, h, e))))
        (λ a.
          if_cases (Outcome marshal s fp id file) (not (valid_fingerprint fp) || is_empty id)
            (λ h. kept none (λ _. nothing h))
            (λ b.
              if_cases (Outcome marshal s fp id file)
                (leb 256 (length s.devices) && is_empty (value_at fp s.devices))
                (λ _. fails limit_reached)
                (λ r.
                  checked-Outcome (ground (arith, a)) (ground (arith, b)) (ground (arith, b)) r)))
    where
      nothing :
          (not (valid_fingerprint fp) || is_empty id) ≡ true
          → (valid_fingerprint fp ≡ false) ⊎ (is_empty id ≡ true)
      nothing h = elim (Bool-cases (valid_fingerprint fp)) [
        | inl v ↦ inr (ground (arith, h, v))
        | inr v ↦ inl v
      ]
