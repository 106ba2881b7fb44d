-- ===== src/Preferences/Reloading.antt =====
-- What `New` makes of a file that `Save` wrote.
use mathlib.Core.Logic.{if_pos, if_neg}
use gtkaskpass_yubikey.Base.{
  ℕ, ◌≡◌, ◌≤◌, refl, sym, ap, ◌∙◌, inl, inr, Bool, true, false, Option, none, some, List, [], ◌∷◌,
  Bytes, Bytes-discrete, length, ltb, leb, is_empty, if◌then◌else◌, Option-cases, arith,
}
use gtkaskpass_yubikey.Base.Maps.{lookup, insert, length-insert, Distinct}
use gtkaskpass_yubikey.Askpass.Fingerprint.{valid_fingerprint}
use gtkaskpass_yubikey.Preferences.{
  Document, Error, invalid_entry, Store, FileStatus, opened, broken, is_private_file, are_entries,
  load_devices, new, Calls, save,
}
use gtkaskpass_yubikey.Preferences.Saving.{document, HasRoom, Outcome, kept, replaced, save-Outcome}

-- A store that `New` could load: at most 256 devices, each with a valid fingerprint and a short
-- name, and none twice.
pub record IsLoadable (devices : List (Bytes × Bytes)) : Type 0 where
  pub cap : length devices ≤ 256
  pub entries : are_entries devices ≡ true
  pub distinct : Distinct Bytes-discrete devices

-- With one more device, the entries are good exactly if its name is short.
are_entries-insert :
    (fp id : Bytes) (m : List (Bytes × Bytes))
    → valid_fingerprint fp ≡ true
    → are_entries m ≡ true
    → are_entries (insert Bytes-discrete fp id m) ≡ leb (length id) 256
unfolding are_entries insert
are_entries-insert fp id [] v h = ground (arith, v)
are_entries-insert fp id ((k, w) ∷ m) v h = elim (Bytes-discrete k fp) [
  | yes e ↦ rw (if_pos _ e) (ground (arith, h, v))
  | no e ↦ rw (if_neg _ e) (ground (arith, h, v, are_entries-insert fp id m v))
]

insert-cap :
    (s : Store) (fp id : Bytes)
    → HasRoom s fp
    → length s.devices ≤ 256
    → length (insert Bytes-discrete fp id s.devices) ≤ 256
insert-cap s fp id r h = elim (Option-cases (lookup Bytes-discrete fp s.devices)) [
  | inl e ↦ ground (arith, r, h, e, length-insert Bytes-discrete fp id s.devices)
  | inr (v, e) ↦ ground (arith, r, h, e, length-insert Bytes-discrete fp id s.devices)
]

load-devices :
    (devices : List (Bytes × Bytes)) (b : Bool)
    → length devices ≤ 256
    → are_entries devices ≡ b
    → load_devices (some devices)
      ≡ (if b then record { devices = devices; err = none } else broken invalid_entry)
load-devices devices b h e =
    let small : ltb 256 (length devices) ≡ false = ground (arith, h) in rw (small, e) refl

load-text :
    (unmarshal : Bytes → Option Document) (user : ℕ) (st : FileStatus) (text : Bytes)
    (devices : List (Bytes × Bytes))
    → is_private_file user st ≡ true
    → length text ≤ 65536
    → unmarshal text ≡ some (document devices)
    → new unmarshal user (opened (some st) (some text)) ≡ load_devices (some devices)
unfolding new
load-text unmarshal user st text devices p n e =
    let small : ltb 65536 (length text) ≡ false = ground (arith, n) in rw (p, small, e) refl

module _ (marshal : Document → Option Bytes) (unmarshal : Bytes → Option Document) (user : ℕ)
    (st : FileStatus) (s : Store) (fp id : Bytes) (file : Option Bytes) (s' : Store)
    (text : Bytes) where
  reloaded :
      IsLoadable s.devices
      → valid_fingerprint fp ≡ true
      → is_empty id ≡ false
      → is_private_file user st ≡ true
      → length text ≤ 65536
      → unmarshal text ≡ some (document (insert Bytes-discrete fp id s.devices))
      → (r : Store × Option Bytes × Option Error) → Outcome marshal s fp id file r
      → r ≡ (s', some text, none)
      → new unmarshal user (opened (some st) (some text))
        ≡ (if leb (length id) 256 then s' else broken invalid_entry)
  reloaded l v d p n law _ (kept e h) same =
      elim (h (ap (λ (q : Store × Option Bytes × Option Error). q.2) same)) [
        | inl bad ↦ absurd (ground (arith, v, bad))
        | inr bad ↦ absurd (ground (arith, d, bad))
      ]
  reloaded l v d p n law _ (replaced text' clear _ _ room made) same =
      let devices = insert Bytes-discrete fp id s.devices in
      let store : record { devices = devices; err = s.err } ≡ s' =
        ap (λ (q : Store × Option Bytes × Option Error). q.0) same in
      load-text unmarshal user st text devices p n law
      ∙ load-devices devices (leb (length id) 256) (insert-cap s fp id room l.cap)
          (are_entries-insert fp id s.devices v l.entries)
      ∙ ap (λ x. if leb (length id) 256 then x else broken invalid_entry)
          (ap (λ x. record { devices = devices; err = x }) (sym clear) ∙ store)

  -- A file that `Save` wrote for a valid fingerprint and a device with a name, in a store that `New`
  -- could load, is loaded as the store that `Save` left, if the name has at most 256 bytes, and is
  -- refused otherwise. This is so if the file is private, its text has at most 64 KiB, and JSON reads
  -- the text as the document that was written.
  pub new-save :
      (c : Calls)
      → IsLoadable s.devices
      → valid_fingerprint fp ≡ true
      → is_empty id ≡ false
      → is_private_file user st ≡ true
      → length text ≤ 65536
      → unmarshal text ≡ some (document (insert Bytes-discrete fp id s.devices))
      → save marshal c user s fp id file ≡ (s', some text, none)
      → new unmarshal user (opened (some st) (some text))
        ≡ (if leb (length id) 256 then s' else broken invalid_entry)
  new-save c l v d p n law saved =
      reloaded l v d p n law (save marshal c user s fp id file)
        (save-Outcome marshal c user s fp id file) saved
