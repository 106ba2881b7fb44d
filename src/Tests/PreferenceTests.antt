-- ===== src/Tests/PreferenceTests.antt =====
-- A preference is saved and loaded, in the model of internal/preferences/store.go.
use gtkaskpass_yubikey.Base.{
  ◌≡◌, refl, true, false, Option, none, some, [], ◌∷◌, Bytes, Bytes-discrete, ℕ_discrete, codes,
  arith, length, leb, if◌then◌else◌,
}
use gtkaskpass_yubikey.Base.Maps.{lookup, insert}
use gtkaskpass_yubikey.Text.{cut_prefix}
use gtkaskpass_yubikey.Base64.{digit, encode, decode}
use gtkaskpass_yubikey.Askpass.Fingerprint.{valid_fingerprint}
use gtkaskpass_yubikey.Preferences.{
  Document, Store, FileStatus, opened, broken, invalid_entry, are_entries, new, preferred, Calls,
  replace, save_checked, save,
}
use gtkaskpass_yubikey.Preferences.Saving.{Outcome, document, save-Outcome}
use gtkaskpass_yubikey.Preferences.Reloading.{new-save}

-- A document has one text in this example.
abbrev marshal : Document → Option Bytes
marshal d = some (codes "{}")

abbrev fingerprint : Bytes
fingerprint = codes "SHA256:47DEQpj8HBSa+/TImW+5JCeuQeRkm5NMpJWZG3hSuFU"

abbrev device : Bytes
device = codes "key-1"

abbrev unmarshal : Bytes → Option Document
unmarshal b = some (document ((fingerprint, device) ∷ []))

abbrev directory : FileStatus
directory = record { is_regular = false; is_directory = true; perm = 448; uid = 5 }

abbrev private : FileStatus
private = record { is_regular = true; is_directory = false; perm = 384; uid = 5 }

abbrev calls : Calls
calls = record {
  makes_directory = true;
  directory = some directory;
  target = none;
  creates = true;
  writes = true;
  syncs = true;
  closes = true;
  renames = true;
}

program : Unit {0}
unfolding ℕ_discrete Bytes-discrete lookup insert cut_prefix digit encode decode valid_fingerprint
    are_entries new preferred replace save_checked save
program = tt

abbrev empty : Store
empty = record { devices = []; err = none }

abbrev saved : Store
saved = record { devices = (fingerprint, device) ∷ []; err = none }

saves : save marshal calls 5 empty fingerprint device none ≡ (saved, some (codes "{}"), none)
unfolding program
saves = refl

prefers : preferred saved fingerprint ≡ device
unfolding program
prefers = refl

save-Outcome_example :
    Outcome marshal empty fingerprint device none
      (save marshal calls 5 empty fingerprint device none)
save-Outcome_example = save-Outcome marshal calls 5 empty fingerprint device none

new-save_example :
    new unmarshal 5 (opened (some private) (some (codes "{}")))
    ≡ (if leb (length device) 256 then saved else broken invalid_entry)
unfolding program
new-save_example =
    new-save marshal unmarshal 5 private empty fingerprint device none saved (codes "{}") calls
      (record { cap = ground arith; entries = refl; distinct = tt }) refl refl refl (ground arith)
      refl saves
