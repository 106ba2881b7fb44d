-- ===== src/Preferences.antt =====
-- internal/preferences/store.go: which security key was last used for a fingerprint. The file is its
-- contents; what the system's calls answer is an argument, and so is JSON.
pub mod Saving
pub mod Reloading
use gtkaskpass_yubikey.Base.{
  ℕ, ◌*◌, Bool, true, false, not, ◌&&◌, ◌||◌, Option, none, some, List, [], ◌∷◌, Bytes,
  Bytes-discrete, length, ltb, leb, ◌==◌, is_empty, is_some, if◌then◌else◌,
}
use gtkaskpass_yubikey.Base.Int.{ℤ, pos}
use gtkaskpass_yubikey.Base.Maps.{lookup, insert}
use gtkaskpass_yubikey.Askpass.Fingerprint.{valid_fingerprint}
use gtkaskpass_yubikey.Ipc.Handle.{is_version}

-- The document as JSON has it: `devices` may be null.
pub record Document : Type 0 where
  pub version : ℤ
  pub devices : Option (List (Bytes × Bytes))

pub data Error : Type 0 where
  system_error unsafe_file unbounded invalid_document invalid_entry limit_reached unsafe_directory
        unsafe_target :
      Error

-- `err`, and the devices of `data`, whose version is 1.
pub record Store : Type 0 where
  pub devices : List (Bytes × Bytes)
  pub err : Option Error

-- `Mode` and `Uid` of stat(2)
pub record FileStatus : Type 0 where
  pub is_regular : Bool
  pub is_directory : Bool
  pub perm : ℕ
  pub uid : ℕ

-- What opening the file brings: it does not exist, an error, or a file with its status and what the
-- bounded read gets.
pub data Opened : Type 0 where
  absent : Opened
  refused : Opened
  opened : Option FileStatus → Option Bytes → Opened

abbrev pub broken : Error → Store
broken e = record { devices = []; err = some e }

abbrev pub is_private_file : ℕ → FileStatus → Bool
is_private_file user st = st.is_regular && st.perm == 384 && st.uid == user

-- The loop over the entries
unfoldable pub are_entries : List (Bytes × Bytes) → Bool
are_entries [] = true
are_entries ((k, v) ∷ m) =
    let rest = are_entries m in
    if not (valid_fingerprint k) || ltb 256 (length v) then false else rest

abbrev load_devices : Option (List (Bytes × Bytes)) → Store
load_devices none = broken invalid_document
load_devices (some devices) =
    if ltb 256 (length devices)
    then broken invalid_document
    else if are_entries devices
    then record { devices = devices; err = none }
    else broken invalid_entry

abbrev load_document : Option Document → Store
load_document none = broken invalid_document
load_document (some d) =
    if not (is_version 1 d.version) then broken invalid_document else load_devices d.devices

abbrev load_text : (Bytes → Option Document) → Option Bytes → Store
load_text unmarshal none = broken unbounded
load_text unmarshal (some b) =
    if ltb 65536 (length b) then broken unbounded else load_document (unmarshal b)

abbrev load_opened : (Bytes → Option Document) → ℕ → Option FileStatus → Option Bytes → Store
load_opened unmarshal user none text = broken system_error
load_opened unmarshal user (some st) text =
    if not (is_private_file user st) then broken unsafe_file else load_text unmarshal text

-- `New`
unfoldable pub new : (Bytes → Option Document) → ℕ → Opened → Store
new unmarshal user absent = record { devices = []; err = none }
new unmarshal user refused = broken system_error
new unmarshal user (opened st text) = load_opened unmarshal user st text

-- `s.data.Devices[fp]`, the empty string when it is missing
abbrev pub value_at : Bytes → List (Bytes × Bytes) → Bytes
value_at fp devices = elim (lookup Bytes-discrete fp devices) [ none ↦ [] | some v ↦ v ]

-- `Preferred`
unfoldable pub preferred : Store → Bytes → Bytes
preferred s fp = value_at fp s.devices

-- What the calls of `Save` answer: the directory is made, what it is, what stands at the path, and
-- whether creating, writing, syncing, closing and renaming the temporary file succeed.
pub record Calls : Type 0 where
  pub makes_directory : Bool
  pub directory : Option FileStatus
  pub target : Option FileStatus
  pub creates : Bool
  pub writes : Bool
  pub syncs : Bool
  pub closes : Bool
  pub renames : Bool

-- The store, the contents of the file, and the error.
abbrev pub Saved : Type 0
Saved = Store × Option Bytes × Option Error

abbrev is_unsafe_directory : ℕ → FileStatus → Bool
is_unsafe_directory user st = not st.is_directory || not (st.perm == 448) || not (st.uid == user)

abbrev is_unsafe_target : Option FileStatus → Bool
is_unsafe_target none = false
is_unsafe_target (some st) = not st.is_regular || not (st.perm == 384)

-- The temporary file is written and takes the place of the file.
unfoldable pub replace : Calls → Store → List (Bytes × Bytes) → Option Bytes → Option Bytes → Saved
replace c s devices none file = (s, file, some system_error)
replace c s devices (some text) file =
    if not c.creates || not c.writes || not c.syncs || not c.closes || not c.renames
    then (s, file, some system_error)
    else (record s { devices = devices }, some text, none)

unfoldable pub save_checked :
    (Document → Option Bytes) → Calls → ℕ → Store → Bytes → Bytes → Option Bytes → Saved
save_checked marshal c user s fp id file =
    let devices = insert Bytes-discrete fp id s.devices in
    if not c.makes_directory then (s, file, some system_error) else elim c.directory [
      | none ↦ (s, file, some system_error)
      | some st ↦
          if is_unsafe_directory user st
          then (s, file, some unsafe_directory)
          else if is_unsafe_target c.target
          then (s, file, some unsafe_target)
          else replace c s devices (marshal (record { version = pos 1; devices = some devices }))
              file
    ]

-- `Save`
unfoldable pub save :
    (Document → Option Bytes) → Calls → ℕ → Store → Bytes → Bytes → Option Bytes → Saved
save marshal c user s fp id file =
    if is_some s.err
    then (s, file, s.err)
    else if not (valid_fingerprint fp) || is_empty id
    then (s, file, none)
    else if leb 256 (length s.devices) && is_empty (value_at fp s.devices)
    then (s, file, some limit_reached)
    else save_checked marshal c user s fp id file
