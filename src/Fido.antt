-- ===== src/Fido.antt =====
-- internal/fido/backend.go: the security keys that are connected, and the verification of a PIN. What
-- libfido2 and the file system answer are arguments.
pub mod Verifying
pub mod Searching
use gtkaskpass_yubikey.Base.{
  ℕ, zero, suc, Bool, true, false, not, ◌&&◌, ◌||◌, Option, none, some, List, [], ◌∷◌, ◌++◌, Bytes,
  Bytes-discrete, codes, decide, is_empty, length, ltb, if◌then◌else◌,
}
use gtkaskpass_yubikey.Base.Int.{ℤ, pos, negsuc}
use gtkaskpass_yubikey.Text.{trim_space}
use gtkaskpass_yubikey.Text.Decimal.{decimal, itoa}
use gtkaskpass_yubikey.Text.Paths.{base_name, join_path, dir}
use gtkaskpass_yubikey.Dialog.{
  Device, Status, Verdict, accepted, invalid, blocked, temporary_block, unavailable,
}

pub record Node : Type 0 where
  pub ino : ℕ
  pub rdev : ℕ
  pub ctim_sec : ℤ
  pub ctim_nsec : ℤ

-- stat(2), filepath.EvalSymlinks, os.ReadFile, and the hexadecimal SHA-256 of a text.
pub record System : Type 0 where
  pub stat : Bytes → Option Node
  pub real_path : Bytes → Option Bytes
  pub read_file : Bytes → Option Bytes
  pub digest : Bytes → Bytes

pub record Identity : Type 0 where
  pub stable : Bytes
  pub connection : Bytes
  pub serial : Bytes

abbrev pub no_identity : Identity
no_identity = record { stable = []; connection = []; serial = [] }

abbrev read_text : Option Bytes → Bytes
read_text none = []
read_text (some b) = if ltb 256 (length b) then [] else trim_space b

-- `read(filepath.Join(p, name))`
abbrev pub read : System → Bytes → Bytes → Bytes
read sys p name = read_text (sys.read_file (join_path p name))

-- Where the loop over the directories ends: at the one of a USB device, or at the root.
pub data Search : Type 0 where
  usb : (p vid pid : Bytes) → Search
  root : Search
  exhausted : Search

abbrev pub is_root : Bytes → Bool
is_root p = decide (Bytes-discrete p (codes "/"))

-- The loop, on fuel for its rounds
unfoldable pub search_usb : System → ℕ → Bytes → Search
search_usb sys zero p = exhausted
search_usb sys (suc n) p =
    let rest = search_usb sys n (dir p) in
    let vid = read sys p (codes "idVendor") in
    let pid = read sys p (codes "idProduct") in
    if is_root p then root else if is_empty vid || is_empty pid then rest else usb p vid pid

-- `"%s:%d:%d:%d:%d"`
abbrev pub connection_of : Bytes → Node → Bytes
connection_of base st =
    base
    ++ (58
        ∷ (decimal st.ino
            ++ (58 ∷ (decimal st.rdev ++ (58 ∷ (itoa st.ctim_sec ++ (58 ∷ itoa st.ctim_nsec)))))))

-- `"usb-serial-v1:%x"`, of a serial number that is not empty
abbrev pub stable_of : System → Bytes → Bytes → Bytes → Bytes
stable_of sys vid pid serial =
    if is_empty serial
    then []
    else codes "usb-serial-v1:" ++ sys.digest (vid ++ (58 ∷ (pid ++ (58 ∷ serial))))

abbrev identified : System → Bytes → Search → Identity
identified sys connection (usb p vid pid) =
    let serial = read sys p (codes "serial") in
    record {
      stable = stable_of sys vid pid serial;
      connection =
          connection ++ (58 ∷ (read sys p (codes "busnum") ++ (58 ∷ read sys p (codes "devnum"))));
      serial = serial;
    }
identified sys connection root = record { stable = []; connection = connection; serial = [] }
identified sys connection exhausted = record { stable = []; connection = connection; serial = [] }

abbrev identity_at : System → Node → Option Bytes → Identity
identity_at sys st none = no_identity
identity_at sys st (some base) =
    identified sys (connection_of base st) (search_usb sys (length base) base)

abbrev identity_of : System → Bytes → Option Node → Identity
identity_of sys path none = no_identity
identity_of sys path (some st) =
    identity_at sys st
      (sys.real_path (codes "/sys/class/hidraw/" ++ (base_name path ++ codes "/device")))

-- `identity`
unfoldable pub identity : System → Bytes → Identity
identity sys path = identity_of sys path (sys.stat path)

-- What libfido2 says of one of the devices that it lists, and what the context and the system say then.
pub record Info : Type 0 where
  pub is_over : Bool
  pub path : Bytes
  pub opens : Bool
  pub is_fido2 : Bool
  pub has_pin : Bool
  pub count : Option ℤ
  pub manufacturer : Bytes
  pub product : Bytes
  pub system : System

abbrev pub retries_of : Option ℤ → ℤ
retries_of none = negsuc 0
retries_of (some n) = n

abbrev label_of : Info → Bytes → Bytes
label_of i serial =
    trim_space (i.manufacturer ++ (32 ∷ i.product))
    ++ (if not (is_empty serial)
        then codes " (serial " ++ (serial ++ codes ")")
        else codes " (" ++ (i.path ++ codes ")"))

abbrev pub listed : Info → Device
listed i =
    let id = identity i.system i.path in
    record {
      path = i.path;
      label = label_of i id.serial;
      stable_id = id.stable;
      connection = id.connection;
      retries = retries_of i.count;
    }

abbrev with_device : Device → Option (List Device) → Option (List Device)
with_device d none = none
with_device d (some devices) = some (d ∷ devices)

unfoldable pub discover_all : List Info → Option (List Device)
discover_all [] = some []
discover_all (i ∷ infos) =
    let rest = discover_all infos in
    if i.is_over
    then none
    else if not i.opens || not (i.is_fido2 && i.has_pin)
    then rest
    else with_device (listed i) rest

-- `Discover`; `none` where the list cannot be had.
unfoldable pub discover : Option (List Info) → Option (List Device)
discover infos = elim infos [ none ↦ none | some is ↦ discover_all is ]

-- What `verify_pin` answers.
pub data Code : Type 0 where
  ok pin_invalid pin_auth_blocked pin_blocked other : Code

-- What the calls of `Verify` answer, in their order.
pub record Answers : Type 0 where
  pub is_over : Bool
  pub before : System
  pub opens : Bool
  pub after : System
  pub count : Option ℤ
  pub is_over_later : Bool
  pub code : Code
  pub count_later : Option ℤ

-- What is done with the device.
pub data Act : Type 0 where
  opened : Act
  asked : Bytes → Act
  closed : Act

abbrev unavailable_message : Bytes
unavailable_message =
    codes "Device unavailable, busy, or unsupported. Reconnect or select another device."

abbrev blocked_message : Bytes
blocked_message = codes "PIN blocked. Use the device's recovery procedure."

abbrev pub unusable : ℤ → Verdict
unusable retries = record { status = unavailable; retries = retries; message = unavailable_message }

-- The switch on the code; `count` and `later` are the retries before and after.
abbrev pub judged : Code → ℤ → ℤ → Verdict
judged ok count later = record {
  status = accepted;
  retries = count;
  message = codes "PIN accepted";
}
judged pin_invalid count later = record {
  status = invalid;
  retries = later;
  message = codes "Incorrect PIN. Enter it again; no retry is automatic.";
}
judged pin_auth_blocked count later = record {
  status = temporary_block;
  retries = later;
  message = codes "PIN authentication temporarily blocked. Reconnect the device.";
}
judged pin_blocked count later = record {
  status = blocked;
  retries = later;
  message = blocked_message;
}
judged other count later = record {
  status = unavailable;
  retries = later;
  message = unavailable_message;
}

abbrev pub is_zero : ℤ → Bool
is_zero (pos zero) = true
is_zero _ = false

abbrev pub is_at : System → Device → Bool
is_at sys d = decide (Bytes-discrete (identity sys d.path).connection d.connection)

-- From the opened device on
unfoldable pub verify_opened : Answers → Device → Bytes → Verdict × List Act
verify_opened a d pin =
    let count = retries_of a.count in
    if not (is_at a.after d)
    then (unusable (negsuc 0), [])
    else if is_zero count
    then (record { status = blocked; retries = count; message = blocked_message }, [])
    else if a.is_over_later
    then (unusable count, [])
    else (judged a.code count (retries_of a.count_later), asked pin ∷ [])

-- `Verify`
unfoldable pub verify : Answers → Device → Bytes → Verdict × List Act
verify a d pin =
    let (r, acts) = verify_opened a d pin in
    if a.is_over
    then (unusable (negsuc 0), [])
    else if is_empty (identity a.before d.path).connection || not (is_at a.before d)
    then (unusable (negsuc 0), [])
    else if not a.opens
    then (unusable (negsuc 0), [])
    else (r, opened ∷ (acts ++ (closed ∷ [])))
