-- ===== src/Tests/FidoTests.antt =====
-- One security key, in the model of internal/fido/backend.go.
use gtkaskpass_yubikey.Base.{
  ◌≡◌, ◌≢◌, refl, true, false, Option, none, some, [], ◌∷◌, ◌++◌, Bytes, Bytes-discrete, ℕ_discrete,
  codes, decide, if◌then◌else◌, arith,
}
use gtkaskpass_yubikey.Base.Int.{pos}
use gtkaskpass_yubikey.Text.{trim_left, trim_right, space_len, after_last}
use gtkaskpass_yubikey.Text.Decimal.{digits}
use gtkaskpass_yubikey.Text.Paths.{elements, clean_elements, clean, head_of}
use gtkaskpass_yubikey.Dialog.{Device}
use gtkaskpass_yubikey.Fido.{
  System, Info, Answers, ok, exhausted, search_usb, identity, discover, discover_all, verify,
  verify_opened,
}
use gtkaskpass_yubikey.Fido.Verifying.{IsVerified, verify-IsVerified}
use gtkaskpass_yubikey.Fido.Searching.{search-ends}

program : Unit {0}
unfolding ℕ_discrete Bytes-discrete trim_left trim_right space_len after_last digits elements
    clean_elements clean head_of search_usb identity discover discover_all verify verify_opened
program = tt

abbrev file : Bytes → Option Bytes
file p =
    if decide (Bytes-discrete p (codes "/d/u/idVendor"))
    then some (codes "1050" ++ (10 ∷ []))
    else if decide (Bytes-discrete p (codes "/d/u/idProduct"))
    then some (codes "0407" ++ (10 ∷ []))
    else none

abbrev system : System
system = record {
  stat = λ p. some (record { ino = 1; rdev = 2; ctim_sec = pos 3; ctim_nsec = pos 4 });
  real_path = λ p. some (codes "/d/u/i");
  read_file = file;
  digest = λ text. [];
}

abbrev info : Info
info = record {
  is_over = false;
  path = codes "/dev/hidraw0";
  opens = true;
  is_fido2 = true;
  has_pin = true;
  count = some (pos 8);
  manufacturer = codes "Y";
  product = codes "K ";
  system = system;
}

abbrev answers : Answers
answers = record {
  is_over = false;
  before = system;
  opens = true;
  after = system;
  count = some (pos 8);
  is_over_later = false;
  code = ok;
  count_later = none;
}

abbrev key : Device
key = record {
  path = codes "/dev/hidraw0";
  label = codes "Y K (/dev/hidraw0)";
  stable_id = [];
  connection = codes "/d/u/i:1:2:3:4::";
  retries = pos 8;
}

finds : discover (some (info ∷ [])) ≡ some (key ∷ [])
unfolding program
finds = refl

verify-IsVerified_example :
    IsVerified answers key (codes "1234") (verify answers key (codes "1234"))
verify-IsVerified_example = verify-IsVerified answers key (codes "1234")

search-ends_example : search_usb system 6 (codes "/d/u/i") ≢ exhausted
search-ends_example = search-ends system 6 (codes "/d/u/i") refl (omega arith)
