-- ===== src/Askpass/Fingerprint.antt =====
-- `ValidFingerprint`: canonical OpenSSH SHA-256 fingerprints of public keys.
pub mod Canonical
use gtkaskpass_yubikey.Base.{
  Bool, true, false, ◌&&◌, Option, none, some, Bytes, Bytes-discrete, codes, length, ◌==◌, decide,
}
use gtkaskpass_yubikey.Base64.{encode, decode}
use gtkaskpass_yubikey.Text.{cut_prefix}

abbrev pub sha256_prefix : Bytes
sha256_prefix = codes "SHA256:"

unfoldable pub valid_fingerprint : Bytes → Bool
valid_fingerprint value = elim (cut_prefix sha256_prefix value) [
  | none ↦ false
  | some encoded ↦ elim (decode encoded) [
    | none ↦ false
    | some digest ↦ length digest == 32 && decide (Bytes-discrete (encode digest) encoded)
  ]
]
