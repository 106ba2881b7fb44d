-- ===== src/Askpass/Fingerprint/Canonical.antt =====
-- Exactly the encodings of 32-byte digests are accepted.
use gtkaskpass_yubikey.Base.{
  ◌≡◌, ◌↔◌, true, ◌++◌, arith, Bytes, length, All, Option-cases, inl, inr,
}
use gtkaskpass_yubikey.Base64.{encode, decode}
use gtkaskpass_yubikey.Base64.RoundTrip.{IsByte, decode-encode, decode-All}
use gtkaskpass_yubikey.Text.{cut_prefix}
use gtkaskpass_yubikey.Text.Affixes.{cut_prefix-append, cut_prefix_sound}
use gtkaskpass_yubikey.Askpass.Fingerprint.{sha256_prefix, valid_fingerprint}

-- A value is the fingerprint of a digest.
abbrev pub IsFingerprint : Bytes → Type 0
IsFingerprint v =
    (digest : Bytes) × (v ≡ sha256_prefix ++ encode digest)
    × (length digest ≡ 32)
    × All IsByte digest

pub valid_fingerprint-encode :
    (digest : Bytes)
    → length digest ≡ 32
    → All IsByte digest
    → valid_fingerprint (sha256_prefix ++ encode digest) ≡ true
unfolding valid_fingerprint
valid_fingerprint-encode d n h =
    ground (arith, cut_prefix-append sha256_prefix (encode d), decode-encode d h)

valid_fingerprint_sound : (v : Bytes) → valid_fingerprint v ≡ true → IsFingerprint v
unfolding valid_fingerprint
valid_fingerprint_sound v e = elim (Option-cases (cut_prefix sha256_prefix v)) [
  | inl n ↦ absurd (ground arith)
  | inr (s, cut) ↦ elim (Option-cases (decode s)) [
    | inl n ↦ absurd (ground arith)
    | inr (d, dec) ↦ (
      d,
      ground (arith, cut_prefix_sound sha256_prefix v s cut),
      ground arith,
      decode-All s d dec,
    )
  ]
]

-- A value is valid exactly when it is "SHA256:" and the base64 text of some 32 bytes.
pub valid_fingerprint_iff : (v : Bytes) → (valid_fingerprint v ≡ true) ↔ IsFingerprint v
valid_fingerprint_iff v =
    (valid_fingerprint_sound v, λ f. rw f.1 (valid_fingerprint-encode f.0 f.2 f.3))
