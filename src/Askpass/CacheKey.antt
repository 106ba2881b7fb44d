-- ===== src/Askpass/CacheKey.antt =====
-- `CacheKey`: the key that a prompt of OpenSSH is about. The two regular expressions are written as
-- the prefixes, the group and the end that they match.
pub mod Prompts
use mathlib.Core.Option
use gtkaskpass_yubikey.Base.{
  ℕ, ◌+◌, Bool, true, false, not, ◌&&◌, ◌||◌, Option, none, some, List, [], ◌∷◌, ◌++◌, Bytes,
  Bytes-discrete, codes, length, ltb, ◌==◌, decide, is_empty, is_some, if◌then◌else◌,
}
use gtkaskpass_yubikey.Text.{
  cut_prefix, cut_suffix, has_prefix, has_suffix, trim_prefix, trim_suffix, has_line_break,
}
use gtkaskpass_yubikey.Base64.{value, ◌>>=◌}
use gtkaskpass_yubikey.Askpass.{Mode, Request, input}
use gtkaskpass_yubikey.Askpass.Fingerprint.{sha256_prefix, valid_fingerprint}

pub record Key : Type 0 where
  pub path : Bytes
  pub kind : Bytes
  pub fingerprint : Bytes

abbrev pub no_key : Key
no_key = record { path = []; kind = []; fingerprint = [] }

abbrev pub pin : Bytes
pin = codes "pin"

abbrev pub passphrase : Bytes
passphrase = codes "passphrase"

abbrev pub is_input : Mode → Bool
is_input input = true
is_input _ = false

-- The first of the prefixes that fits is cut off.
unfoldable pub cut_any : List Bytes → Bytes → Option Bytes
cut_any [] s = none
cut_any (p ∷ ps) s = elim (cut_prefix p s) [ none ↦ cut_any ps s | some r ↦ some r ]

-- What stands before `: ?$`.
unfoldable pub cut_colon : Bytes → Option Bytes
cut_colon s = elim (cut_suffix (codes ": ") s) [ none ↦ cut_suffix (codes ":") s | some r ↦ some r ]

unfoldable pub all_digits : Bytes → Bool
all_digits [] = true
all_digits (c ∷ s) = is_some (value c) && all_digits s

-- SHA256:[A-Za-z0-9+/]{43}
unfoldable pub is_sha256 : Bytes → Bool
is_sha256 s = elim (cut_prefix sha256_prefix s) [
  | none ↦ false
  | some r ↦ length r == 43 && all_digits r
]

abbrev pub pin_prefixes : List Bytes
pin_prefixes = codes "Enter PIN for ED25519-SK key " ∷ codes "Enter PIN for ECDSA-SK key " ∷ []

abbrev agent_prefixes : List Bytes
agent_prefixes =
    codes "Enter PIN and confirm user presence for ED25519-SK key "
    ∷ codes "Enter PIN and confirm user presence for ECDSA-SK key "
    ∷ pin_prefixes

-- pinPrompt.FindStringSubmatch: the group `(.+)`
unfoldable pub pin_prompt : Bytes → Option Bytes
pin_prompt s = do
  r ← cut_any pin_prefixes s
  group ← cut_colon r
  if is_empty group then none else some group

-- agentPINPrompt.FindStringSubmatch: the fingerprint
unfoldable pub agent_pin_prompt : Bytes → Option Bytes
agent_pin_prompt s = do
  r ← cut_any agent_prefixes s
  group ← cut_colon r
  if is_sha256 group then some group else none

abbrev pub quoted_prefix : Bytes
quoted_prefix = codes "Enter passphrase for key '"

abbrev pub quoted_suffix : Bytes
quoted_suffix = codes "':"

-- The texts that are no file names.
unfoldable pub is_reserved : Bytes → Bool
is_reserved path =
    has_suffix (codes " (will confirm each use)") path
    || decide (Bytes-discrete path (codes "(stdin)"))
    || decide (Bytes-discrete path (codes "PKCS#11"))

-- The loop over the two unquoted prefixes; `none` where neither fits.
unfoldable pub unquoted : List Bytes → Bytes → ℕ → Option (Key × Bool)
unquoted [] p len = none
unquoted (prefix ∷ prefixes) p len =
    let rest = unquoted prefixes p len in
    let path = trim_suffix (codes ":") (trim_prefix prefix p) in
    if has_prefix prefix p && has_suffix (codes ":") p && ltb len 1023
    then some (
        if is_reserved path
        then (no_key, false)
        else (record { path = path; kind = passphrase; fingerprint = [] }, not (is_empty path)))
    else rest

abbrev pub unquoted_prefixes : List Bytes
unquoted_prefixes = codes "Enter passphrase for " ∷ codes "Bad passphrase, try again for " ∷ []

-- The last pattern of `CacheKey`.
unfoldable pub pin_key : Bytes → Key × Bool
pin_key prompt = elim (pin_prompt prompt) [
  | none ↦ (no_key, false)
  | some group ↦
      if has_prefix sha256_prefix group || has_prefix (codes "MD5:") group
      then (no_key, false)
      else (record { path = group; kind = pin; fingerprint = [] }, true)
]

-- The passphrase patterns, then the PIN of a key file.
unfoldable pub file_key : Bytes → Key × Bool
file_key prompt =
    let p = trim_suffix (codes " ") prompt in
    let path = trim_suffix quoted_suffix (trim_prefix quoted_prefix p) in
    if has_prefix quoted_prefix p && has_suffix quoted_suffix p
    then (
      record { path = path; kind = passphrase; fingerprint = [] },
      not (is_empty path) && ltb (length path) 100,
    )
    else elim (unquoted unquoted_prefixes p (length prompt)) [
      | none ↦ pin_key prompt
      | some result ↦ result
    ]

unfoldable pub cache_key : Request → Key × Bool
cache_key r =
    if not (is_input r.mode) || has_line_break r.prompt
    then (no_key, false)
    else elim (agent_pin_prompt r.prompt) [
      | some fp ↦ (record { path = []; kind = pin; fingerprint = fp }, valid_fingerprint fp)
      | none ↦ file_key r.prompt
    ]
