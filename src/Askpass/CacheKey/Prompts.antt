-- ===== src/Askpass/CacheKey/Prompts.antt =====
-- The prompts that OpenSSH writes are read back.
use mathlib.Core.List.{append_assoc}
use gtkaskpass_yubikey.Base.{
  ◌<◌, ◌≡◌, ◌≢◌, refl, ap, sym, true, false, none, [], ◌++◌, Bytes, arith, codes, length,
}
use gtkaskpass_yubikey.Text.{cut_prefix, has_line_break}
use gtkaskpass_yubikey.Text.Affixes.{
  cut_prefix-append, cut_suffix-append, cut_suffix_of, has_line_break-append,
}
use gtkaskpass_yubikey.Askpass.{Request, input, ssh_passphrase}
use gtkaskpass_yubikey.Askpass.CacheKey.{
  cache_key, file_key, agent_pin_prompt, cut_any, passphrase, quoted_prefix, quoted_suffix,
}

abbrev pub ask : Bytes → Request
ask prompt = record { prompt = prompt; mode = input; title = ssh_passphrase; touch = false }

abbrev pub quoted_prompt : Bytes → Bytes
quoted_prompt path = quoted_prefix ++ (path ++ codes "': ")

agent_quoted : (path : Bytes) → agent_pin_prompt (quoted_prompt path) ≡ none
unfolding agent_pin_prompt cut_any cut_prefix
agent_quoted path = refl

file_quoted :
    (path : Bytes)
    → path ≢ []
    → length path < 100
    → file_key (quoted_prompt path)
      ≡ (record { path = path; kind = passphrase; fingerprint = [] }, true)
unfolding file_key
file_quoted path h k =
    let body : Bytes = path ++ quoted_suffix in
    let e : ◌≡◌ {A = Bytes} (quoted_prompt path) ((quoted_prefix ++ body) ++ codes " ") =
      ap (◌++◌ quoted_prefix) (sym (append_assoc path quoted_suffix (codes " "))) in
    rw
      (
        cut_suffix_of (quoted_prefix ++ body) (codes " ") e,
        cut_prefix-append quoted_prefix body,
        cut_suffix_of (quoted_prefix ++ path) quoted_suffix {s = quoted_prefix ++ body} refl,
        cut_suffix-append path quoted_suffix,
      )
      (ground arith)

clean_ends : (has_line_break quoted_prefix ≡ false) × (has_line_break (codes "': ") ≡ false)
unfolding has_line_break
clean_ends = (refl, refl)

-- From the prompt of ssh for the passphrase of a key file, for a path that is not empty, shorter
-- than 100 bytes and without NUL and line breaks, `CacheKey` gets this path and a passphrase, and
-- says that it may be cached.
pub cache_key-quoted :
    (path : Bytes)
    → path ≢ []
    → length path < 100
    → has_line_break path ≡ false
    → cache_key (ask (quoted_prompt path))
      ≡ (record { path = path; kind = passphrase; fingerprint = [] }, true)
unfolding cache_key
cache_key-quoted path h k clean = ground (
  arith,
  agent_quoted path,
  file_quoted path h k,
  has_line_break-append quoted_prefix (path ++ codes "': "),
  has_line_break-append path (codes "': "),
  clean_ends,
)
