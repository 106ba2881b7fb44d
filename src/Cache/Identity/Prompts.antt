-- ===== src/Cache/Identity/Prompts.antt =====
-- The keys that `CacheKey` of internal/askpass/protocol.go reads off prompts are valid keys of the
-- cache, with the same fields.
use gtkaskpass_yubikey.Base.{
  ℕ, ◌≡◌, Bool, true, false, not, ◌&&◌, ◌||◌, Option, none, some, List, [], ◌∷◌, Bytes,
  Bytes-discrete, ℕ_discrete, codes, is_empty, length, ltb, if_cases, Bool-cases, Option-cases, inl,
  inr, arith,
}
use gtkaskpass_yubikey.Text.{trim_prefix, trim_suffix, has_prefix, has_suffix, has_line_break}
use gtkaskpass_yubikey.Askpass.{Request}
use gtkaskpass_yubikey.Askpass.Fingerprint.{sha256_prefix, valid_fingerprint}
use gtkaskpass_yubikey.Askpass.CacheKey as Read
use gtkaskpass_yubikey.Askpass.CacheKey.{
  no_key, pin, passphrase, is_input, cut_any, cut_colon, pin_prefixes, pin_prompt, agent_pin_prompt,
  quoted_prefix, quoted_suffix, is_reserved, unquoted, unquoted_prefixes, pin_key, file_key,
  cache_key,
}
use gtkaskpass_yubikey.Cache.Identity.{Key, agent_pin, valid}

-- The key that internal/service/service.go makes of it.
abbrev pub cached : Read.Key → Key
cached k = record { path = k.path; kind = k.kind; fingerprint = k.fingerprint }

-- If the key may be cached, it is valid.
abbrev IsCacheable : Read.Key × Bool → Type 0
IsCacheable p = p.1 ≡ true → valid (cached p.0) ≡ true

valid-passphrase :
    (path : Bytes)
    → is_empty path ≡ false
    → valid (record { path = path; kind = passphrase; fingerprint = [] }) ≡ true
unfolding valid agent_pin Bytes-discrete ℕ_discrete
valid-passphrase path h = ground (arith, h)

valid-pin :
    (path : Bytes)
    → is_empty path ≡ false
    → valid (record { path = path; kind = pin; fingerprint = [] }) ≡ true
unfolding valid agent_pin Bytes-discrete ℕ_discrete
valid-pin path h = ground (arith, h)

valid-agent :
    (fp : Bytes)
    → valid_fingerprint fp ≡ true
    → valid (record { path = []; kind = pin; fingerprint = fp }) ≡ true
unfolding valid agent_pin Bytes-discrete ℕ_discrete
valid-agent fp h = ground (arith, h)

pin_prompt-full : (s group : Bytes) → pin_prompt s ≡ some group → is_empty group ≡ false
unfolding pin_prompt
pin_prompt-full s group h = elim (Option-cases (cut_any pin_prefixes s)) [
  | inl e ↦ absurd (ground (arith, h, e))
  | inr (r, e) ↦ elim (Option-cases (cut_colon r)) [
    | inl f ↦ absurd (ground (arith, h, e, f))
    | inr (g, f) ↦ elim (Bool-cases (is_empty g)) [
      | inl a ↦ absurd (ground (arith, h, e, f, a))
      | inr a ↦ ground (arith, h, e, f, a)
    ]
  ]
]

pin_key-IsCacheable : (prompt : Bytes) → IsCacheable (pin_key prompt)
unfolding pin_key
pin_key-IsCacheable prompt = elim (Option-cases (pin_prompt prompt)) [
  | inl e ↦ rw (pin_key, e) (λ h. absurd (ground (arith, h)))
  | inr (group, e) ↦
      rw (pin_key, e)
        (if_cases IsCacheable (has_prefix sha256_prefix group || has_prefix (codes "MD5:") group)
          (λ _ h. absurd (ground (arith, h)))
          (λ _ _. valid-pin group (pin_prompt-full prompt group e)))
]

-- A result, if there is one, is cacheable.
abbrev AreCacheable : Option (Read.Key × Bool) → Type 0
AreCacheable none = Unit
AreCacheable (some p) = IsCacheable p

path-IsCacheable :
    (path : Bytes)
    → IsCacheable (record { path = path; kind = passphrase; fingerprint = [] }, not (is_empty path))
path-IsCacheable path h = valid-passphrase path (ground (arith, h))

unquoted-AreCacheable :
    (prefixes : List Bytes) (p : Bytes) (len : ℕ) → AreCacheable (unquoted prefixes p len)
unfolding unquoted
unquoted-AreCacheable [] p len = tt
unquoted-AreCacheable (prefix ∷ prefixes) p len =
    if_cases AreCacheable (has_prefix prefix p && has_suffix (codes ":") p && ltb len 1023)
      (λ _.
        if_cases IsCacheable (is_reserved (trim_suffix (codes ":") (trim_prefix prefix p)))
          (λ _ h. absurd (ground (arith, h)))
          (λ _. path-IsCacheable (trim_suffix (codes ":") (trim_prefix prefix p))))
      (λ _. unquoted-AreCacheable prefixes p len)

unquoted-IsCacheable :
    (prompt : Bytes) (o : Option (Read.Key × Bool))
    → AreCacheable o
    → IsCacheable (elim o [ none ↦ pin_key prompt | some result ↦ result ])
unquoted-IsCacheable prompt none h = pin_key-IsCacheable prompt
unquoted-IsCacheable prompt (some result) h = h

file_key-IsCacheable : (prompt : Bytes) → IsCacheable (file_key prompt)
unfolding file_key
file_key-IsCacheable prompt =
    let p = trim_suffix (codes " ") prompt in
    let path = trim_suffix quoted_suffix (trim_prefix quoted_prefix p) in
    if_cases IsCacheable (has_prefix quoted_prefix p && has_suffix quoted_suffix p)
      (λ _ h. valid-passphrase path (ground (arith, h)))
      (λ _.
        unquoted-IsCacheable prompt (unquoted unquoted_prefixes p (length prompt))
          (unquoted-AreCacheable unquoted_prefixes p (length prompt)))

-- A key that `CacheKey` says may be cached is a valid key of the cache: an agent's PIN with a
-- canonical fingerprint, or a passphrase or PIN with a path and without a fingerprint.
pub cache_key-valid : (r : Request) → (cache_key r).1 ≡ true → valid (cached (cache_key r).0) ≡ true
unfolding cache_key
cache_key-valid r =
    if_cases IsCacheable (not (is_input r.mode) || has_line_break r.prompt)
      (λ _ h. absurd (ground (arith, h)))
      (λ _. elim (Option-cases (agent_pin_prompt r.prompt)) [
        | inl e ↦ rw e (file_key-IsCacheable r.prompt)
        | inr (fp, e) ↦ rw e (valid-agent fp)
      ])
