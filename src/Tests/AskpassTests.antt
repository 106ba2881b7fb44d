-- ===== src/Tests/AskpassTests.antt =====
-- Prompts and fingerprints, in the model of internal/askpass/protocol.go.
use gtkaskpass_yubikey.Base.{ap, Bool, ◌≡◌, ◌↔◌, refl, true, [], ◌++◌, codes, arith}
use gtkaskpass_yubikey.Text.{has_line_break}
use gtkaskpass_yubikey.Askpass.Fingerprint.{sha256_prefix, valid_fingerprint}
use gtkaskpass_yubikey.Askpass.Fingerprint.Canonical.{IsFingerprint, valid_fingerprint_iff}
use gtkaskpass_yubikey.Askpass.CacheKey.{Key, cache_key, passphrase}
use gtkaskpass_yubikey.Cache.Identity.{valid}
use gtkaskpass_yubikey.Cache.Identity.Prompts.{cached, cache_key-valid}
use gtkaskpass_yubikey.Askpass.CacheKey.Prompts.{ask, quoted_prompt, cache_key-quoted}

valid_fingerprint_iff_example :
    (valid_fingerprint (sha256_prefix ++ codes "47DEQpj8HBSa+/TImW+5JCeuQeRkm5NMpJWZG3hSuFU")
      ≡ true)
    ↔ IsFingerprint (sha256_prefix ++ codes "47DEQpj8HBSa+/TImW+5JCeuQeRkm5NMpJWZG3hSuFU")
valid_fingerprint_iff_example =
    valid_fingerprint_iff (sha256_prefix ++ codes "47DEQpj8HBSa+/TImW+5JCeuQeRkm5NMpJWZG3hSuFU")

cache_key-quoted_example :
    cache_key (ask (quoted_prompt (codes "/home/u/.ssh/id")))
    ≡ (record { path = codes "/home/u/.ssh/id"; kind = passphrase; fingerprint = [] }, true)
unfolding has_line_break
cache_key-quoted_example =
    cache_key-quoted (codes "/home/u/.ssh/id") (λ e. ground (arith, e)) (ground arith) refl

cache_key-valid_example :
    valid (cached (cache_key (ask (quoted_prompt (codes "/home/u/.ssh/id")))).0) ≡ true
unfolding has_line_break
cache_key-valid_example = cache_key-valid (ask (quoted_prompt (codes "/home/u/.ssh/id"))) (
    ap (λ (p : Key × Bool). p.1)
      (cache_key-quoted (codes "/home/u/.ssh/id") (λ e. ground (arith, e)) (ground arith) refl))
