-- ===== src/Cache/Identity.antt =====
-- internal/cache/identity.go: what a cached credential is for.
pub mod Prompts
use gtkaskpass_yubikey.Base.{
  Bool, ◌&&◌, ◌||◌, Bytes, Bytes-discrete, ℕ_discrete, codes, decide, is_empty, not,
}
use gtkaskpass_yubikey.Askpass.Fingerprint.{valid_fingerprint}

pub record Key : Type 0 where
  pub path : Bytes
  pub kind : Bytes
  pub fingerprint : Bytes

pub record Identity : Type 0 where
  pub key : Key
  pub stamp : Bytes

unfoldable pub Key-discrete : Discrete Key
Key-discrete = hlevel ℕ_discrete

unfoldable pub Identity-discrete : Discrete Identity
Identity-discrete = hlevel ℕ_discrete

-- `AgentPIN`
unfoldable pub agent_pin : Key → Bool
agent_pin k =
    decide (Bytes-discrete k.kind (codes "pin"))
    && is_empty k.path
    && valid_fingerprint k.fingerprint

-- `Valid`
unfoldable pub valid : Key → Bool
valid k =
    agent_pin k
    || is_empty k.fingerprint
      && not (is_empty k.path)
      && (decide (Bytes-discrete k.kind (codes "passphrase"))
          || decide (Bytes-discrete k.kind (codes "pin")))
