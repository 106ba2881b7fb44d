-- ===== src/Adapter.antt =====
-- `Run` of internal/app/app.go: the askpass program that ssh starts. It sends one request to the
-- session service, follows the events that come back, and writes the answer on standard output.
-- What the system answers are arguments, and so are the readings of the context.
pub mod Outputs
pub mod Endings
use gtkaskpass_yubikey.Base.{
  ℕ, Bool, true, false, not, ◌&&◌, ◌||◌, Option, none, some, List, [], ◌∷◌, Bytes, Bytes-discrete,
  codes, decide, is_empty, is_some, if◌then◌else◌,
}
use gtkaskpass_yubikey.Base.Int.{ℤ, pos, negsuc}
use gtkaskpass_yubikey.Askpass.{WriteError, write_response}
use gtkaskpass_yubikey.Ipc.Handle.{Request, is_version}
use gtkaskpass_yubikey.Service.Popups.{session_keys}

-- The fields of a `Response` of version 2.
pub record Message : Type 0 where
  pub version : ℤ
  pub event : Bytes
  pub code : ℤ
  pub notify : Bool
  pub secret_response : Bool
  pub secret : Bytes
  pub reason : Bytes

-- What one `ReadFrame` brings: an error, with the state of the context, or a message, with what the
-- calls made for it answer: the context, the deadlines and the frame that is sent.
pub data Incoming : Type 0 where
  lost : (is_cancelled : Bool) → Incoming
  message : Message → (is_cancelled sets_deadline sends : Bool) → Incoming

-- The exit status, standard output, and whether the delivery was reported.
pub record End (W : Type 0) : Type 0 where
  pub out : W
  pub code : ℤ
  pub told : Bool

-- What the calls before the loop answer.
pub record Start : Type 0 where
  pub has_trace : Bool
  pub is_cancelled : Bool
  pub dials : Bool
  pub sets_deadline : Bool
  pub sends : Bool

abbrev is_event : Message → Bytes → Bool
is_event m event = decide (Bytes-discrete m.event event)

abbrev is_zero : ℤ → Bool
is_zero c = is_version 0 c

module _ {W : Type 0} (write : Bytes → W → W × ℕ × Option WriteError) where
  abbrev exits : W → ℤ → Option (End W)
  exits out code = some (record { out = out; code = code; told = false })

  -- The loop after "delivered", which waits for "done".
  unfoldable pub drain : List Incoming → W → Option (End W)
  drain [] out = none
  drain (lost is_cancelled ∷ incoming) out = some (record { out = out; code = pos 0; told = true })
  drain (message m is_cancelled sets_deadline sends ∷ incoming) out =
      let rest = drain incoming out in
      if is_event m (codes "done")
      then some (record { out = out; code = pos 0; told = true })
      else rest

  -- The case "result" once the answer is written.
  abbrev written :
      Message → Bool → Bool → List Incoming → W × ℕ × Option WriteError → Option (End W)
  written m sets_deadline sends incoming (out, n, err) =
      if is_some err
      then exits out (pos 2)
      else if not m.secret_response || not sets_deadline || not sends
      then exits out (pos 0)
      else drain incoming out

  -- The case "result"
  unfoldable pub result : Message → Bool → Bool → Bool → List Incoming → W → Option (End W)
  result m is_cancelled sets_deadline sends incoming out =
      if not (is_zero m.code)
      then exits out m.code
      else if is_cancelled
      then exits out (pos 1)
      else written m sets_deadline sends incoming (write_response write m.secret out)

  -- The loop. `none` says that the program still waits for a frame.
  unfoldable pub follow : Bool → List Incoming → W → Option (End W)
  follow notify [] out = none
  follow notify (lost is_cancelled ∷ incoming) out =
      exits out (if is_cancelled then if notify then pos 0 else pos 1 else pos 2)
  follow notify (message m is_cancelled sets_deadline sends ∷ incoming) out =
      let accepted = follow m.notify incoming out in
      let other = follow notify incoming out in
      if not (is_version 2 m.version)
      then exits out (pos 2)
      else if is_event m (codes "accepted")
      then if sets_deadline then accepted else exits out (pos 2)
      else if is_event m (codes "result")
      then result m is_cancelled sets_deadline sends incoming out
      else other

  -- `Run`
  unfoldable pub run : Start → List Incoming → W → Option (End W)
  run s incoming out =
      if not s.has_trace
      then exits out (pos 2)
      else if s.is_cancelled
      then exits out (pos 1)
      else if not s.dials || not s.sets_deadline || not s.sends
      then exits out (pos 2)
      else follow false incoming out

abbrev session_env : List Bytes → (Bytes → Bytes) → List (Bytes × Bytes)
session_env [] getenv = []
session_env (k ∷ keys) getenv = (k, getenv k) ∷ session_env keys getenv

-- The request that `Run` sends.
unfoldable pub ask : List Bytes → (Bytes → Bytes) → Request
ask args getenv =
    let traced = getenv (codes "SSH_ASKPASS_FIDO_TRACE") in
    record {
      args = args;
      hint = getenv (codes "SSH_ASKPASS_PROMPT");
      env = session_env session_keys getenv;
      no_cache = decide (Bytes-discrete (getenv (codes "SSH_ASKPASS_FIDO_CACHE")) (codes "off"));
      trace = not (is_empty traced) && not (decide (Bytes-discrete traced (codes "off")));
      version = pos 2;
      op = codes "ask";
      key = record { path = []; kind = []; fingerprint = [] };
      token = 0;
      secret = [];
    }
