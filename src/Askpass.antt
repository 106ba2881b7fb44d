-- ===== src/Askpass.antt =====
-- internal/askpass/protocol.go: what OpenSSH asks for, and how an answer is written.
pub mod Fingerprint
pub mod CacheKey
use gtkaskpass_yubikey.Base.{
  ℕ, ◌+◌, Bool, true, false, not, ◌&&◌, ◌||◌, Option, none, some, List, [], ◌∷◌, ◌++◌, Bytes,
  Bytes-discrete, codes, length, ltb, ◌==◌, decide, is_empty, is_some, if◌then◌else◌,
}
use gtkaskpass_yubikey.Text.{has_prefix, has_line_break, fields, join}
use gtkaskpass_yubikey.Text.Utf8.{valid_utf8}

pub data Mode : Type 0 where
  input confirm notify : Mode

-- The titles that `Parse` gives.
pub data Title : Type 0 where
  ssh_input ssh_notification touch_key ssh_confirmation security_key_pin ssh_passphrase : Title

pub record Request : Type 0 where
  pub prompt : Bytes
  pub mode : Mode
  pub title : Title
  pub touch : Bool

abbrev pub max_response : ℕ
max_response = 1022

abbrev presence_prefix : Bytes
presence_prefix = codes "Confirm user presence for key"

-- The first argument, unless it is missing or empty.
abbrev prompt_of : List Bytes → Bytes
prompt_of ((c ∷ s) ∷ args) = c ∷ s
prompt_of _ = codes "Enter SSH passphrase:"

-- Is the text of the prompt, with its white space collapsed, OpenSSH's request for a touch?
unfoldable pub is_touch : Bytes → Bool
unfolding fields join
is_touch prompt =
    let normalized = join (fields prompt) in
    decide (Bytes-discrete normalized presence_prefix)
    || has_prefix (presence_prefix ++ b' ' ∷ []) normalized

-- The switch of `Parse`: a mode and a title.
unfoldable pub classify : List Bytes → Bytes → Bytes → Bool → Mode × Title
classify args prompt hint touch =
    if decide (Bytes-discrete hint (codes "none")) || is_empty hint && touch
    then (notify, if touch then touch_key else ssh_notification)
    else if decide (Bytes-discrete hint (codes "confirm"))
    then (confirm, ssh_confirmation)
    else if has_prefix (codes "Enter PIN for ") prompt
        || has_prefix (codes "Enter PIN and confirm user presence for ") prompt
    then (input, security_key_pin)
    else if has_prefix (codes "Enter passphrase") prompt
        || has_prefix (codes "Bad passphrase") prompt
        || is_empty args
    then (input, ssh_passphrase)
    else (input, ssh_input)

-- `Parse`; `none` is its error.
unfoldable pub parse : List Bytes → Bytes → Option Request
unfolding is_touch classify
parse args hint =
    if ltb 1 (length args)
    then none
    else let prompt = prompt_of args in
      let touch = is_touch prompt in
      let (mode, title) = classify args prompt hint touch in
      some (record { prompt = prompt; mode = mode; title = title; touch = touch })

-- `Validate`: is there no error?
unfoldable pub validate : Bytes → Bool
unfolding valid_utf8 has_line_break
validate value =
    if ltb max_response (length value)
    then false
    else valid_utf8 value && not (has_line_break value)

pub data WriteError : Type 0 where
  invalid_response short_write io_error : WriteError

-- `WriteResponse` over a writer, which returns how much it took and its error.
unfoldable pub write_response :
    {W : Type 0} → (Bytes → W → W × ℕ × Option WriteError) → Bytes → W → W × ℕ × Option WriteError
unfolding validate
write_response write value w =
    if not (validate value)
    then (w, 0, some invalid_response)
    else let buf = value ++ b'\n' ∷ [] in
      let (w', n, err) = write buf w in
      (w', n, if not (is_some err) && not (n == length buf) then some short_write else err)
