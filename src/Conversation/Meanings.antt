-- ===== src/Conversation/Meanings.antt =====
-- The adapter ends as the handler's result says.
use gtkaskpass_yubikey.Base.{
  ℕ, ◌≡◌, refl, ◌∙◌, Bool, true, false, Option, some, List, [], ◌∷◌, ◌++◌, Bytes, Bytes-discrete,
  ℕ_discrete, codes, if◌then◌else◌, ◌==◌, inl, inr, Bool-cases,
}
use gtkaskpass_yubikey.Base.Int.{pos}
use gtkaskpass_yubikey.Askpass.{validate, write_response, invalid_response}
use gtkaskpass_yubikey.Text.{has_line_break}
use gtkaskpass_yubikey.Text.Utf8.{valid_utf8}
use gtkaskpass_yubikey.Cache.Store.{Reason}
use gtkaskpass_yubikey.Adapter.{Incoming, lost, message, End, drain, result, follow}
use gtkaskpass_yubikey.Adapter.Outputs.{standard_output, response-valid}
use gtkaskpass_yubikey.Service.Handler.World.{
  Reply, Log, accepted, window_shown, cache_reason, failed, confirmed, answered, cache_update,
  finished,
}
use gtkaskpass_yubikey.Service.Handling.Trace.{Phase, quiet, opened, offered, delivered, ended}
use gtkaskpass_yubikey.Conversation.{wire, incoming, unanswered, written_end, end_of}

abbrev pub reads : Bool → List Incoming → Bytes → Option (End Bytes)
reads notify more out = follow standard_output notify more out

-- After the value is written, only the end of the exchange is awaited.
abbrev pub told : Bytes → List Incoming → Bytes → Option (End Bytes)
told v more out =
    if validate v
    then drain standard_output more (out ++ (v ++ (10 ∷ [])))
    else some (record { out = out; code = pos 2; told = false })

abbrev pub frame : Reply → Incoming
frame r = message (wire r) false true true

response-invalid :
    (value out : Bytes)
    → validate value ≡ false
    → write_response standard_output value out ≡ (out, 0, some invalid_response)
unfolding write_response
response-invalid value out e = rw e refl

yes-valid : validate (codes "yes") ≡ true
unfolding validate valid_utf8 has_line_break
yes-valid = refl

module _ (out : Bytes) (notify : Bool) (more : List Incoming) where
  pub follow-accepted : (n : Bool) → reads notify (frame (accepted n) ∷ more) out ≡ reads n more out
  unfolding follow Bytes-discrete ℕ_discrete
  follow-accepted n = refl

  pub follow-shown : reads notify (frame window_shown ∷ more) out ≡ reads notify more out
  unfolding follow Bytes-discrete ℕ_discrete
  follow-shown = refl

  pub follow-reason :
      (r : Reason) → reads notify (frame (cache_reason r) ∷ more) out ≡ reads notify more out
  unfolding follow Bytes-discrete ℕ_discrete
  follow-reason r = refl

  pub follow-failed :
      (n : ℕ)
      → (n == 0) ≡ false
      → reads notify (frame (failed n) ∷ more) out
        ≡ some (record { out = out; code = pos n; told = false })
  unfolding follow result Bytes-discrete ℕ_discrete
  follow-failed n e = rw e refl

  pub follow-answered : (v : Bytes) → reads notify (frame (answered v) ∷ more) out ≡ told v more out
  unfolding follow result Bytes-discrete ℕ_discrete
  follow-answered v = elim (Bool-cases (validate v)) [
    | inl e ↦ rw (response-valid v out e, e) refl
    | inr e ↦ rw (response-invalid v out e, e) refl
  ]

  pub follow-confirmed :
      reads notify (frame confirmed ∷ more) out
      ≡ some (record { out = out ++ (codes "yes" ++ (10 ∷ [])); code = pos 0; told = false })
  unfolding follow result Bytes-discrete ℕ_discrete
  follow-confirmed = rw (response-valid (codes "yes") out yes-valid) refl

-- What the adapter makes of the frames so far, which come before `more`; `e` is how it ends.
abbrev pub Reads : Bool → Bytes → Phase → (List Incoming → List Incoming) → End Bytes → Type 0
Reads b out quiet f e = ((more : List Incoming) → f more ≡ more) × (e ≡ unanswered b false out)
Reads b out opened f e =
    (notify : Bool) × ((more : List Incoming) → reads false (f more) out ≡ reads notify more out)
    × (e ≡ unanswered b notify out)
Reads b out (offered v) f e =
    ((more : List Incoming) → reads false (f more) out ≡ told v more out) × (e ≡ written_end v out)
Reads b out (delivered v) f e =
    ((more : List Incoming) → reads false (f more) out ≡ told v more out) × (e ≡ written_end v out)
Reads b out ended f e = reads false (f (lost b ∷ [])) out ≡ some e

abbrev pub Means : Bool → Bytes → Phase → Log → Type 0
Means b out p log = Reads b out p (λ more. incoming log more) (end_of b log out)

pub told-lost :
    (v : Bytes) (b : Bool) (out : Bytes) → told v (lost b ∷ []) out ≡ some (written_end v out)
unfolding drain
told-lost v b out = elim (Bool-cases (validate v)) [ inl e ↦ rw e refl | inr e ↦ rw e refl ]

pub told-update :
    (v : Bytes) (s : Bool) (more : List Incoming) (out : Bytes)
    → told v (frame (cache_update s) ∷ more) out ≡ told v more out
unfolding drain Bytes-discrete ℕ_discrete
told-update v s more out = refl

pub told-finished :
    (v : Bytes) (more : List Incoming) (out : Bytes)
    → told v (frame finished ∷ more) out ≡ some (written_end v out)
unfolding drain Bytes-discrete ℕ_discrete
told-finished v more out = elim (Bool-cases (validate v)) [ inl e ↦ rw e refl | inr e ↦ rw e refl ]

-- An adapter whose connection is lost now.
pub Means-lost :
    (b : Bool) (out : Bytes) (p : Phase) (log : Log)
    → Means b out p log
    → reads false (incoming log (lost b ∷ [])) out ≡ some (end_of b log out)
unfolding follow
Means-lost b out quiet log m = rw (m.0 (lost b ∷ []), m.1) refl
Means-lost b out opened log m = m.1 (lost b ∷ []) ∙ rw m.2 refl
Means-lost b out (offered v) log m = m.0 (lost b ∷ []) ∙ told-lost v b out ∙ rw m.1 refl
Means-lost b out (delivered v) log m = m.0 (lost b ∷ []) ∙ told-lost v b out ∙ rw m.1 refl
Means-lost b out ended log m = m
