-- ===== src/Adapter/Outputs.antt =====
-- What ssh gets from the adapter, and that it gets it.
use mathlib.Core.Path.{subst}
use gtkaskpass_yubikey.Base.{
  ℕ, ◌≡◌, ◌≢◌, refl, inl, inr, Bool, true, false, not, ◌||◌, Option, none, some, List, [], ◌∷◌,
  ◌++◌, Bytes, codes, length, ◌==◌, if_cases, Bool-cases, arith,
}
use gtkaskpass_yubikey.Base.Int.{ℤ, pos, negsuc}
use gtkaskpass_yubikey.Askpass.{WriteError, write_response, validate, invalid_response}
use gtkaskpass_yubikey.Ipc.Handle.{is_version}
use gtkaskpass_yubikey.Adapter.{
  Message, Incoming, lost, message, End, Start, is_event, is_zero, drain, written, result, follow,
  run,
}

-- A standard output that takes all that is written.
abbrev pub standard_output : Bytes → Bytes → Bytes × ℕ × Option WriteError
standard_output b out = (out ++ b, length b, none)

-- The message came in.
pub data Among (m : Message) : List Incoming → Type 0 where
  first : (a b c : Bool) (incoming : List Incoming) → Among m (message m a b c ∷ incoming)
  later : (x : Incoming) (incoming : List Incoming) → Among m incoming → Among m (x ∷ incoming)

-- A result without a failure, whose value is well formed.
pub record IsAnswer (m : Message) : Type 0 where
  pub version : is_version 2 m.version ≡ true
  pub event : is_event m (codes "result") ≡ true
  pub code : is_zero m.code ≡ true
  pub valid : validate m.secret ≡ true

-- The service said that the request is only a notification.
pub record IsNotified (m : Message) : Type 0 where
  pub version : is_version 2 m.version ≡ true
  pub event : is_event m (codes "accepted") ≡ true
  pub notify : m.notify ≡ true

-- How the program can end: with a failure and nothing written, with a notification that was closed
-- and nothing written, or with one answer, and a line feed.
pub data Ended (incoming : List Incoming) (out : Bytes) : End Bytes → Type 0 where
  failed :
      (code : ℤ)
      → code ≢ pos 0
      → Ended incoming out (record { out = out; code = code; told = false })
  dismissed :
      (m : Message)
      → Among m incoming
      → IsNotified m
      → Ended incoming out (record { out = out; code = pos 0; told = false })
  answered :
      (m : Message) (told : Bool)
      → Among m incoming
      → IsAnswer m
      → (told ≡ true → m.secret_response ≡ true)
      → Ended incoming out
          (record { out = out ++ (m.secret ++ (10 ∷ [])); code = pos 0; told = told })

abbrev Ends : List Incoming → Bytes → Option (End Bytes) → Type 0
Ends incoming out none = Unit
Ends incoming out (some e) = Ended incoming out e

not_zero : (c : ℤ) → not (is_zero c) ≡ true → c ≢ pos 0
not_zero (pos n) h e = ground (arith, h, e)
not_zero (negsuc n) h e = cc

pub response-valid :
    (value out : Bytes)
    → validate value ≡ true
    → write_response standard_output value out
      ≡ (out ++ (value ++ (10 ∷ [])), length (value ++ (10 ∷ [])), none)
unfolding write_response
response-valid value out h =
    let whole : not (length (value ++ (10 ∷ [])) == length (value ++ (10 ∷ []))) ≡ false =
      ground arith in
    rw (write_response, h, whole) refl

response-invalid :
    (value out : Bytes)
    → validate value ≡ false
    → write_response standard_output value out ≡ (out, 0, some invalid_response)
unfolding write_response
response-invalid value out h = rw (write_response, h) refl

answer :
    (m : Message)
    → is_version 2 m.version ≡ true
    → is_event m (codes "result") ≡ true
    → not (is_zero m.code) ≡ false
    → validate m.secret ≡ true
    → IsAnswer m
answer m v r z good = record { version = v; event = r; code = ground (arith, z); valid = good }

module _ (whole : List Incoming) (out : Bytes) where
  drain-Ends :
      (m : Message) (incoming : List Incoming)
      → Among m whole
      → IsAnswer m
      → m.secret_response ≡ true
      → Ends whole out (drain standard_output incoming (out ++ (m.secret ++ (10 ∷ []))))
  unfolding drain
  drain-Ends m [] a v r = tt
  drain-Ends m (lost c ∷ incoming) a v r = answered m true a v (λ _. r)
  drain-Ends m (message n c d e ∷ incoming) a v r =
      if_cases (Ends whole out) (is_event n (codes "done")) (λ _. answered m true a v (λ _. r))
        (λ _. drain-Ends m incoming a v r)

  written-Ends :
      (m : Message) (sets_deadline sends : Bool) (incoming : List Incoming)
      → Among m whole
      → IsAnswer m
      → Ends whole out (
          written standard_output m sets_deadline sends incoming
            (out ++ (m.secret ++ (10 ∷ [])), length (m.secret ++ (10 ∷ [])), none))
  written-Ends m sets_deadline sends incoming a v =
      if_cases (Ends whole out) (not m.secret_response || not sets_deadline || not sends)
        (λ _. answered m false a v (λ e. absurd (ground (arith, e))))
        (λ e. drain-Ends m incoming a v (ground (arith, e)))

  result-Ends :
      (m : Message) (is_cancelled sets_deadline sends : Bool) (incoming : List Incoming)
      → Among m whole
      → is_version 2 m.version ≡ true
      → is_event m (codes "result") ≡ true
      → Ends whole out (result standard_output m is_cancelled sets_deadline sends incoming out)
  unfolding result
  result-Ends m is_cancelled sets_deadline sends incoming a v r =
      if_cases (Ends whole out) (not (is_zero m.code)) (λ e. failed m.code (not_zero m.code e))
        (λ z.
          if_cases (Ends whole out) is_cancelled (λ _. failed (pos 1) (λ e. ground (arith, e)))
            (λ _. elim (Bool-cases (validate m.secret)) [
              | inl good ↦
                  rw (response-valid m.secret out good)
                    (written-Ends m sets_deadline sends incoming a (answer m v r z good))
              | inr bad ↦
                  rw (response-invalid m.secret out bad) (failed (pos 2) (λ e. ground (arith, e)))
            ]))

  follow-Ends :
      (notify : Bool) (incoming : List Incoming)
      → ((m : Message) → Among m incoming → Among m whole)
      → (notify ≡ true → (m : Message) × Among m whole × IsNotified m)
      → Ends whole out (follow standard_output notify incoming out)
  unfolding follow
  follow-Ends notify [] within notified = tt
  follow-Ends true (lost true ∷ incoming) within notified =
      let (m, a, v) = notified refl in dismissed m a v
  follow-Ends false (lost true ∷ incoming) within notified = failed (pos 1) (λ e. ground (arith, e))
  follow-Ends notify (lost false ∷ incoming) within notified =
      failed (pos 2) (λ e. ground (arith, e))
  follow-Ends notify (message m c d e ∷ incoming) within notified =
      if_cases (Ends whole out) (not (is_version 2 m.version))
        (λ _. failed (pos 2) (λ e. ground (arith, e)))
        (λ v.
          if_cases (Ends whole out) (is_event m (codes "accepted"))
            (λ k.
              if_cases (Ends whole out) d
                (λ _.
                  follow-Ends m.notify incoming
                    (λ n a. within n (later (message m c d e) incoming a))
                    (λ y. (
                      m,
                      within m (first c d e incoming),
                      record { version = ground (arith, v); event = k; notify = y },
                    )))
                (λ _. failed (pos 2) (λ e. ground (arith, e))))
            (λ _.
              if_cases (Ends whole out) (is_event m (codes "result"))
                (λ r.
                  result-Ends m c d e incoming (within m (first c d e incoming)) (ground (arith, v))
                    r)
                (λ _.
                  follow-Ends notify incoming (λ n a. within n (later (message m c d e) incoming a))
                    notified)))

run-Ends :
    (s : Start) (incoming : List Incoming) (out : Bytes)
    → Ends incoming out (run standard_output s incoming out)
unfolding run
run-Ends s incoming out =
    if_cases (Ends incoming out) (not s.has_trace) (λ _. failed (pos 2) (λ e. ground (arith, e)))
      (λ _.
        if_cases (Ends incoming out) s.is_cancelled (λ _. failed (pos 1) (λ e. ground (arith, e)))
          (λ _.
            if_cases (Ends incoming out) (not s.dials || not s.sets_deadline || not s.sends)
              (λ _. failed (pos 2) (λ e. ground (arith, e)))
              (λ _.
                follow-Ends incoming out false incoming (λ m a. a)
                  (λ e. absurd (ground (arith, e))))))

-- Where `Run` ends, with a standard output that takes all that is written, it has written nothing
-- and its status is not 0, or nothing and the service had accepted the request as a notification, or
-- its status is 0 and it has written the value of one result without a failure, of version 2 and
-- well formed, and a line feed; it reports a delivery only of a secret.
pub run-Ended :
    (s : Start) (incoming : List Incoming) (out : Bytes) (e : End Bytes)
    → run standard_output s incoming out ≡ some e
    → Ended incoming out e
run-Ended s incoming out e h = subst (Ends incoming out) h (run-Ends s incoming out)
