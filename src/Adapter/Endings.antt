-- ===== src/Adapter/Endings.antt =====
-- The adapter ends when its connection is lost.
use gtkaskpass_yubikey.Base.{
  ℕ, ◌≡◌, refl, Bool, true, false, not, ◌||◌, Option, List, [], ◌∷◌, Bytes, codes, is_some,
  if_cases,
}
use gtkaskpass_yubikey.Askpass.{WriteError, write_response}
use gtkaskpass_yubikey.Ipc.Handle.{is_version}
use gtkaskpass_yubikey.Adapter.{
  Message, Incoming, lost, message, End, Start, is_event, is_zero, drain, written, result, follow,
  run,
}

-- The connection is lost at some point.
pub data IsLost : List Incoming → Type 0 where
  now : (c : Bool) (incoming : List Incoming) → IsLost (lost c ∷ incoming)
  after : (x : Incoming) (incoming : List Incoming) → IsLost incoming → IsLost (x ∷ incoming)

not_lost : ¬ (IsLost [])
not_lost h = elim h [ ]

-- The program has ended.
abbrev HasEnded : {W : Type 0} → Option (End W) → Type 0
HasEnded o = is_some o ≡ true

module _ {W : Type 0} (write : Bytes → W → W × ℕ × Option WriteError) where
  drain-HasEnded :
      (incoming : List Incoming) (out : W) → IsLost incoming → HasEnded (drain write incoming out)
  unfolding drain
  drain-HasEnded [] out h = absurd (not_lost h)
  drain-HasEnded (lost c ∷ incoming) out h = refl
  drain-HasEnded (message m c d e ∷ incoming) out (after _ _ h) =
      if_cases HasEnded (is_event m (codes "done")) (λ _. refl) (λ _. drain-HasEnded incoming out h)

  result-HasEnded :
      (m : Message) (is_cancelled sets_deadline sends : Bool) (incoming : List Incoming) (out : W)
      → IsLost incoming
      → HasEnded (result write m is_cancelled sets_deadline sends incoming out)
  unfolding result
  result-HasEnded m is_cancelled sets_deadline sends incoming out h =
      if_cases HasEnded (not (is_zero m.code)) (λ _. refl)
        (λ _.
          if_cases HasEnded is_cancelled (λ _. refl)
            (λ _. ended (write_response write m.secret out)))
    where
      ended :
          (r : W × ℕ × Option WriteError)
          → HasEnded (written write m sets_deadline sends incoming r)
      ended (w, n, err) =
          if_cases HasEnded (is_some err) (λ _. refl)
            (λ _.
              if_cases HasEnded (not m.secret_response || not sets_deadline || not sends)
                (λ _. refl) (λ _. drain-HasEnded incoming w h))

  follow-HasEnded :
      (notify : Bool) (incoming : List Incoming) (out : W)
      → IsLost incoming
      → HasEnded (follow write notify incoming out)
  unfolding follow
  follow-HasEnded notify [] out h = absurd (not_lost h)
  follow-HasEnded notify (lost c ∷ incoming) out h = refl
  follow-HasEnded notify (message m c d e ∷ incoming) out (after _ _ h) =
      if_cases HasEnded (not (is_version 2 m.version)) (λ _. refl)
        (λ _.
          if_cases HasEnded (is_event m (codes "accepted"))
            (λ _. if_cases HasEnded d (λ _. follow-HasEnded m.notify incoming out h) (λ _. refl))
            (λ _.
              if_cases HasEnded (is_event m (codes "result"))
                (λ _. result-HasEnded m c d e incoming out h)
                (λ _. follow-HasEnded notify incoming out h)))

  -- Whatever the system answers, `Run` ends once the connection is lost.
  pub run-HasEnded :
      (s : Start) (incoming : List Incoming) (out : W)
      → IsLost incoming
      → is_some (run write s incoming out) ≡ true
  unfolding run
  run-HasEnded s incoming out h =
      if_cases HasEnded (not s.has_trace) (λ _. refl)
        (λ _.
          if_cases HasEnded s.is_cancelled (λ _. refl)
            (λ _.
              if_cases HasEnded (not s.dials || not s.sets_deadline || not s.sends) (λ _. refl)
                (λ _. follow-HasEnded false incoming out h)))
