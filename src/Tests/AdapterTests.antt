-- ===== src/Tests/AdapterTests.antt =====
-- The adapter with a service that answers, in the model of internal/app/app.go.
use gtkaskpass_yubikey.Base.{
  ◌≡◌, refl, true, false, some, List, [], ◌∷◌, ◌++◌, Bytes, Bytes-discrete, ℕ_discrete, codes,
  is_some,
}
use gtkaskpass_yubikey.Base.Int.{pos}
use gtkaskpass_yubikey.Text.{has_line_break}
use gtkaskpass_yubikey.Text.Utf8.{valid_utf8}
use gtkaskpass_yubikey.Askpass.{validate, write_response}
use gtkaskpass_yubikey.Adapter.{
  Message, Incoming, lost, message, End, Start, drain, result, follow, run, ask,
}
use gtkaskpass_yubikey.Adapter.Outputs.{standard_output, Ended, run-Ended}
use gtkaskpass_yubikey.Adapter.Endings.{now, run-HasEnded}

program : Unit {0}
unfolding ℕ_discrete Bytes-discrete has_line_break valid_utf8 validate write_response drain result
    follow run ask
program = tt

abbrev starts : Start
starts = record {
  has_trace = true;
  is_cancelled = false;
  dials = true;
  sets_deadline = true;
  sends = true;
}

abbrev event : Bytes → Bytes → Message
event name secret = record {
  version = pos 2;
  event = name;
  code = pos 0;
  notify = false;
  secret_response = true;
  secret = secret;
  reason = [];
}

abbrev incoming : List Incoming
incoming =
    message (event (codes "accepted") []) false true true
    ∷ message (event (codes "result") (codes "s3cret")) false true true
    ∷ message (event (codes "done") []) false true true
    ∷ []

abbrev ended : End Bytes
ended = record { out = codes "s3cret" ++ (10 ∷ []); code = pos 0; told = true }

answers : run standard_output starts incoming [] ≡ some ended
unfolding program
answers = refl

uncached : (ask [] (λ name. codes "off")).no_cache ≡ true
unfolding program
uncached = refl

run-Ended_example : Ended incoming [] ended
run-Ended_example = run-Ended starts incoming [] ended answers

run-HasEnded_example : is_some (run standard_output starts (lost true ∷ []) []) ≡ true
run-HasEnded_example = run-HasEnded standard_output starts (lost true ∷ []) [] (now true [])
