-- ===== src/Conversation.antt =====
-- The service's handler, internal/service/service.go, and the adapter, internal/app/app.go, together:
-- what the adapter makes of the frames that the handler sends.
pub mod Meanings
pub mod Ends
use gtkaskpass_yubikey.Base.{
  ℕ, zero, suc, ◌≡◌, ◌≢◌, refl, sym, ◌∙◌, Bool, true, false, not, Option, none, some, List, [], ◌∷◌,
  ◌++◌, Bytes, Bytes-discrete, codes, if◌then◌else◌, ◌==◌, length, inl, inr, arith, Bool-cases,
}
use gtkaskpass_yubikey.Base.Int.{ℤ, pos, negsuc}
use gtkaskpass_yubikey.Askpass.{validate, write_response}
use gtkaskpass_yubikey.Ipc.Handle.{is_version, reason_text}
use gtkaskpass_yubikey.Adapter.{
  Message, Incoming, lost, message, End, Start, drain, result, follow, run,
}
use gtkaskpass_yubikey.Adapter.Outputs.{standard_output, response-valid}
use gtkaskpass_yubikey.Service.Handler.World.{
  Reply, Ack, Event, Log, accepted, window_shown, cache_reason, failed, confirmed, answered,
  cache_update, finished, acted, discovered, begun, rejected, tried, sent, acknowledged, committed,
  forgotten, saved,
}
use gtkaskpass_yubikey.Service.Handling.Trace.{
  Phase, quiet, opened, offered, delivered, ended, phase, Safe,
}

abbrev event : Bytes → Message
event name = record {
  version = pos 2;
  event = name;
  code = pos 0;
  notify = false;
  secret_response = false;
  secret = [];
  reason = [];
}

-- The frame of a reply, as the adapter reads it.
abbrev pub wire : Reply → Message
wire (accepted notify) = record (event (codes "accepted")) { notify = notify }
wire window_shown = event (codes "window-shown")
wire (cache_reason r) = record (event (codes "cache")) { reason = reason_text r }
wire (failed n) = record (event (codes "result")) { code = pos n }
wire confirmed = record (event (codes "result")) { secret = codes "yes" }
wire (answered v) = record (event (codes "result")) { secret = v; secret_response = true }
wire (cache_update stored) = record (event (codes "cache-update")) {
  reason = if stored then codes "stored" else codes "stale";
}
wire finished = event (codes "done")

-- Every frame was written.
abbrev pub AllWritten : Log → Type 0
AllWritten [] = Unit {0}
AllWritten (sent r is_written ∷ log) = (is_written ≡ true) × AllWritten log
AllWritten (e ∷ log) = AllWritten log

-- What the adapter reads in a run with these events, and then: the frames that were written.
unfoldable pub incoming : Log → List Incoming → List Incoming
incoming [] more = more
incoming (sent r true ∷ log) more = incoming log (message (wire r) false true true ∷ more)
incoming (e ∷ log) more = incoming log more

-- An adapter that reaches the service.
abbrev pub good_start : Start
good_start = record {
  has_trace = true;
  is_cancelled = false;
  dials = true;
  sets_deadline = true;
  sends = true;
}

abbrev unanswered : (is_cancelled notify : Bool) → Bytes → End Bytes
unanswered is_cancelled notify out = record {
  out = out;
  code = if is_cancelled then if notify then pos 0 else pos 1 else pos 2;
  told = false;
}

abbrev written_end : Bytes → Bytes → End Bytes
written_end v out =
    if validate v
    then record { out = out ++ (v ++ (10 ∷ [])); code = pos 0; told = true }
    else record { out = out; code = pos 2; told = false }

-- How the adapter ends, by the result that the handler has sent.
unfoldable pub end_of : Bool → Log → Bytes → End Bytes
end_of is_cancelled [] out = unanswered is_cancelled false out
end_of is_cancelled (sent (accepted notify) true ∷ log) out = unanswered is_cancelled notify out
end_of is_cancelled (sent (failed n) true ∷ log) out = record {
  out = out;
  code = pos n;
  told = false;
}
end_of is_cancelled (sent confirmed true ∷ log) out = record {
  out = out ++ (codes "yes" ++ (10 ∷ []));
  code = pos 0;
  told = false;
}
end_of is_cancelled (sent (answered v) true ∷ log) out = written_end v out
end_of is_cancelled (e ∷ log) out = end_of is_cancelled log out
