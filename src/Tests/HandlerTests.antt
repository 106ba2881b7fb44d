-- ===== src/Tests/HandlerTests.antt =====
-- One request for a PIN that is entered and kept, in the model of internal/service/service.go.
use gtkaskpass_yubikey.Base.{
  ◌+◌, ◌≤◌, ◌≡◌, ◌≢◌, refl, true, false, Option, none, some, List, [], ◌∷◌, ◌++◌, Bytes,
  Bytes-discrete, ℕ_discrete, codes, length, arith, ◌⊎◌,
}
use gtkaskpass_yubikey.Base.Int.{pos, negsuc, add64, ◌+ℤ◌}
use gtkaskpass_yubikey.Base.Maps.{lookup, insert, delete, retain}
use gtkaskpass_yubikey.Text.{has_line_break, fields, join, cut_byte, cut_prefix, cut_suffix}
use gtkaskpass_yubikey.Base64.{value, decode, encode, digit}
use gtkaskpass_yubikey.Text.Utf8.{valid_utf8}
use gtkaskpass_yubikey.Askpass.{validate, parse, is_touch, classify}
use gtkaskpass_yubikey.Askpass.Fingerprint.{valid_fingerprint}
use gtkaskpass_yubikey.Askpass.CacheKey.{
  cut_any, cut_colon, all_digits, is_sha256, agent_pin_prompt, cache_key,
}
use gtkaskpass_yubikey.Cache.Identity.{Key-discrete, Identity-discrete, agent_pin, valid}
use gtkaskpass_yubikey.Cache.Resolve.{resolve}
use gtkaskpass_yubikey.Text.Decimal.{digits}
use gtkaskpass_yubikey.Cache.Store.{
  SeenKey-discrete, new, next, erase, expire_entries, is_fresh, expire, issue, serve, begin_retry,
  begin_current, begin_entry, begin_live, begin_checked, begin, current, is_acceptable,
  store_secret, commit_ticket, commit_checked, commit,
}
use gtkaskpass_yubikey.Service.Handler.Windows.{
  send, fail, show, action, is_stale, await_action, window_cancelled, check_over, check_cancelled,
  show_or_fail, next_action,
}
use gtkaskpass_yubikey.Service.Handler.Opening.{
  is_monitored, open_request, parse_request, answer_at_once,
}
use gtkaskpass_yubikey.Service.Handler.Devices.{discover, choose_round, choose_device, bind_device}
use gtkaskpass_yubikey.Service.Handler.Attempts.{
  is_among, renew, reject_candidate, ask_value, show_busy, verify_pin, accept, judge, attempt,
  verify_value, round, rounds,
}
use gtkaskpass_yubikey.Service.Handler.Sessions.{
  absolute_key, prepare, lock_hardware, select_device, look_up, session, sessions,
}
use gtkaskpass_yubikey.Service.Handler.Delivery.{
  close_window, hand_over, store_value, settle, save_preference, deliver,
}
use gtkaskpass_yubikey.Cache.Identity.{Identity}
use gtkaskpass_yubikey.Cache.Store.{hit}
use gtkaskpass_yubikey.Cache.Store.Run.{after, Offered}
use gtkaskpass_yubikey.Service.Handler.Devices.{bound}
use gtkaskpass_yubikey.Service.Handling.Keeping.Origins.{asked_after, IsOwn, handle-origin}
use gtkaskpass_yubikey.Adapter.{lost, run}
use gtkaskpass_yubikey.Adapter.Outputs.{standard_output}
use gtkaskpass_yubikey.Dialog.{Device, Action, Verdict, Status}
use gtkaskpass_yubikey.Service.Handler.World.{
  Env, Context, State, exhausted, ◌>>=◌, call, lock_store, clock, begin_cache, current_cache,
  commit_cache,
}
use gtkaskpass_yubikey.Service.Handler.{handle}
use gtkaskpass_yubikey.Service.Handling.Patience.{cost, IsPatient}
use gtkaskpass_yubikey.Service.Handling.Trace.{Safe}
use gtkaskpass_yubikey.Service.Handling.Requests.{must_verify, handle-Safe}
use gtkaskpass_yubikey.Service.Handling.Counts.{tries, entries, results, handle-le}
use gtkaskpass_yubikey.Service.Handling.Completion.{handle-ends}
use gtkaskpass_yubikey.Conversation.{AllWritten, incoming, good_start, end_of}
use gtkaskpass_yubikey.Conversation.Ends.{handle-end}

program : Unit {0}
unfolding ℕ_discrete Bytes-discrete Key-discrete Identity-discrete SeenKey-discrete lookup insert
    delete has_line_break fields join cut_byte valid_utf8 parse is_touch classify validate
    valid_fingerprint cut_any cut_colon all_digits is_sha256 agent_pin_prompt cache_key agent_pin
    valid resolve digits new next erase expire_entries is_fresh expire issue serve begin_retry
    begin_current begin_entry begin_live begin_checked begin current is_acceptable store_secret
    commit_ticket commit_checked commit add64 ◌+ℤ◌ ◌>>=◌ call lock_store clock begin_cache
    current_cache commit_cache send fail show action is_stale await_action window_cancelled
    check_over check_cancelled show_or_fail next_action is_monitored open_request parse_request
    answer_at_once discover choose_round choose_device bind_device is_among renew reject_candidate
    ask_value show_busy verify_pin accept judge attempt verify_value round rounds absolute_key
    prepare lock_hardware select_device look_up session sessions close_window hand_over store_value
    settle save_preference deliver handle end_of cut_prefix cut_suffix value decode encode digit
    retain
program = tt

abbrev key : Device
key = record {
  path = codes "/dev/hidraw0";
  label = codes "key";
  stable_id = codes "a";
  connection = codes "1";
  retries = pos 8;
}

abbrev accepting : Verdict
accepting = record { status = Status.accepted; retries = pos 8; message = [] }

-- The user takes the actions of a list; everything else succeeds.
abbrev take_action : List Action → List Action × Option Action
take_action [] = ([], none)
take_action (a ∷ actions) = (actions, some a)

abbrev env : Env (List Action)
env = record {
  monitored = λ w. (w, false);
  opens = λ w. (w, true);
  shows = λ v w. (w, true);
  acts = take_action;
  is_cancelled = λ w. (w, false);
  is_over = λ w. (w, false);
  sends = λ r w. (w, true);
  acquires = λ w. (w, true);
  discovers = λ w. (w, some (key ∷ []));
  verifies = λ d v w. (w, accepting);
  acknowledges = λ w. (w, some (record { version = pos 2; op = codes "delivered" }));
  directory = λ p w. (w, none);
  files =
      λ w. (w, record { absolute = λ p. none; real_path = λ p. none; stat = λ p. none; user = 0 });
  now = λ w. (w, pos 0);
  preferred = λ f w. (w, []);
  saves = λ f n w. (w, true);
  others = λ w. (w, []);
}

abbrev prompt : Bytes
prompt = codes "Enter PIN for ED25519-SK key SHA256:47DEQpj8HBSa+/TImW+5JCeuQeRkm5NMpJWZG3hSuFU: "

abbrev context : Context (List Action)
context = record {
  env = env;
  request = record {
    args = prompt ∷ [];
    hint = [];
    env = [];
    no_cache = false;
    trace = true;
    version = pos 2;
    op = codes "ask";
    key = record { path = []; kind = []; fingerprint = [] };
    token = 0;
    secret = [];
  };
  caller = codes "7:7";
  runtime = [];
  verify_pin = true;
  has_monitor = false;
  has_preferences = true;
}

abbrev submits : Action
submits = record {
  kind = codes "submit";
  value = codes "1234";
  selected = negsuc 0;
  remember = true;
}

abbrev shows : Action
shows = record { kind = codes "shown"; value = []; selected = negsuc 0; remember = false }

abbrev start : State (List Action)
start = record {
  world = shows ∷ submits ∷ [];
  store = new (pos 1000);
  has_window = false;
  log = [];
}

take-cost : (w : List Action) → length (take_action w).0 + cost (take_action w).1 ≤ length w
take-cost [] = omega arith
take-cost (a ∷ w) = omega arith

same_le : (w : List Action) → length w ≤ length w
same_le w = omega arith

env-IsPatient : IsPatient env length
env-IsPatient = record {
  acts_le = take-cost;
  monitored_le = same_le;
  opens_le = same_le;
  shows_le = λ v. same_le;
  is_cancelled_le = same_le;
  is_over_le = same_le;
  sends_le = λ r. same_le;
  acquires_le = same_le;
  discovers_le = same_le;
  verifies_le = λ d v. same_le;
  acknowledges_le = same_le;
  directory_le = λ p. same_le;
  files_le = same_le;
  now_le = same_le;
  preferred_le = λ f. same_le;
  saves_le = λ f n. same_le;
  others_le = same_le;
}

handle-Safe_example :
    Safe
      (must_verify context (parse context.request.args context.request.hint))
      (handle context 7 start).1.log
handle-Safe_example = handle-Safe context 7 start refl

handle-le_example :
    (tries (handle context 7 start).1.log ≤ entries (handle context 7 start).1.log)
    × (results (handle context 7 start).1.log ≤ 1)
handle-le_example = handle-le context 7 start refl

handle-ends_example : (handle context 7 start).0 ≢ exhausted
handle-ends_example = handle-ends context length start 7 env-IsPatient (omega arith)

all_written : AllWritten (handle context 7 start).1.log
unfolding program
all_written = (refl, (refl, (refl, (refl, (refl, (refl, tt))))))

handle-end_example :
    run standard_output good_start (incoming (handle context 7 start).1.log (lost false ∷ [])) []
    ≡ some (end_of false (handle context 7 start).1.log [])
handle-end_example = handle-end context 7 start false [] refl all_written

ends :
    end_of false (handle context 7 start).1.log []
    ≡ record { out = codes "1234" ++ (10 ∷ []); code = pos 0; told = true }
unfolding program
ends = refl

keeps : length (handle context 7 start).1.store.entries ≡ 1
unfolding program
keeps = refl

-- The agent's key, on the device that accepts the PIN.
abbrev agent_key : Identity
agent_key =
    bound
      (record {
        key = record {
          path = [];
          kind = codes "pin";
          fingerprint = codes "SHA256:47DEQpj8HBSa+/TImW+5JCeuQeRkm5NMpJWZG3hSuFU";
        };
        stamp = [];
      })
      key

fresh : start.store ≡ after (pos 1000) []
unfolding after
fresh = refl

is_hit : (asked_after context 7 start agent_key (codes "8:8") (pos 1) (pos 2)).reason ≡ hit
unfolding program
is_hit = refl

handle-origin_example :
    Offered [] agent_key
      (asked_after context 7 start agent_key (codes "8:8") (pos 1) (pos 2)).secret
    ⊎ IsOwn
        (must_verify context (parse context.request.args context.request.hint))
        agent_key
        (asked_after context 7 start agent_key (codes "8:8") (pos 1) (pos 2)).secret
        (handle context 7 start).1.log
handle-origin_example =
    handle-origin context 7 start (pos 1000) [] agent_key (codes "8:8") (pos 1) (pos 2) refl fresh
      (λ w o. o) is_hit
