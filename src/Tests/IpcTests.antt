-- ===== src/Tests/IpcTests.antt =====
-- A request of internal/cacheipc that is answered with a secret, frames, callers and file stamps.
use gtkaskpass_yubikey.Base.{
  ℕ, ◌≡◌, ◌≢◌, refl, true, false, none, some, List, [], ◌∷◌, Bytes, Bytes-discrete, ℕ_discrete,
  codes, arith, ◌==◌, if◌then◌else◌,
}
use gtkaskpass_yubikey.Base.Int.{pos, negsuc, add64, ◌+ℤ◌}
use gtkaskpass_yubikey.Base.Maps.{lookup, insert, delete, retain}
use gtkaskpass_yubikey.Text.{has_line_break, fields, after_last, cut_byte}
use gtkaskpass_yubikey.Text.Utf8.{valid_utf8}
use gtkaskpass_yubikey.Text.Decimal.{digits, read_digits, atoi}
use gtkaskpass_yubikey.Text.Paths.{clean, clean_elements, elements}
use gtkaskpass_yubikey.Lifecycle.{ProcessTable, Process, from_fields, read_process, id, alive}
use gtkaskpass_yubikey.Askpass.{validate}
use gtkaskpass_yubikey.Askpass.Fingerprint.{valid_fingerprint}
use gtkaskpass_yubikey.Cache.Identity.{
  Key, Identity, Key-discrete, Identity-discrete, agent_pin, valid,
}
use gtkaskpass_yubikey.Cache.Resolve.{Stat, Files, stamp, resolve_file, resolve_path, resolve}
use gtkaskpass_yubikey.Cache.Resolve.Pins.{
  IsSameFile, IsResolved, stamp-IsSameFile, resolve-IsResolved,
}
use gtkaskpass_yubikey.Cache.Store.{
  SeenKey-discrete, new, next, erase, expire_entries, is_fresh, expire, issue, serve, begin_retry,
  begin_current, begin_entry, begin_live, begin_checked, begin, is_acceptable, store_secret,
  commit_ticket, commit_checked, commit,
}
use gtkaskpass_yubikey.Cache.Store.Bounded.{IsBounded}
use gtkaskpass_yubikey.Ipc.Callers.{caller, name_alive, name_alive-id}
use gtkaskpass_yubikey.Ipc.Frames.{read_body, read_frame, write_frame}
use gtkaskpass_yubikey.Ipc.Frames.RoundTrip.{receive_all, send_all, receive-send}
use gtkaskpass_yubikey.Ipc.Handle.{
  Request, World, is_op, use_store, begin_or_commit, forget_key, dispatch,
}
use gtkaskpass_yubikey.Cache.Store.{hit}
use gtkaskpass_yubikey.Cache.Store.Run.{sweeps}
use gtkaskpass_yubikey.Ipc.Handle.Forgetting.{found, dispatch-forgets}
use gtkaskpass_yubikey.Ipc.Handle.{Connection}
use gtkaskpass_yubikey.Ipc.Handle.{Connection, handle}
use gtkaskpass_yubikey.Ipc.Handle.Connections.{IsHandled, handle-IsHandled}
use gtkaskpass_yubikey.Ipc.Handle.Answers.{
  Turn, asks, calls, served, Committed, served-IsBounded, dispatch-Committed,
}

-- Processes 9 and 11 are adapters, and processes 7 and 10 are the ssh that started each.
abbrev processes : ProcessTable
processes (pos n) =
    if n == 9
    then some (codes "9 (ask pass) S 7 0 0 0 0 0 0 0 0 0 0 0 0 0 0 0 0 0 900 0")
    else if n == 11
    then some (codes "11 (ask pass) S 10 0 0 0 0 0 0 0 0 0 0 0 0 0 0 0 0 0 1100 0")
    else if n == 10
    then some (codes "10 (ssh) S 1 0 0 0 0 0 0 0 0 0 0 0 0 0 0 0 0 0 1000 0")
    else if n == 7
    then some (codes "7 (ssh) S 1 0 0 0 0 0 0 0 0 0 0 0 0 0 0 0 0 0 700 0")
    else none
processes (negsuc n) = none

-- A key file of user 5.
abbrev status : Stat
status = record {
  mode = 33152;
  uid = 5;
  dev = 1;
  ino = 2;
  size = pos 3;
  mtime_sec = pos 4;
  mtime_nsec = pos 5;
  ctime_sec = pos 6;
  ctime_nsec = negsuc 6;
}

abbrev files : Files
files = record {
  absolute = λ p. some p;
  real_path = λ p. some p;
  stat = λ p. some status;
  user = 5;
}

abbrev world : World
world = record { files = files; processes = processes; now = pos 0; later = pos 1 }

abbrev file_key : Key
file_key = record { path = codes "/k"; kind = codes "passphrase"; fingerprint = [] }

abbrev request : Bytes → ℕ → Bytes → Request
request op token secret = record {
  args = [];
  hint = [];
  env = [];
  no_cache = false;
  trace = false;
  version = pos 1;
  op = op;
  key = file_key;
  token = token;
  secret = secret;
}

abbrev turns : List Turn
turns =
    asks world (pos 9) (request (codes "commit") 2 (codes "s3cret"))
    ∷ asks world (pos 9) (request (codes "begin") 0 [])
    ∷ []

program : Unit {0}
unfolding ℕ_discrete new next erase expire_entries is_fresh expire issue serve begin_retry
    begin_current begin_entry begin_live begin_checked begin is_acceptable store_secret
    commit_ticket commit_checked commit lookup insert delete retain has_line_break valid_utf8
    validate valid_fingerprint agent_pin valid Key-discrete Identity-discrete SeenKey-discrete
    Bytes-discrete add64 ◌+ℤ◌ digits read_digits atoi fields after_last cut_byte from_fields
    read_process id alive stamp resolve_file resolve_path resolve caller name_alive use_store
    begin_or_commit forget_key dispatch served clean clean_elements elements read_body read_frame
    write_frame
program = tt

caller_named : caller processes (pos 9) ≡ some (codes "7:700")
unfolding program
caller_named = refl

stamped : stamp status ≡ codes "1:2:3:4:5:6:-7"
unfolding program
stamped = refl

cleaned : clean (codes "/a//b/./../c/") ≡ codes "/a/c"
unfolding program
cleaned = refl

abbrev asking : Request
asking = request (codes "begin") 0 []

not_empty :
    (dispatch world (pos 11) asking (served (pos 60_000_000_000) turns)).1.secret ≡ codes "s3cret"
unfolding program
not_empty = refl

dispatch-Committed_example :
    (id : Identity) × (is_op asking (codes "begin") ≡ true)
    × (caller processes (pos 11) ≢ none)
    × (resolve files file_key ≡ some id)
    × Committed turns id
        (dispatch world (pos 11) asking (served (pos 60_000_000_000) turns)).1.secret
dispatch-Committed_example =
    dispatch-Committed (pos 60_000_000_000) turns world (pos 11) asking
      (λ e. ground (arith, e, not_empty))

-- A sweep that finds no caller alive comes last.
abbrev swept : List Turn
swept = calls (sweeps (λ caller. false) (λ caller. false) (pos 9)) ∷ turns

served-IsBounded_example : IsBounded (served (pos 60_000_000_000) swept)
served-IsBounded_example =
    served-IsBounded (pos 60_000_000_000) swept ((λ caller e. e), (tt, (tt, tt)))

abbrev resolved : Identity
resolved = record { key = file_key; stamp = codes "1:2:3:4:5:6:-7" }

resolve-IsResolved_example : (valid file_key ≡ true) × IsResolved files file_key resolved
unfolding program
resolve-IsResolved_example = resolve-IsResolved files file_key resolved refl

stamp-IsSameFile_example : IsSameFile status (record status { uid = 6 })
unfolding program
stamp-IsSameFile_example = stamp-IsSameFile status (record status { uid = 6 }) refl

abbrev ssh : Process
ssh = record { pid = pos 7; parent = pos 1; start = codes "7:00"; state = codes "S" }

name_alive-id_example : name_alive processes (id ssh) ≡ alive processes ssh
name_alive-id_example = name_alive-id processes ssh 7 refl (ground arith)

receive-send_example :
    receive_all some some 2 (send_all some some (codes "{}" ∷ codes "[1]" ∷ []) [])
    ≡ some (codes "{}" ∷ codes "[1]" ∷ [])
receive-send_example = receive-send some some (codes "{}" ∷ codes "[1]" ∷ []) (
  (codes "{}", refl, refl, (ground arith, ground arith)),
  ((codes "[1]", refl, refl, (ground arith, ground arith)), tt),
)

abbrev forgetting : Request
forgetting = request (codes "forget") 0 []

dispatch-forgets_example :
    ((begin
        (dispatch world (pos 11) forgetting (served (pos 60_000_000_000) turns)).0
        resolved
        (codes "10:1000")
        (pos 0)
        (pos 1)).1.reason
      ≢ hit)
    × ((begin
          (dispatch world (pos 11) forgetting (served (pos 60_000_000_000) turns)).0
          resolved
          (codes "10:1000")
          (pos 0)
          (pos 1)).1.secret
        ≡ [])
unfolding program
dispatch-forgets_example =
    dispatch-forgets world (pos 11) forgetting (served (pos 60_000_000_000) turns) resolved
      (codes "10:1000") (pos 0) (pos 1)
      (record { version = refl; operation = refl; valid_key = refl; absolute = refl })
      (found resolved refl)

abbrev connection : Connection
connection = record {
  has_deadline = true;
  peer = some (pos 11);
  request = some forgetting;
  has_no_deadline = true;
}

handle-IsHandled_example :
    IsHandled world true connection
      (served (pos 60_000_000_000) turns)
      (handle world true connection (served (pos 60_000_000_000) turns))
handle-IsHandled_example =
    handle-IsHandled world true connection (served (pos 60_000_000_000) turns)
