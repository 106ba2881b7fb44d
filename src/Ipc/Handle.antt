-- ===== src/Ipc/Handle.antt =====
-- `handle` of internal/cacheipc/ipc.go: one request on one connection. What the connection, the
-- process table, the file system and the clock answer are arguments.
pub mod Connections
pub mod Effects
pub mod Answers
pub mod Forgetting
use gtkaskpass_yubikey.Base.{
  ℕ, Bool, true, false, not, ◌&&◌, ◌||◌, Option, none, some, List, [], ◌∷◌, ◌++◌, Bytes,
  Bytes-discrete, codes, decide, ◌==◌, is_empty, if◌then◌else◌,
}
use gtkaskpass_yubikey.Base.Int.{ℤ, pos, negsuc}
use gtkaskpass_yubikey.Text.Paths.{is_abs, clean}
use gtkaskpass_yubikey.Lifecycle.{ProcessTable}
use gtkaskpass_yubikey.Cache.Identity.{Key, Identity, agent_pin, valid}
use gtkaskpass_yubikey.Cache.Resolve.{Files, resolve}
use gtkaskpass_yubikey.Cache.Store.{
  Store, Reason, Lookup, unstated, disabled, capacity, miss, file_changed, retry, hit, begin,
  commit, forget,
}
use gtkaskpass_yubikey.Ipc.Callers.{caller}

pub record Request : Type 0 where
  pub args : List Bytes
  pub hint : Bytes
  pub env : List (Bytes × Bytes)
  pub no_cache : Bool
  pub trace : Bool
  pub version : ℤ
  pub op : Bytes
  pub key : Key
  pub token : ℕ
  pub secret : Bytes

pub record Response : Type 0 where
  pub version : ℤ
  pub reason : Bytes
  pub error : Bytes
  pub token : ℕ
  pub ttl : ℤ
  pub secret : Bytes

-- What the calls on the connection answer: the two deadlines, the peer's process, the frame.
pub record Connection : Type 0 where
  pub has_deadline : Bool
  pub peer : Option ℤ
  pub request : Option Request
  pub has_no_deadline : Bool

pub record World : Type 0 where
  pub files : Files
  pub processes : ProcessTable
  pub now : ℤ
  pub later : ℤ

-- The connection is closed, passed on to the handler for the caller, or answered.
pub data Outcome : Type 0 where
  closed : Outcome
  passed : Request → Bytes → Outcome
  answered : Response → Outcome

abbrev pub blank : Response
blank = record { version = pos 1; reason = []; error = []; token = 0; ttl = pos 0; secret = [] }

abbrev pub refuse : Bytes → Store → Store × Response
refuse error s = (s, record blank { error = error })

abbrev pub reason_text : Reason → Bytes
reason_text unstated = []
reason_text disabled = codes "disabled"
reason_text capacity = codes "capacity"
reason_text miss = codes "miss"
reason_text file_changed = codes "file-changed"
reason_text retry = codes "retry"
reason_text hit = codes "hit"

abbrev pub is_version : ℕ → ℤ → Bool
is_version n (pos m) = m == n
is_version n (negsuc m) = false

abbrev pub is_op : Request → Bytes → Bool
is_op req op = decide (Bytes-discrete req.op op)

-- `s.Begin` or `s.Commit`
unfoldable pub use_store : World → Request → Bytes → Identity → Store → Store × Response
use_store w req who id s =
    let (begun, r) = begin s id who w.now w.later in
    let (committed, ok) = commit s req.token id who req.secret w.now w.later in
    if is_op req (codes "begin")
    then (
      begun,
      record blank {
        reason = reason_text r.reason;
        secret = r.secret;
        token = r.token;
        ttl = r.ttl;
      },
    )
    else (committed, record blank { reason = if ok then codes "stored" else codes "stale" })

abbrev use_resolved : World → Request → Bytes → Option Identity → Store → Store × Response
use_resolved w req who none s = refuse (codes "identity") s
use_resolved w req who (some id) s = use_store w req who id s

abbrev for_caller : World → Request → Option Bytes → Store → Store × Response
for_caller w req none s = refuse (codes "caller") s
for_caller w req (some who) s =
    if not (agent_pin req.key) && not (is_abs req.key.path)
    then refuse (codes "path") s
    else use_resolved w req who (resolve w.files req.key) s

-- The cases "begin" and "commit"
unfoldable pub begin_or_commit : World → ℤ → Request → Store → Store × Response
begin_or_commit w pid req s = for_caller w req (caller w.processes pid) s

-- The key to forget, with its path cleaned.
abbrev pub cleaned : Key → Key
cleaned k = if agent_pin k then k else record k { path = clean k.path }

abbrev forget_resolved : Option Identity → Store → Store
forget_resolved none s = s
forget_resolved (some id) s = forget s (some id.key)

-- The case "forget"
unfoldable pub forget_key : World → Request → Store → Store × Response
forget_key w req s =
    if not (valid req.key) || not (agent_pin req.key) && not (is_abs req.key.path)
    then refuse (codes "key") s
    else let k = cleaned req.key in
      (
        forget_resolved (resolve w.files k) (forget s (some k)),
        record blank { reason = codes "forgotten" },
      )

-- The switch on the operation
unfoldable pub dispatch : World → ℤ → Request → Store → Store × Response
dispatch w pid req s =
    if not (is_version 1 req.version)
    then refuse (codes "version") s
    else if is_op req (codes "begin") || is_op req (codes "commit")
    then begin_or_commit w pid req s
    else if is_op req (codes "forget")
    then forget_key w req s
    else if is_op req (codes "forget-all")
    then (forget s none, record blank { reason = codes "forgotten" })
    else refuse (codes "operation") s

abbrev pass_on : Connection → Request → Option Bytes → Store → Store × Outcome
pass_on c req none s = (s, closed)
pass_on c req (some who) s = (s, if c.has_no_deadline then passed req who else closed)

-- `handle` once the request is read.
unfoldable pub handle_request : World → Bool → Connection → ℤ → Request → Store → Store × Outcome
handle_request w has_handler c pid req s =
    let (s', r) = dispatch w pid req s in
    if is_version 2 req.version && is_op req (codes "ask") && has_handler
    then pass_on c req (caller w.processes pid) s
    else (s', answered r)

abbrev with_request : World → Bool → Connection → ℤ → Option Request → Store → Store × Outcome
with_request w has_handler c pid none s = (s, closed)
with_request w has_handler c pid (some req) s = handle_request w has_handler c pid req s

abbrev with_peer : World → Bool → Connection → Option ℤ → Store → Store × Outcome
with_peer w has_handler c none s = (s, closed)
with_peer w has_handler c (some pid) s = with_request w has_handler c pid c.request s

-- `handle`
unfoldable pub handle : World → Bool → Connection → Store → Store × Outcome
handle w has_handler c s =
    if not c.has_deadline then (s, closed) else with_peer w has_handler c c.peer s
