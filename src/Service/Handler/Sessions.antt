-- ===== src/Service/Handler/Sessions.antt =====
-- `Handle` of internal/service/service.go: the key that the request is about, and the loop over the
-- selections of a device.
use gtkaskpass_yubikey.Base.{
  ℕ, zero, suc, Bool, true, false, not, ◌&&◌, ◌||◌, Option, none, some, [], ◌++◌, Bytes, codes,
  if◌then◌else◌, is_empty, is_some,
}
use gtkaskpass_yubikey.Base.Int.{pos, negsuc}
use gtkaskpass_yubikey.Text.{cut_byte}
use gtkaskpass_yubikey.Text.Paths.{is_abs, join_path}
use gtkaskpass_yubikey.Askpass.{Request, Title, security_key_pin}
use gtkaskpass_yubikey.Askpass.CacheKey.{cache_key}
use gtkaskpass_yubikey.Cache.Identity.{Key, Identity}
use gtkaskpass_yubikey.Cache.Resolve.{resolve}
use gtkaskpass_yubikey.Cache.Store.{Lookup, unstated}
use gtkaskpass_yubikey.Dialog.{Device, View, no_device, input}
use gtkaskpass_yubikey.Service.Handler.World.{
  cache_reason, Context, Handler, pure, stop, out_of_fuel, ◌>>=◌, ◌>>◌, call, begin_cache,
}
use gtkaskpass_yubikey.Service.Handler.Windows.{send}
use gtkaskpass_yubikey.Service.Handler.Devices.{choose_device, bind_device}
use gtkaskpass_yubikey.Service.Handler.Attempts.{
  Job, Locals, Round, reselect, again, entered, rounds, retries_text,
}

-- `Lookup{}`
abbrev pub no_lookup : Lookup
no_lookup = record { generation = 0; secret = []; token = 0; ttl = pos 0; reason = unstated }

abbrev pub no_identity : Identity
no_identity = record { key = record { path = []; kind = []; fingerprint = [] }; stamp = [] }

abbrev pub is_pin_title : Title → Bool
is_pin_title security_key_pin = true
is_pin_title _ = false

-- `pid, _, _ := strings.Cut(caller, ":")`
abbrev pub pid_of : Bytes → Bytes
pid_of caller = elim (cut_byte 58 caller) [ none ↦ caller | some p ↦ p.0 ]

abbrev pub joined : Key → Option Bytes → Key × Bool
joined key none = (key, false)
joined key (some directory) = (record key { path = join_path directory key.path }, true)

-- `view.Message` for a device
abbrev pub device_message : Device → Bytes
device_message d = (codes "Device: " ++ d.label) ++ retries_text d.retries

module _ {W : Type 0} (c : Context W) where
  -- The key, with whether the directory of the caller was found if the path needs it.
  unfoldable pub absolute_key : Key → Handler W (Key × Bool)
  absolute_key key = if is_empty key.path || is_abs key.path then pure (key, true) else do
    directory ← call c (c.env.directory (codes "/proc/" ++ (pid_of c.caller ++ codes "/cwd")))
    pure (joined key directory)

  -- The job and the key, with the identity that the key has now.
  unfoldable pub prepare : Request → Handler W (Key × Job)
  prepare req = do
    let (k, is_cacheable) = cache_key req
    found ← absolute_key (record { path = k.path; kind = k.kind; fingerprint = k.fingerprint })
    files ← call c c.env.files
    let id = resolve files found.0
    pure (
      found.0,
      record {
        fingerprint = k.fingerprint;
        id = elim id [ none ↦ no_identity | some i ↦ i ];
        eligible = ((is_cacheable && found.1) && is_some id) && not c.request.no_cache;
        verify = c.verify_pin && is_pin_title req.title;
      },
    )

  -- `s.hardware <- struct{}{}`
  unfoldable pub lock_hardware : Job → Handler W (Unit {0})
  lock_hardware job = do
    locked ← if job.verify then call c c.env.acquires else pure true
    if locked then pure tt else stop

module _ {W : Type 0} (c : Context W) (job : Job) where
  -- The device, and the identity on it.
  unfoldable pub select_device : ℕ → View → Handler W (View × Device × Identity)
  select_device fuel view = if not job.verify then pure (view, no_device, job.id) else do
    found ← choose_device c fuel fuel job.fingerprint view
    id ← bind_device c fuel found.0 job.id found.1
    pure (found.0, found.1, id)

  abbrev first_view : View → Device → Lookup → View
  first_view view selected candidate = record view {
    stage = input;
    ttl = candidate.ttl;
    devices = [];
    selected = negsuc 0;
    change_device = job.verify;
    message = if job.verify then device_message selected else view.message;
  }

  -- The lookup, and the variables of the loop as they start.
  unfoldable pub look_up : View × Device × Identity → Handler W Locals
  look_up (view, selected, id) = do
    candidate ← if job.eligible then begin_cache c id else pure no_lookup
    (if c.request.trace then send c (cache_reason candidate.reason) else pure true)
    pure (record {
      id = id;
      selected = selected;
      candidate = candidate;
      value = candidate.secret;
      remember = false;
      view = first_view view selected candidate;
    })

  -- From `selectDevice` to a value, or to another selection
  unfoldable pub session : ℕ → View → Handler W Round
  session fuel view = do
    found ← select_device fuel view
    l ← look_up found
    rounds c job fuel fuel l

  -- `goto selectDevice`; the fuel of each loop is `fuel`.
  unfoldable pub sessions : (fuel n : ℕ) → View → Handler W Locals
  sessions fuel zero view = out_of_fuel
  sessions fuel (suc n) view = do
    r ← session fuel view
    elim r [ reselect v ↦ sessions fuel n v | again l ↦ pure l | entered l ↦ pure l ]
