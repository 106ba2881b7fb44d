-- ===== src/Touch/Monitor/Scans.antt =====
-- The scan of the interfaces in `Run` of internal/touch/linux.go.
use gtkaskpass_yubikey.Base.{
  ℕ, zero, suc, Bool, false, ◌&&◌, ◌||◌, Option, none, some, List, [], ◌∷◌, ◌++◌, Bytes,
  Bytes-discrete, codes, decide, is_empty, length, ltb, leb, ◌==◌, if◌then◌else◌,
}
use gtkaskpass_yubikey.Text.Paths.{base_name}
use gtkaskpass_yubikey.Text.Decimal.{decimal}
use gtkaskpass_yubikey.Service.Popups.{max_devices}
use gtkaskpass_yubikey.Touch.Descriptor.{Layout, Outcome, done, bad, fuel, descriptor}
use gtkaskpass_yubikey.Touch.Monitor.{
  Monitor, Node, Reader, Scan, bounded, diagnose, find, open_reader, put, remove,
}

-- What one scan has counted.
pub record Counts : Type 0 where
  pub seen : List Bytes
  pub wanted : ℕ
  pub unavailable : ℕ

abbrev pub fail : Counts → Counts
fail k = record k { unavailable = suc k.unavailable }

abbrev pub want : Bytes → Counts → Counts
want path k = record k { seen = path ∷ k.seen; wanted = suc k.wanted }

abbrev pub same_node : Node → Node → Bool
same_node a b =
    (a.ino == b.ino) && (a.rdev == b.rdev) && (a.ctim.0 == b.ctim.0) && (a.ctim.1 == b.ctim.1)

abbrev pub is_same : Option Node → Reader → Bool
is_same none r = false
is_same (some st) r = same_node st r.stat

abbrev pub opened_at : Bytes → Option Reader → Monitor × Counts → Monitor × Counts
opened_at path none (m, k) = (m, fail k)
opened_at path (some r) (m, k) = (put path r m, k)

-- The end of the loop's body: a node that is not read yet
unfoldable pub watch : Scan → Bytes → Monitor × Counts → Monitor × Counts
watch scan path (m, k) =
    if leb max_devices (length m.readers)
    then (m, fail k)
    else opened_at path (open_reader path (scan.opens path)) (m, k)

abbrev pub watch_again : Scan → Bytes → Option Reader → Monitor × Counts → Monitor × Counts
watch_again scan path none (m, k) = watch scan path (m, k)
watch_again scan path (some r) (m, k) =
    if is_same (scan.lstat path) r then (m, k) else watch scan path (remove path m, k)

abbrev pub node_path : Bytes → Bytes
node_path sys_path = codes "/dev/" ++ base_name sys_path

abbrev pub supported : Scan → Bytes → Layout → Monitor × Counts → Monitor × Counts
supported scan sys_path layout (m, k) =
    let path = node_path sys_path in
    if is_empty layout then (m, k) else watch_again scan path (find path m) (m, want path k)

abbrev pub described : Scan → Bytes → Outcome Layout → Monitor × Counts → Monitor × Counts
described scan sys_path (done layout) (m, k) = supported scan sys_path layout (m, k)
described scan sys_path bad (m, k) = (m, fail k)
described scan sys_path fuel (m, k) = (m, fail k)

abbrev pub visited : Scan → Bytes → Option Bytes → Monitor × Counts → Monitor × Counts
visited scan sys_path none (m, k) = (m, fail k)
visited scan sys_path (some text) (m, k) = described scan sys_path (descriptor text) (m, k)

-- The body of the loop over the interfaces
unfoldable pub visit : Scan → Bytes → Monitor × Counts → Monitor × Counts
visit scan sys_path mk = visited scan sys_path (bounded (scan.contents sys_path)) mk

unfoldable pub visit_all : Scan → List Bytes → Monitor × Counts → Monitor × Counts
visit_all scan [] mk = mk
visit_all scan (p ∷ paths) mk = visit_all scan paths (visit scan p mk)

abbrev pub is_seen : List Bytes → Bytes → Bool
is_seen [] path = false
is_seen (p ∷ seen) path = decide (Bytes-discrete p path) || is_seen seen path

-- `for path := range readers { if !seen[path] { remove(path) } }`
unfoldable pub drop_unseen : List Bytes → List (Bytes × Reader) → Monitor → Monitor
drop_unseen seen [] m = m
drop_unseen seen ((path, r) ∷ readers) m =
    let rest = drop_unseen seen readers in
    if is_seen seen path then rest m else rest (remove path m)

abbrev take : ℕ → List Bytes → List Bytes
take zero paths = []
take (suc n) [] = []
take (suc n) (p ∷ paths) = p ∷ take n paths

abbrev max_paths : ℕ
max_paths = 256

-- The interfaces that a scan looks at, and what is counted before.
abbrev pub listed : Option (List Bytes) → List Bytes × ℕ
listed none = ([], 1)
listed (some paths) = if ltb max_paths (length paths) then (take max_paths paths, 1) else (paths, 0)

abbrev watched_text : ℕ → ℕ → Bytes
watched_text n unavailable =
    codes "touch monitor: "
    ++ (decimal n
        ++ (codes " FIDO HID interface(s) watched, "
            ++ (decimal unavailable ++ codes " unavailable")))

abbrev pub is_complete : Monitor → Counts → Bool
is_complete m k = ltb 0 k.wanted && (length m.readers == k.wanted) && (k.unavailable == 0)

abbrev pub concluded : Monitor × Counts → Monitor
concluded (m, k) =
    let m' = drop_unseen k.seen m.readers m in
    diagnose (watched_text (length m'.readers) k.unavailable)
      (record m' { covered = is_complete m' k })

-- The scan of the interfaces
unfoldable pub rescan : Scan → Monitor → Monitor
rescan scan m =
    let (paths, n) = listed scan.paths in
    concluded (visit_all scan paths (m, record { seen = []; wanted = 0; unavailable = n }))
