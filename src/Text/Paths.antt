-- ===== src/Text/Paths.antt =====
-- What the code uses of `path/filepath` that does not ask the file system: `IsAbs` and `Clean`.
use gtkaskpass_yubikey.Text.{after_last}
use gtkaskpass_yubikey.Base.{
  Bool, false, not, ◌&&◌, ◌||◌, none, some, List, [], ◌∷◌, ◌++◌, Bytes, Bytes-discrete, codes,
  decide, ◌==◌, is_empty, if◌then◌else◌,
}

-- filepath.IsAbs
abbrev pub is_abs : Bytes → Bool
is_abs [] = false
is_abs (c ∷ cs) = c == 47

-- The elements of a path, between the slashes.
unfoldable pub elements : Bytes → Bytes → List Bytes
elements w [] = w ∷ []
elements w (c ∷ cs) =
    let within = elements (w ++ (c ∷ [])) cs in
    let next = elements [] cs in if c == 47 then w ∷ next else within

-- `..` on the elements that stand, the last first.
abbrev pub up : Bool → List Bytes → List Bytes
up rooted [] = if rooted then [] else codes ".." ∷ []
up rooted (e ∷ out) = if decide (Bytes-discrete e (codes "..")) then codes ".." ∷ e ∷ out else out

unfoldable pub clean_elements : Bool → List Bytes → List Bytes → List Bytes
clean_elements rooted [] out = out
clean_elements rooted (e ∷ es) out = clean_elements rooted es (
    if is_empty e || decide (Bytes-discrete e (codes "."))
    then out
    else if decide (Bytes-discrete e (codes ".."))
    then up rooted out
    else e ∷ out)

-- The elements, the last first, in front of what follows them.
abbrev pub assemble : List Bytes → Bytes → Bytes
assemble [] tail = tail
assemble (e ∷ []) tail = e ++ tail
assemble (e ∷ out) tail = assemble out (47 ∷ e ++ tail)

-- filepath.Clean
unfoldable pub clean : Bytes → Bytes
clean path =
    let rooted = is_abs path in
    let text = assemble (clean_elements rooted (elements [] path) []) [] in
    if rooted then 47 ∷ text else if is_empty text then codes "." else text

abbrev trim_slashes : Bytes → Bytes
trim_slashes [] = []
trim_slashes (c ∷ s) =
    let rest = trim_slashes s in if is_empty rest && (c == 47) then [] else c ∷ rest

abbrev last_element : Bytes → Bytes
last_element s = elim (after_last 47 s) [ none ↦ s | some e ↦ e ]

-- filepath.Base
abbrev pub base_name : Bytes → Bytes
base_name [] = codes "."
base_name (c ∷ s) =
    let path = trim_slashes (c ∷ s) in if is_empty path then codes "/" else last_element path

-- filepath.Join of two elements, the second of which is not empty
abbrev pub join_path : Bytes → Bytes → Bytes
join_path directory path = clean (if is_empty directory then path else directory ++ 47 ∷ path)

-- The text up to the last slash, with it
unfoldable pub head_of : Bytes → Bytes
head_of [] = []
head_of (c ∷ s) =
    let head = head_of s in if not (is_empty head) then c ∷ head else if c == 47 then c ∷ [] else []

-- filepath.Dir
abbrev pub dir : Bytes → Bytes
dir path = clean (head_of path)
