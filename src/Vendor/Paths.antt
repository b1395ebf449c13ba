-- ===== src/Vendor/Paths.antt =====
-- vendorPath and safeVendorPackagePath of internal/orchestrator/pipeline.go, with Go's Clean, Join and Rel of Unix paths.
use gomposer.Prelude.{
  Bool, true, false, not, ◌&&◌, ◌||◌, Option, none, some, List, [], ◌∷◌, ◌++◌, map, ◌==◌,
  if◌then◌else◌, any,
}
use gomposer.Prelude.Bytes.{Bytes, codes}
use gomposer.Strings.{eq, is_empty, has_byte, count_byte}
use gomposer.Strings.Split.{split}

-- A cleaned path: its names from the innermost outwards.
pub record CleanPath : Type 0 where
  pub rooted : Bool
  pub names : List Bytes

unfoldable pub is_abs : Bytes → Bool
is_abs [] = false
is_abs (c ∷ s) = c == b'/'

-- What Clean does at "..": the root is its own parent, and a path that begins with ".." grows.
unfoldable pub go_up : Bool → List Bytes → List Bytes
unfolding eq
go_up true [] = []
go_up false [] = codes ".." ∷ []
go_up r (p ∷ ps) = if eq p (codes "..") then codes ".." ∷ p ∷ ps else ps

unfoldable pub enter : Bool → List Bytes → Bytes → List Bytes
unfolding eq is_empty go_up
enter r ps part =
    if is_empty part || eq part (codes ".")
    then ps
    else if eq part (codes "..")
    then go_up r ps
    else part ∷ ps

unfoldable pub enter_all : Bool → List Bytes → List Bytes → List Bytes
unfolding enter
enter_all r ps [] = ps
enter_all r ps (part ∷ parts) = enter_all r (enter r ps part) parts

unfoldable pub path_parts : Bytes → List Bytes
unfolding split
path_parts s = split (λ c. c == b'/') s

-- filepath.Clean(filepath.Join(dir, parts...))
unfoldable pub clean_join : Bytes → List Bytes → CleanPath
unfolding is_abs enter_all path_parts
clean_join dir parts =
    let names = enter_all (is_abs dir) [] (path_parts dir ++ parts) in
    record { rooted = is_abs dir; names = names }

unfoldable pub vendor_root : Bytes → CleanPath
unfolding clean_join
vendor_root dir = clean_join dir (codes "vendor" ∷ [])

unfoldable pub vendor_path : Bytes → Bytes → CleanPath
unfolding clean_join path_parts
vendor_path dir name = clean_join dir (codes "vendor" ∷ path_parts name)

unfoldable pub outermost_first : List Bytes → List Bytes
outermost_first [] = []
outermost_first (p ∷ ps) = outermost_first ps ++ p ∷ []

-- The way from what is left of the base to what is left of the target.
unfoldable pub up_and_down : List Bytes → List Bytes → Option (List Bytes)
unfolding eq
up_and_down [] targ = some targ
up_and_down (p ∷ base) targ =
    if eq p (codes "..") then none else some (map (λ q. codes "..") (p ∷ base) ++ targ)

unfoldable pub strip_common : List Bytes → List Bytes → Option (List Bytes)
unfolding eq up_and_down
strip_common (p ∷ base) (q ∷ targ) =
    let inner = strip_common base targ in
    if eq p q then inner else up_and_down (p ∷ base) (q ∷ targ)
strip_common base targ = up_and_down base targ

-- filepath.Rel of cleaned paths, as its names; "." is the empty list.
unfoldable pub rel : CleanPath → CleanPath → Option (List Bytes)
unfolding strip_common outermost_first
rel base targ =
    if base.rooted && targ.rooted || not (base.rooted || targ.rooted)
    then strip_common (outermost_first base.names) (outermost_first targ.names)
    else none

unfoldable pub is_unsafe_part : Bytes → Bool
unfolding eq is_empty has_byte
is_unsafe_part part =
    is_empty part || eq part (codes ".") || eq part (codes "..") || has_byte part b'\\'

-- The test of what Rel answers, which is never absolute.
unfoldable pub leaves : Option (List Bytes) → Bool
unfolding eq
leaves none = true
leaves (some []) = true
leaves (some (p ∷ ps)) = eq p (codes "..")

-- safeVendorPackagePath, none for its error
unfoldable pub safe_vendor_package_path : Bytes → Bytes → Option CleanPath
unfolding count_byte is_unsafe_part path_parts
safe_vendor_package_path dir name =
    if not (count_byte b'/' name == 1) || any is_unsafe_part (path_parts name)
    then none
    else if leaves (rel (vendor_root dir) (vendor_path dir name))
    then none
    else some (vendor_path dir name)
