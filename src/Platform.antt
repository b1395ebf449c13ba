-- ===== src/Platform.antt =====
-- internal/platform: the requirements on the PHP runtime. The probe that runs `php` is not modelled.
use gomposer.Prelude.{
  Bool, true, false, not, ◌&&◌, ◌||◌, Option, none, some, List, [], ◌∷◌, ◌++◌, if◌then◌else◌,
}
use gomposer.Prelude.Bytes.{Bytes, codes}
use gomposer.Strings.{eq, is_empty, has_byte, has_prefix, trim_prefix, trim_space}
use gomposer.Sort.{Entries, sort_strings}
use gomposer.Constraint.Version.{Version, Error}
use gomposer.Constraint.Term.{Constraint, satisfies}
use gomposer.Constraint.Parse.{parse}

-- An extension without a version has the zero Version, whose original text is empty.
pub record Platform : Type 0 where
  pub php_version : Version
  pub extensions : List (Bytes × Version)

pub data ViolationKind : Type 0 where
  wrong_version missing lib_ignored unparseable : ViolationKind

-- Violation, without the runtime version, which nothing reads
pub record Violation : Type 0 where
  pub req : Bytes
  pub constraint : Bytes
  pub kind : ViolationKind
  pub have : Bytes

unfoldable pub is_php : Bytes → Bool
unfolding eq has_prefix
is_php name = eq name (codes "php") || has_prefix (codes "php-") name

unfoldable pub is_platform_req : Bytes → Bool
unfolding has_byte is_php has_prefix
is_platform_req name =
    not (has_byte name b'/')
    && (is_php name || has_prefix (codes "ext-") name || has_prefix (codes "lib-") name)

unfoldable pub extension_in : List (Bytes × Version) → Bytes → Option Version
extension_in [] name = none
extension_in ((n, v) ∷ m) name =
    let rest = extension_in m name in if eq n name then some v else rest

-- ExtensionVersion; the platform may be nil.
unfoldable pub extension_version : Option Platform → Bytes → Option Version
extension_version none name = none
extension_version (some p) name = extension_in p.extensions name

unfoldable pub extension_names : List (Bytes × Version) → List Bytes
extension_names [] = []
extension_names ((n, v) ∷ m) = n ∷ extension_names m

-- What one extension adds to the fingerprint.
abbrev pub version_part : Option Version → Bytes
version_part none = []
version_part (some v) = if is_empty v.original then [] else b'@' ∷ v.original

unfoldable pub extension_parts : List (Bytes × Version) → List Bytes → Bytes
extension_parts m [] = []
extension_parts m (n ∷ ns) =
    codes ";ext-" ++ (n ++ (version_part (extension_in m n) ++ extension_parts m ns))

abbrev pub unknown_php : Bytes
unknown_php = codes "php-unknown"

-- Fingerprint; the platform may be nil.
unfoldable pub fingerprint : Option Platform → Bytes
fingerprint none = unknown_php
fingerprint (some p) =
    if is_empty p.php_version.original
    then unknown_php
    else codes "php-"
      ++ (p.php_version.original
          ++ extension_parts p.extensions (sort_strings (extension_names p.extensions)))

unfoldable pub has_extension : Option Platform → Bytes → Bool
has_extension p name = elim (extension_version p name) [ none ↦ false | some v ↦ true ]

unfoldable pub is_wildcard_constraint : Bytes → Bool
unfolding trim_space is_empty eq
is_wildcard_constraint raw =
    let s = trim_space raw in
    is_empty s
    || eq s (codes "*")
    || eq s (codes ">=0")
    || eq s (codes ">=0.0")
    || eq s (codes ">=0.0.0")

abbrev violation : Bytes → Bytes → ViolationKind → Bytes → List Violation
violation name raw kind have =
    (record { req = name; constraint = raw; kind = kind; have = have }) ∷ []

-- `what` is "php" or the name of the extension.
abbrev check_version : Bytes → Bytes → Bytes → Constraint → Version → List Violation
check_version what name raw c v =
    if satisfies c v then [] else violation name raw wrong_version (what ++ 32 ∷ v.original)

abbrev check_php_on : Bytes → Bytes → Constraint × Option Error → Option Platform → List Violation
check_php_on name raw (c, some e) p = violation name raw unparseable []
check_php_on name raw (c, none) none = violation name raw missing (codes "php (unknown)")
check_php_on name raw (c, none) (some p) =
    if is_empty p.php_version.original
    then violation name raw missing (codes "php (unknown)")
    else check_version (codes "php") name raw c p.php_version

unfoldable pub check_php : Bytes → Bytes → Option Platform → List Violation
check_php name raw p = check_php_on name raw (parse raw) p

abbrev check_loaded : Bytes → Bytes → Constraint → Option Version → List Violation
check_loaded name raw c none = violation name raw missing (name ++ codes " not loaded")
check_loaded name raw c (some v) =
    if is_empty v.original
    then (if is_wildcard_constraint raw
        then []
        else violation name raw wrong_version (name ++ codes " (no version)"))
    else check_version name name raw c v

abbrev check_ext_on : Bytes → Bytes → Constraint × Option Error → Option Version → List Violation
check_ext_on name raw (c, some e) loaded = violation name raw unparseable []
check_ext_on name raw (c, none) loaded = check_loaded name raw c loaded

unfoldable pub check_ext : Bytes → Bytes → Option Platform → List Violation
check_ext name raw p =
    check_ext_on name raw (parse raw) (extension_version p (trim_prefix (codes "ext-") name))

-- One round of the loop of Check.
unfoldable pub check_one : Option Platform → (Bytes → Bool) → Bytes → Bytes → List Violation
check_one p ignored name raw =
    if not (is_platform_req name) || ignored name
    then []
    else if is_php name
    then check_php name raw p
    else if has_prefix (codes "ext-") name
    then check_ext name raw p
    else if has_prefix (codes "lib-") name
    then violation name raw lib_ignored []
    else []

-- Check; a nil map of ignored requirements ignores nothing.
unfoldable pub check : Entries → Option Platform → (Bytes → Bool) → List Violation
check [] p ignored = []
check ((name, raw) ∷ reqs) p ignored = check_one p ignored name raw ++ check reqs p ignored
