-- ===== src/Plugins.antt =====
-- internal/plugins/plugins.go: the warnings about Composer plugins.
use gomposer.Prelude.{Bool, false, ◌||◌, Option, none, some, List, [], ◌∷◌, ◌++◌, if◌then◌else◌}
use gomposer.Prelude.Bytes.{Bytes, codes}
use gomposer.Strings.{eq}
use gomposer.Pipeline.Locked.{LockPackage, LockFile}

pub record Warning : Type 0 where
  pub name : Bytes
  pub version : Bytes
  pub kind : Bytes
  pub message : Bytes

mutual
  -- A JSON value, as far as the program tells it from others: a number, a text, an array and null are one.
  pub data Json : Type 0 where
    bool_value : Bool → Json
    object : JsonFields → Json
    other_value : Json

  pub data JsonFields : Type 0 where
    no_fields : JsonFields
    add_field : Bytes → Json → JsonFields → JsonFields

unfoldable pub field : Bytes → JsonFields → Option Json
unfolding eq
field k no_fields = none
field k (add_field j v fs) = let rest = field k fs in if eq j k then some v else rest

abbrev pub is_true : Option Json → Bool
is_true (some (bool_value b)) = b
is_true _ = false

abbrev pub suppresses : Option Json → Bool
suppresses (some (object fs)) = is_true (field (codes "suppress-plugin-warnings") fs)
suppresses _ = false

-- isSuppressed, of the field `extra` of the manifest
unfoldable pub is_suppressed : JsonFields → Bool
unfolding field
is_suppressed extra = suppresses (field (codes "gomposer") extra)

-- pluginTypes
unfoldable pub is_plugin_type : Bytes → Bool
unfolding eq
is_plugin_type kind = eq kind (codes "composer-plugin") || eq kind (codes "composer-installer")

-- The UTF-8 of U+2014
abbrev pub em_dash : Bytes
em_dash = 226 ∷ 128 ∷ 148 ∷ []

unfoldable pub message_for : LockPackage → Bytes
unfolding eq
message_for p =
    if eq p.name (codes "composer/installers")
    then codes
        "composer/installers normally rewrites custom install paths (e.g., wp-content/plugins/<name>, modules/contrib/<name>); gomposer does not run installer plugins, so packages that depend on it will land in vendor/<vendor>/<name>/ regardless."
    else if eq p.kind (codes "composer-installer")
    then codes
        "this is a custom installer plugin; gomposer does not run it, so any custom install paths it would normally configure will not take effect "
      ++ (em_dash ++ codes " packages will land in vendor/<vendor>/<name>/.")
    else codes
        "this plugin would normally hook into install/update events; gomposer does not run plugins, so any package-installer behavior you depend on (custom install paths, patching, autoload tweaks, etc.) will not happen."

unfoldable pub warning_for : LockPackage → Option Warning
unfolding is_plugin_type message_for
warning_for p =
    if is_plugin_type p.kind
    then some
        (record { name = p.name; version = p.version; kind = p.kind; message = message_for p })
    else none

abbrev pub add_warning : Option Warning → List Warning → List Warning
add_warning none ws = ws
add_warning (some w) ws = w ∷ ws

unfoldable pub warnings_for : List LockPackage → List Warning
unfolding warning_for
warnings_for [] = []
warnings_for (p ∷ ps) = add_warning (warning_for p) (warnings_for ps)

-- Inspect, of a lock file that is not nil
unfoldable pub inspect : LockFile → JsonFields → List Warning
unfolding is_suppressed warnings_for
inspect f extra =
    if is_suppressed extra then [] else warnings_for f.packages ++ warnings_for f.packages_dev
