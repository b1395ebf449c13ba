-- ===== src/Workspaces.antt =====
-- internal/orchestrator/workspace_aggregate.go: the manifest that the solver sees for a root and its workspaces.
mod Samples
pub mod Merging
use gomposer.Prelude.{
  Bool, true, false, not, Option, none, some, List, [], ◌∷◌, ◌++◌, if◌then◌else◌,
}
use gomposer.Prelude.Bytes.{Bytes, codes}
use gomposer.Strings.{eq, is_empty}
use gomposer.Sort.{Entries}
use gomposer.Constraint.Version.{Version, Error, Result, ok, err, parse_version}
use gomposer.Constraint.Term.{Constraint, satisfies}
use gomposer.Constraint.Parse.{parse}

-- A repository entry of the manifest, internal/manifest/manifest.go.
pub record Repository : Type 0 where
  pub kind : Bytes
  pub url : Bytes

-- The fields of a manifest that the aggregation reads.
pub record Project : Type 0 where
  pub name : Bytes
  pub version : Bytes
  pub requires : Entries
  pub requires_dev : Entries
  pub minimum_stability : Bytes
  pub prefer_stable : Bool
  pub repositories : List Repository

-- manifest.Workspace, without its directory.
pub record Workspace : Type 0 where
  pub name : Bytes
  pub manifest : Project
  pub version : Bytes

-- The errors, with what their message quotes: the owner, the requirement and its text.
pub data AggregateError : Type 0 where
  unparseable not_found : Bytes → Bytes → AggregateError
  no_version : Bytes → Bytes → Bytes → AggregateError
  bad_version : Bytes → Bytes → AggregateError
  unsatisfied : Bytes → Bytes → Bytes → Bytes → AggregateError

pub data Merged {ℓ} (A : Type ℓ) : Type ℓ where
  merged : A → Merged A
  refused : AggregateError → Merged A

infixl 5 ◌>>=◌
abbrev pub ◌>>=◌ {ℓ κ} : {A : Type ℓ} {B : Type κ} → Merged A → (A → Merged B) → Merged B
merged a >>= f = f a
refused e >>= f = refused e

-- byName: a later workspace of the same name replaces an earlier one.
unfoldable pub by_name : List Workspace → Bytes → Option Workspace
unfolding eq
by_name [] name = none
by_name (w ∷ ws) name = elim (by_name ws name) [
  | some x ↦ some x
  | none ↦ if eq w.name name then some w else none
]

abbrev pub version_fits :
    Bytes → Bytes → Bytes → Constraint → Workspace → Result Version → Merged (Unit {0})
version_fits owner name raw c target (err e) = refused (bad_version target.name target.version)
version_fits owner name raw c target (ok v) =
    if satisfies c v then merged tt else refused (unsatisfied owner name raw target.version)

-- The test of a requirement on a workspace.
abbrev pub workspace_fits :
    Bytes → Bytes → Bytes → Constraint → Option Workspace → Merged (Unit {0})
workspace_fits owner name raw c none = refused (not_found owner name)
workspace_fits owner name raw c (some target) =
    if eq raw (codes "workspace:*")
    then merged tt
    else if is_empty target.version
    then refused (no_version owner name raw)
    else version_fits owner name raw c target (parse_version target.version)

-- dst[name]
unfoldable pub lookup_entry : Entries → Bytes → Option Bytes
unfolding eq
lookup_entry [] name = none
lookup_entry ((k, v) ∷ m) name =
    let rest = lookup_entry m name in if eq k name then some v else rest

-- dst[name] = raw
unfoldable pub set_entry : Entries → Bytes → Bytes → Entries
unfolding eq
set_entry [] name raw = (name, raw) ∷ []
set_entry ((k, v) ∷ m) name raw =
    let rest = set_entry m name raw in if eq k name then (k, raw) ∷ m else (k, v) ∷ rest

-- Two constraints on one package are joined by a blank.
abbrev pub join_requirement : Option Bytes → Bytes → Bytes
join_requirement none raw = raw
join_requirement (some existing) raw = if eq existing raw then existing else existing ++ 32 ∷ raw

unfoldable pub add_requirement : Entries → Bytes → Bytes → Entries
add_requirement dst name raw = set_entry dst name (join_requirement (lookup_entry dst name) raw)

abbrev pub merge_parsed :
    List Workspace → Bytes → Entries → Bytes → Bytes → Constraint × Option Error → Merged Entries
merge_parsed ws owner dst name raw (c, some e) = refused (unparseable owner name)
merge_parsed ws owner dst name raw (c, none) =
    if c.is_workspace
    then (workspace_fits owner name raw c (by_name ws name) >>= λ u. merged dst)
    else merged (add_requirement dst name raw)

-- mergeRequires
unfoldable pub merge_requires : List Workspace → Bytes → Entries → Entries → Merged Entries
merge_requires ws owner dst [] = merged dst
merge_requires ws owner dst ((name, raw) ∷ src) = do
  dst' ← merge_parsed ws owner dst name raw (parse raw)
  merge_requires ws owner dst' src

abbrev pub merge_dev : Bool → List Workspace → Bytes → Entries → Entries → Merged Entries
merge_dev include_dev ws owner dst src =
    if include_dev then merge_requires ws owner dst src else merged dst

-- The loop over the workspaces.
unfoldable pub merge_workspaces :
    Bool → List Workspace → Entries × Entries → List Workspace → Merged (Entries × Entries)
merge_workspaces include_dev all both [] = merged both
merge_workspaces include_dev all (prod, dev) (w ∷ ws) = do
  prod' ← merge_requires all w.name prod w.manifest.requires
  dev' ← merge_dev include_dev all w.name dev w.manifest.requires_dev
  merge_workspaces include_dev all (prod', dev') ws

-- BuildAggregateManifest, for a root that is not nil.
unfoldable pub build_aggregate_manifest : Project → List Workspace → Bool → Merged Project
unfolding merge_requires merge_workspaces
build_aggregate_manifest root ws include_dev = do
  prod ← merge_requires ws root.name [] root.requires
  dev ← merge_dev include_dev ws root.name [] root.requires_dev
  both ← merge_workspaces include_dev ws (prod, dev) ws
  merged (record root { requires = both.0; requires_dev = both.1 })
