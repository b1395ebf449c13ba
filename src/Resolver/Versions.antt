-- ===== src/Resolver/Versions.antt =====
-- internal/resolver/versions.go: the candidate versions of a package.
use gomposer.Prelude.{
  Ordering, Bool, true, false, not, ◌&&◌, ◌||◌, Option, none, some, List, [], ◌∷◌, ltb, leb,
  if◌then◌else◌, any,
}
use gomposer.Prelude.Bytes.{Bytes, codes}
use gomposer.Strings.{eq, is_empty, cut_text}
use gomposer.Sort.{Entries, sort_by}
use gomposer.Constraint.Version.{
  Version, Result, ok, err, Stability, dev, alpha, beta, rc, stable, rank, is_dev, parse_version,
}
use gomposer.Constraint.Compare.{compare_versions}
use gomposer.Platform.{Platform, Violation, lib_ignored, check}

-- registry.PackageVersion: the fields that the solver reads.
pub record PackageVersion : Type 0 where
  pub name : Bytes
  pub version : Bytes
  pub requires : Entries

pub record ListedVersion : Type 0 where
  pub raw : Bytes
  pub parsed : Version
  pub package_version : PackageVersion

-- What a registry answers: the versions of a package, or an error with the messages of its chain, the outermost first.
pub data Lookup : Type 0 where
  found : List PackageVersion → Lookup
  failed : List Bytes → Lookup

-- The lister's maps are functions from package names, a nil map of ignored requirements ignores
-- nothing, and its callbacks, which only report, are left out.
pub record VersionLister : Type 0 where
  pub source : Bytes → Lookup
  pub min_stab : Stability
  pub cache : Bytes → Option (List ListedVersion)
  pub not_found : Bytes → Bool
  pub allow_dev : Bytes → Bytes → Bool
  pub allow_stab : Bytes → Option Stability
  pub platform : Option Platform
  pub ignored : Bytes → Bool
  pub strict : Bool

unfoldable pub parse_stability_name : Bytes → Stability
unfolding eq
parse_stability_name s =
    if eq s (codes "dev")
    then dev
    else if eq s (codes "alpha")
    then alpha
    else if eq s (codes "beta")
    then beta
    else if eq s (codes "RC") || eq s (codes "rc")
    then rc
    else stable

abbrev pub new_version_lister : (Bytes → Lookup) → Bytes → VersionLister
new_version_lister source min_stability = record {
  source = source;
  min_stab = parse_stability_name min_stability;
  cache = λ p. none;
  not_found = λ p. false;
  allow_dev = λ p b. false;
  allow_stab = λ p. none;
  platform = none;
  ignored = λ r. false;
  strict = false;
}

-- AllowDevBranch
unfoldable pub allow_dev_branch : VersionLister → Bytes → Bytes → VersionLister
allow_dev_branch vl pkg branch = record vl {
  allow_dev = λ p b. (eq pkg p && eq branch b) || vl.allow_dev p b;
}

abbrev pub floor_with : Option Stability → Stability → Bool
floor_with none s = false
floor_with (some existing) s = leb (rank existing) (rank s)

-- AllowStabilityAtLeast: the lowest stability that was asked for stays.
unfoldable pub allow_stability_at_least : VersionLister → Bytes → Stability → VersionLister
allow_stability_at_least vl pkg s =
    if floor_with (vl.allow_stab pkg) s
    then vl
    else record vl { allow_stab = λ p. if eq pkg p then some s else vl.allow_stab p }

abbrev pub lower_of : Stability → Option Stability → Stability
lower_of floor none = floor
lower_of floor (some s) = if ltb (rank s) (rank floor) then s else floor

unfoldable pub stability_floor : VersionLister → Bytes → Stability
stability_floor vl pkg = lower_of vl.min_stab (vl.allow_stab pkg)

abbrev pub is_lib_ignored : Violation → Bool
is_lib_ignored v = elim v.kind [ lib_ignored ↦ true | _ ↦ false ]

unfoldable pub version_installable : VersionLister → PackageVersion → Bool
version_installable vl rec = elim vl.platform [
  | none ↦ true
  | some p ↦
      vl.ignored (codes "*")
      || not (any (λ v. not (is_lib_ignored v)) (check rec.requires (some p) vl.ignored))
]

-- The version is not below the floor, or it is a dev branch that was asked for.
unfoldable pub admits : VersionLister → Bytes → Version → Bool
admits vl pkg v =
    not (ltb (rank v.stability) (rank (stability_floor vl pkg)))
    || (is_dev v.stability && vl.allow_dev pkg v.branch)

abbrev pub listed_of :
    VersionLister
    → Bytes
    → PackageVersion
    → Result Version
    → List ListedVersion
    → List ListedVersion
listed_of vl pkg rv (err e) later = later
listed_of vl pkg rv (ok v) later =
    if admits vl pkg v
    then (record { raw = rv.version; parsed = v; package_version = rv }) ∷ later
    else later

-- The loop over the registry's rows: those that parse and are admitted.
unfoldable pub parse_rows : VersionLister → Bytes → List PackageVersion → List ListedVersion
parse_rows vl pkg [] = []
parse_rows vl pkg (rv ∷ rows) =
    listed_of vl pkg rv (parse_version rv.version) (parse_rows vl pkg rows)

-- `a` is the newer one.
unfoldable pub newer : ListedVersion → ListedVersion → Bool
newer a b = elim (compare_versions a.parsed b.parsed) [ Ordering.gt ↦ true | _ ↦ false ]

unfoldable pub keep_installable : VersionLister → List ListedVersion → List ListedVersion
keep_installable vl [] = []
keep_installable vl (v ∷ vs) =
    let rest = keep_installable vl vs in
    if version_installable vl v.package_version then v ∷ rest else rest

abbrev pub non_empty_or : List ListedVersion → List ListedVersion → List ListedVersion
non_empty_or [] raw = raw
non_empty_or (v ∷ vs) raw = v ∷ vs

unfoldable pub candidates : VersionLister → Bytes → List PackageVersion → List ListedVersion
candidates vl pkg rows =
    let raw = sort_by newer (parse_rows vl pkg rows) in
    if vl.strict then non_empty_or (keep_installable vl raw) raw else raw

-- strContains and isNotFoundErr: some error of the chain says that the package was not found. The
-- registry's own error has a message that says so.
unfoldable pub str_contains : Bytes → Bytes → Bool
unfolding cut_text
str_contains s sub = elim (cut_text sub s) [ none ↦ false | some r ↦ true ]

unfoldable pub is_not_found_err : List Bytes → Bool
unfolding str_contains is_empty
is_not_found_err chain =
    any (λ m. not (is_empty m) && str_contains m (codes "package not found")) chain

pub data Versions : Type 0 where
  listed : List ListedVersion → Versions
  package_not_found : Versions
  error : List Bytes → Versions

abbrev pub note_found : VersionLister → Bytes → List ListedVersion → VersionLister
note_found vl pkg vs = record vl { cache = λ p. if eq pkg p then some vs else vl.cache p }

abbrev pub note_missing : VersionLister → Bytes → VersionLister
note_missing vl pkg = record vl { not_found = λ p. eq pkg p || vl.not_found p }

abbrev pub answer : VersionLister → Bytes → Lookup → VersionLister × Versions
answer vl pkg (found rows) =
    (note_found vl pkg (candidates vl pkg rows), listed (candidates vl pkg rows))
answer vl pkg (failed chain) =
    if is_not_found_err chain then (note_missing vl pkg, package_not_found) else (vl, error chain)

abbrev pub look_up : VersionLister → Bytes → Option (List ListedVersion) → VersionLister × Versions
look_up vl pkg (some vs) = (vl, listed vs)
look_up vl pkg none =
    if vl.not_found pkg then (vl, package_not_found) else answer vl pkg (vl.source pkg)

-- versions: from the cache, or from the registry, whose answer is kept.
unfoldable pub versions : VersionLister → Bytes → VersionLister × Versions
versions vl pkg = look_up vl pkg (vl.cache pkg)

-- isKnown; the error is passed on.
pub data Known : Type 0 where
  known unknown : Known
  not_answered : List Bytes → Known

unfoldable pub is_known : VersionLister → Bytes → Known
is_known vl pkg = elim (versions vl pkg).1 [
  | listed vs ↦ known
  | package_not_found ↦ unknown
  | error chain ↦ not_answered chain
]
