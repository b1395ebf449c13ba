-- ===== src/Resolver/Result.antt =====
-- internal/resolver/solve.go and error.go: the result that is built from the solution.
use gomposer.Prelude.{
  ℕ, zero, suc, ◌+◌, Bool, true, false, not, ◌&&◌, Option, none, some, List, [], ◌∷◌, ◌++◌,
  if◌then◌else◌, length,
}
use gomposer.Prelude.Bytes.{Bytes}
use gomposer.Strings.{eq}
use gomposer.Sort.{keys, sort_by, bytes_less}
use gomposer.Constraint.Version.{Version}
use gomposer.Constraint.Compare.{equal}
use gomposer.Resolver.Incompatibility.{Cause, dependency, cause}
use gomposer.Resolver.Solution.{Assignment, decision, derivation, PartialSolution}
use gomposer.Resolver.Propagate.{is_member}
use gomposer.Resolver.Versions.{
  PackageVersion, ListedVersion, VersionLister, Versions, listed, versions,
}
use gomposer.Resolver.Decide.{is_decided}
use gomposer.Resolver.Solve.{Manifest, root_package}

-- A package without a row that equals its version has Go's zero record.
pub record ResolvedPackage : Type 0 where
  pub name : Bytes
  pub version : Version
  pub row : PackageVersion

pub record Result : Type 0 where
  pub packages : List ResolvedPackage
  pub packages_dev : List ResolvedPackage

-- What a derivation by a dependency of `cur` leads to.
abbrev pub dependee_of : Bytes → Cause → List Bytes
dependee_of cur (dependency p d) = if eq p cur then d ∷ [] else []
dependee_of cur _ = []

abbrev pub dependees_at : Bytes → Assignment → List Bytes
dependees_at cur (decision p v n) = []
dependees_at cur (derivation t ic n) = dependee_of cur (cause ic)

unfoldable pub dependees : Bytes → List Assignment → List Bytes
dependees cur [] = []
dependees cur (a ∷ xs) = dependees_at cur a ++ dependees cur xs

-- The names that are not reached yet, each once: those to queue.
unfoldable pub unreached : List Bytes → List Bytes → List Bytes
unreached reached [] = []
unreached reached (p ∷ ps) =
    let old = unreached reached ps in
    let new = unreached (p ∷ reached) ps in if is_member p reached then old else p ∷ new

-- The breadth-first walk of computeDevOnlySet; `none` belongs to the model: the fuel ran out.
unfoldable pub walk_prod : ℕ → PartialSolution → List Bytes → List Bytes → Option (List Bytes)
walk_prod f ps reached [] = some reached
walk_prod zero ps reached (cur ∷ work) = none
walk_prod (suc f) ps reached (cur ∷ work) =
    let new = unreached reached (dependees cur ps.assignments) in
    let further = walk_prod f ps (new ++ reached) (work ++ new) in
    let skip = walk_prod f ps reached work in if is_decided ps.decisions cur then further else skip

-- Each name is queued once: a requirement, or what some derivation leads to.
unfoldable pub prod_reached : PartialSolution → Manifest → Option (List Bytes)
prod_reached ps m =
    walk_prod (length (keys m.requires) + length ps.assignments) ps (keys m.requires)
      (keys m.requires)

-- devOnly[pkg], where the packages that are reached are given
unfoldable pub is_dev_only : Bool → List Bytes → Bytes → Bool
is_dev_only include_dev reached pkg = include_dev && not (is_member pkg reached)

abbrev pub zero_row : PackageVersion
zero_row = record { name = []; version = []; requires = [] }

unfoldable pub row_of : List ListedVersion → Version → PackageVersion
row_of [] v = zero_row
row_of (l ∷ ls) v = let rest = row_of ls v in if equal l.parsed v then l.package_version else rest

abbrev pub resolved : Bytes → Version → Versions → List ResolvedPackage
resolved p v (listed vs) = (record { name = p; version = v; row = row_of vs v }) ∷ []
resolved p v _ = []

abbrev pub add_resolved :
    Bool → List ResolvedPackage → VersionLister × Result → VersionLister × Result
add_resolved true rps (vl, r) = (vl, record r { packages_dev = rps ++ r.packages_dev })
add_resolved false rps (vl, r) = (vl, record r { packages = rps ++ r.packages })

-- The loop of buildResult over the assignments.
unfoldable pub collect : (Bytes → Bool) → VersionLister → List Assignment → VersionLister × Result
collect dev_only vl [] = (vl, record { packages = []; packages_dev = [] })
collect dev_only vl (derivation t ic n ∷ xs) = collect dev_only vl xs
collect dev_only vl (decision p v n ∷ xs) =
    let skip = collect dev_only vl xs in
    let next = collect dev_only (versions vl p).0 xs in
    if eq p root_package
    then skip
    else add_resolved (dev_only p) (resolved p v (versions vl p).1) next

unfoldable pub by_name : ResolvedPackage → ResolvedPackage → Bool
by_name a b = bytes_less a.name b.name

unfoldable pub sort_result : Result → Result
sort_result r = record {
  packages = sort_by by_name r.packages;
  packages_dev = sort_by by_name r.packages_dev;
}

unfoldable pub build_result :
    PartialSolution → Bool → List Bytes → VersionLister → VersionLister × Result
build_result ps include_dev reached vl =
    let (vl', r) = collect (is_dev_only include_dev reached) vl ps.assignments in
    (vl', sort_result r)
