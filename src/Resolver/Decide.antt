-- ===== src/Resolver/Decide.antt =====
-- internal/resolver/decide.go: the choice of a package and a version.
use gomposer.Prelude.{
  Bool, true, false, not, ◌&&◌, ◌||◌, Option, none, some, List, [], ◌∷◌, ◌++◌, ltb, ◌==◌, length,
  all, if◌then◌else◌,
}
use gomposer.Prelude.Bytes.{Bytes, codes}
use gomposer.Strings.{eq, has_prefix}
use gomposer.Sort.{Entries, sort_by, sort_strings, bytes_less}
use gomposer.Constraint.Version.{Version, Error}
use gomposer.Constraint.Term.{Constraint}
use gomposer.Constraint.Parse.{parse, no_constraint}
use gomposer.Resolver.Term.{Term, term_satisfies}
use gomposer.Resolver.Incompatibility.{
  Incompatibility, incompatibility, dependency, no_versions, unknown_package,
}
use gomposer.Resolver.Solution.{
  Assignment, decision, derivation, Decisions, PartialSolution, decide_version,
  positive_derivations,
}
use gomposer.Resolver.Propagate.{is_member}
use gomposer.Resolver.Versions.{
  ListedVersion, VersionLister, Versions, listed, package_not_found, error, versions,
}

unfoldable pub is_platform_package : Bytes → Bool
unfolding eq has_prefix
is_platform_package name =
    eq name (codes "php")
    || eq name (codes "php-64bit")
    || eq name (codes "php-ipv6")
    || eq name (codes "hhvm")
    || eq name (codes "composer-plugin-api")
    || eq name (codes "composer-runtime-api")
    || has_prefix (codes "ext-") name
    || has_prefix (codes "lib-") name

abbrev pub is_decided : Decisions → Bytes → Bool
is_decided d p = elim (d p) [ none ↦ false | some v ↦ true ]

-- The loop of undecidedPackages over the assignments; `seen` are those that are listed already.
unfoldable pub undecided_from : Decisions → List Bytes → List Assignment → List Bytes
undecided_from d seen [] = []
undecided_from d seen (decision p v n ∷ xs) = undecided_from d seen xs
undecided_from d seen (derivation t ic n ∷ xs) =
    let skip = undecided_from d seen xs in
    let new = undecided_from d (t.pkg ∷ seen) xs in
    if t.positive && not (is_decided d t.pkg) && not (is_member t.pkg seen)
    then t.pkg ∷ new
    else skip

unfoldable pub undecided_packages : PartialSolution → List Bytes
unfolding undecided_from
undecided_packages ps = undecided_from ps.decisions [] ps.assignments

-- The derived terms on a package.
unfoldable pub terms_about : Bytes → List Assignment → List Term
terms_about pkg [] = []
terms_about pkg (decision p v n ∷ xs) = terms_about pkg xs
terms_about pkg (derivation t ic n ∷ xs) =
    let rest = terms_about pkg xs in if eq t.pkg pkg then t ∷ rest else rest

unfoldable pub keep_satisfying : List Term → List ListedVersion → List ListedVersion
keep_satisfying ts [] = []
keep_satisfying ts (v ∷ vs) =
    let rest = keep_satisfying ts vs in
    if all (λ t. term_satisfies t v.parsed) ts then v ∷ rest else rest

unfoldable pub filter_by_active_constraints :
    PartialSolution → Bytes → List ListedVersion → List ListedVersion
unfolding terms_about keep_satisfying
filter_by_active_constraints ps pkg vs = keep_satisfying (terms_about pkg ps.assignments) vs

abbrev or_universal : Bytes → List Term → List Term
or_universal pkg [] =
    (record { pkg = pkg; constraint = (parse (codes ">=0.0.0")).0; positive = true }) ∷ []
or_universal pkg (t ∷ ts) = t ∷ ts

unfoldable pub make_no_versions_incompat : PartialSolution → Bytes → Incompatibility
make_no_versions_incompat ps pkg =
    incompatibility (or_universal pkg (positive_derivations ps.assignments pkg)) (no_versions pkg)

unfoldable pub make_unknown_package_incompat : PartialSolution → Bytes → Incompatibility
make_unknown_package_incompat ps pkg =
    incompatibility (or_universal pkg (positive_derivations ps.assignments pkg))
      (unknown_package pkg)

unfoldable pub exact_constraint : Version → Constraint
exact_constraint v = (parse (codes "=" ++ v.original)).0

-- `c, err := Parse(raw)`, with the empty constraint in place of an error
abbrev or_no_constraint : Constraint × Option Error → Constraint
or_no_constraint (c, none) = c
or_no_constraint (c, some e) = no_constraint

unfoldable pub constraint_of : Bytes → Constraint
constraint_of raw = or_no_constraint (parse raw)

-- The incompatibility "this version, without a version that its requirement admits".
unfoldable pub dependency_incompat : Bytes → Version → Bytes → Bytes → Incompatibility
dependency_incompat pkg v dep raw =
    incompatibility
      ((record { pkg = pkg; constraint = exact_constraint v; positive = true })
        ∷ (record { pkg = dep; constraint = constraint_of raw; positive = false })
        ∷ [])
      (dependency pkg dep)

-- The loop over the requirements of the picked version.
unfoldable pub dependency_incompats : Bytes → Version → Entries → List Incompatibility
dependency_incompats pkg v [] = []
dependency_incompats pkg v ((dep, raw) ∷ reqs) =
    let rest = dependency_incompats pkg v reqs in
    if is_platform_package dep then rest else dependency_incompat pkg v dep raw ∷ rest

pub record Candidate : Type 0 where
  pub pkg : Bytes
  pub choices : List ListedVersion

-- What became of the packages: their candidates, or the first that could not be listed.
pub data Gathered : Type 0 where
  gathered : List Candidate → Gathered
  missing : Bytes → Gathered
  broken : List Bytes → Gathered

abbrev pub add_candidate : Candidate → VersionLister × Gathered → VersionLister × Gathered
add_candidate c (vl, gathered cs) = (vl, gathered (c ∷ cs))
add_candidate c (vl, missing p) = (vl, missing p)
add_candidate c (vl, broken e) = (vl, broken e)

abbrev pub gather_one :
    PartialSolution
    → Bytes
    → VersionLister × Versions
    → (VersionLister → VersionLister × Gathered)
    → VersionLister × Gathered
gather_one ps pkg (vl, package_not_found) later = (vl, missing pkg)
gather_one ps pkg (vl, error e) later = (vl, broken e)
gather_one ps pkg (vl, listed vs) later =
    add_candidate (record { pkg = pkg; choices = filter_by_active_constraints ps pkg vs })
      (later vl)

-- The loop that lists the versions of each undecided package.
unfoldable pub gather : PartialSolution → VersionLister → List Bytes → VersionLister × Gathered
gather ps vl [] = (vl, gathered [])
gather ps vl (pkg ∷ pkgs) = gather_one ps pkg (versions vl pkg) (λ vl'. gather ps vl' pkgs)

-- Fewer candidates first, and then by name.
unfoldable pub fewer : Candidate → Candidate → Bool
fewer a b =
    if length a.choices == length b.choices
    then bytes_less a.pkg b.pkg
    else ltb (length a.choices) (length b.choices)

-- The result of decide; `out_of_range` would be the panic of `cands[0]`. With the new partial solution, and the incompatibilities to append.
pub data Decided : Type 0 where
  all_done : Decided
  made : Bytes → PartialSolution → List Incompatibility → Decided
  no_candidates : Bytes → Incompatibility → Decided
  lookup_error : List Bytes → Decided
  out_of_range : Decided

abbrev pub pick : PartialSolution → Candidate → List ListedVersion → Decided
pick ps c [] = no_candidates c.pkg (make_no_versions_incompat ps c.pkg)
pick ps c (v ∷ vs) =
    made c.pkg (decide_version ps c.pkg v.parsed)
      (dependency_incompats c.pkg v.parsed v.package_version.requires)

-- The chosen candidate is the first one.
unfoldable pub choose : PartialSolution → List Candidate → Decided
choose ps [] = out_of_range
choose ps (c ∷ cs) = pick ps c c.choices

abbrev pub decide_gathered : PartialSolution → VersionLister × Gathered → VersionLister × Decided
decide_gathered ps (vl, gathered cs) = (vl, choose ps (sort_by fewer cs))
decide_gathered ps (vl, missing p) = (vl, no_candidates p (make_unknown_package_incompat ps p))
decide_gathered ps (vl, broken e) = (vl, lookup_error e)

abbrev pub decide_among : PartialSolution → VersionLister → List Bytes → VersionLister × Decided
decide_among ps vl [] = (vl, all_done)
decide_among ps vl (p ∷ pkgs) = decide_gathered ps (gather ps vl (sort_strings (p ∷ pkgs)))

unfoldable pub decide : PartialSolution → VersionLister → VersionLister × Decided
decide ps vl = decide_among ps vl (undecided_packages ps)
