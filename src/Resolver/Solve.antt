-- ===== src/Resolver/Solve.antt =====
-- internal/resolver/solve.go: the roots and the main loop of the solver.
use gomposer.Prelude.{
  ℕ, zero, suc, Bool, true, false, Option, none, some, List, [], ◌∷◌, ◌++◌, if◌then◌else◌,
}
use gomposer.Prelude.Bytes.{Bytes, codes}
use gomposer.Strings.{eq, is_empty}
use gomposer.Sort.{Entries, keys, entry, sort_strings}
use gomposer.Constraint.Version.{Error}
use gomposer.Constraint.Term.{Constraint}
use gomposer.Constraint.Parse.{parse, explicit_dev_branch, stability_flag}
use gomposer.Platform.{Platform}
use gomposer.Resolver.Term.{Term, inverse}
use gomposer.Resolver.Incompatibility.{Incompatibility, incompatibility, root, terms, is_failure}
use gomposer.Resolver.Solution.{PartialSolution, new_partial_solution, derive, backtrack}
use gomposer.Resolver.Propagate.{Propagated, propagate}
use gomposer.Resolver.Conflict.{conflict_resolution}
use gomposer.Resolver.Versions.{
  Lookup, VersionLister, new_version_lister, allow_dev_branch, allow_stability_at_least,
  parse_stability_name,
}
use gomposer.Resolver.Decide.{
  is_platform_package, constraint_of, Decided, all_done, made, no_candidates, lookup_error,
  out_of_range, decide,
}

-- The manifest's fields that the solver reads.
pub record Manifest : Type 0 where
  pub requires : Entries
  pub requires_dev : Entries
  pub minimum_stability : Bytes

-- Input, without the lock and the fingerprint, which Solve does not read, and the callbacks, which
-- only report. A nil map of ignored requirements ignores nothing.
pub record Input : Type 0 where
  pub manifest : Manifest
  pub source : Bytes → Lookup
  pub include_dev : Bool
  pub platform : Option Platform
  pub ignored : Bytes → Bool
  pub strict_platform : Bool
  pub minimum_stability : Bytes

abbrev flag_branch : Bytes → Constraint → VersionLister → VersionLister
flag_branch pkg c vl =
    if is_empty (explicit_dev_branch c) then vl else allow_dev_branch vl pkg (explicit_dev_branch c)

abbrev flag_stability : Bytes → Constraint → VersionLister → VersionLister
flag_stability pkg c vl =
    if is_empty (stability_flag c)
    then vl
    else allow_stability_at_least vl pkg (parse_stability_name (stability_flag c))

abbrev register_flag : Bytes → Constraint × Option Error → VersionLister → VersionLister
register_flag pkg (c, some e) vl = vl
register_flag pkg (c, none) vl = flag_stability pkg c (flag_branch pkg c vl)

-- The function registerFlags of Solve.
unfoldable pub register_flags : Entries → VersionLister → VersionLister
register_flags [] vl = vl
register_flags ((pkg, raw) ∷ reqs) vl = register_flags reqs (register_flag pkg (parse raw) vl)

-- The version lister that Solve sets up.
unfoldable pub lister_of : Input → VersionLister
lister_of i =
    let stab =
      if is_empty i.minimum_stability then i.manifest.minimum_stability else i.minimum_stability in
    let vl = new_version_lister i.source stab in
    let set = record vl {
      platform = i.platform;
      ignored = i.ignored;
      strict = i.strict_platform;
    } in
    let prod = register_flags i.manifest.requires set in
    if i.include_dev then register_flags i.manifest.requires_dev prod else prod

abbrev pub root_package : Bytes
root_package = codes "$root"

abbrev pub root_term : Term
root_term = record { pkg = root_package; constraint = (parse (codes "*")).0; positive = true }

-- One requirement of the manifest: the root, without a version that it admits.
unfoldable pub root_incompat : Bytes → Bytes → Incompatibility
root_incompat name raw =
    incompatibility
      (root_term ∷ (record { pkg = name; constraint = constraint_of raw; positive = false }) ∷ [])
      root

unfoldable pub root_incompats : Entries → List Bytes → List Incompatibility
root_incompats m [] = []
root_incompats m (name ∷ names) =
    let rest = root_incompats m names in
    if is_platform_package name then rest else root_incompat name (entry m name) ∷ rest

unfoldable pub build_root_incompatibilities : Manifest → Bool → List Incompatibility
build_root_incompatibilities m include_dev =
    root_incompats m.requires (sort_strings (keys m.requires))
    ++ (if include_dev
        then root_incompats m.requires_dev (sort_strings (keys m.requires_dev))
        else [])

abbrev pub derive_second : PartialSolution → Incompatibility → List Term → PartialSolution
derive_second ps ic (r ∷ t ∷ []) = derive ps (inverse t) ic
derive_second ps ic _ = ps

-- Each direct requirement is derived before the loop.
unfoldable pub derive_roots : PartialSolution → List Incompatibility → PartialSolution
derive_roots ps [] = ps
derive_roots ps (ic ∷ ics) = derive_roots (derive_second ps ic (terms ic)) ics

unfoldable pub first_package : List Term → Bytes → Bytes
first_package [] later = later
first_package (t ∷ ts) later =
    let rest = first_package ts later in if eq t.pkg root_package then rest else t.pkg

unfoldable pub pick_any_mentioned_package : List Incompatibility → Bytes
pick_any_mentioned_package [] = []
pick_any_mentioned_package (ic ∷ ics) = first_package (terms ic) (pick_any_mentioned_package ics)

-- How the loop ends; `panicked` would be an index out of range. `stuck` belongs to the model: conflict resolution ran out of its fuel.
pub data Outcome : Type 0 where
  solved : PartialSolution → VersionLister → Outcome
  conflict_error : Incompatibility → Outcome
  source_error : List Bytes → Outcome
  exceeded : Outcome
  panicked : Outcome
  stuck : Outcome

-- A further round: its partial solution, incompatibilities, lister and seed.
abbrev pub Next : Type 0
Next = PartialSolution → List Incompatibility → VersionLister → Bytes → Outcome

abbrev first_pkg : List Term → Bytes
first_pkg [] = []
first_pkg (t ∷ ts) = t.pkg

abbrev pub after_resolution :
    PartialSolution
    → List Incompatibility
    → VersionLister
    → Option (Incompatibility × ℕ)
    → Next
    → Outcome
after_resolution ps ics vl none next = stuck
after_resolution ps ics vl (some (ic, target)) next =
    let again = next (backtrack ps target) (ics ++ ic ∷ []) vl (first_pkg (terms ic)) in
    if is_failure ic then conflict_error ic else again

abbrev pub after_decide :
    PartialSolution → List Incompatibility → VersionLister × Decided → Next → Outcome
after_decide ps ics (vl, lookup_error e) next = source_error e
after_decide ps ics (vl, out_of_range) next = panicked
after_decide ps ics (vl, all_done) next = solved ps vl
after_decide ps ics (vl, made p ps' new) next = next ps' (ics ++ new) vl p
after_decide ps ics (vl, no_candidates p ic) next = next ps (ics ++ ic ∷ []) vl p

abbrev pub after_propagate : ℕ → List Incompatibility → VersionLister → Propagated → Next → Outcome
after_propagate fuel ics vl none next = stuck
after_propagate fuel ics vl (some (ps, some ic)) next =
    after_resolution ps ics vl (conflict_resolution fuel ps ic) next
after_propagate fuel ics vl (some (ps, none)) next = after_decide ps ics (decide ps vl) next

-- Nothing is propagated where no package is mentioned.
abbrev pub step :
    ℕ → PartialSolution → List Incompatibility → VersionLister → Bytes → Next → Outcome
step fuel ps ics vl [] next = after_decide ps ics (decide ps vl) next
step fuel ps ics vl (c ∷ seed) next = after_propagate fuel ics vl (propagate ps ics (c ∷ seed)) next

abbrev pub seed_of : List Incompatibility → Bytes → Bytes
seed_of ics [] = pick_any_mentioned_package ics
seed_of ics (c ∷ seed) = c ∷ seed

-- The main loop: `fuel` is for conflict resolution, and the second argument counts the steps left.
unfoldable pub solve_loop : ℕ → ℕ → Next
solve_loop fuel zero ps ics vl seed = exceeded
solve_loop fuel (suc steps) ps ics vl seed =
    step fuel ps ics vl (seed_of ics seed)
      (λ ps' ics' vl' seed'. solve_loop fuel steps ps' ics' vl' seed')

-- safetyLimit
abbrev pub safety_limit : ℕ
safety_limit = 100000

-- Solve, with the step limit as an argument and without the tests for nil; the code's limit is `safety_limit`.
unfoldable pub solve : ℕ → ℕ → Input → Outcome
solve fuel limit i =
    let ics = build_root_incompatibilities i.manifest i.include_dev in
    solve_loop fuel limit (derive_roots new_partial_solution ics) ics (lister_of i) []
