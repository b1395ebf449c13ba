-- ===== src/Resolver/Samples.antt =====
-- The resolver of internal/resolver on concrete inputs.
use gomposer.Prelude.{
  leb, if◌then◌else◌, ℕ, Bool, true, false, none, some, List, [], ◌∷◌, ◌≡◌, ◌≢◌, ◌↔◌, ◌⊎◌, refl,
  arith, All,
}
use gomposer.Prelude.Bytes.{Bytes, codes}
use gomposer.Prelude.Int.{pos}
use gomposer.Constraint.Version.{Version, numeric, stable, parse_version}
use gomposer.Constraint.Term.{Constraint, satisfies, satisfies_term, by_numbers}
use gomposer.Constraint.Compare.{compare_numeric, compare_versions}
use gomposer.Resolver.Exactness.{is_eq, exact_constraint-satisfies}
use gomposer.Resolver.Decide.{exact_constraint, is_platform_package}
use gomposer.Resolver.Conflict.{
  last_satisfier, merge_others, append_dedup, conflict_resolution, resolve_incompatibilities,
  assignment_satisfies_any_term,
}
use gomposer.Resolver.Resolution.{
  resolve_incompatibilities_sound, resolve_incompatibilities_unsound,
}
use gomposer.Resolver.Divergence.{conflict_resolution_diverges}
use gomposer.Constraint.Parse.{
  parse, parse_groups, groups, parse_and_clause, normalize_group, glue_operator_spaces,
  strip_inline_alias, and_terms,
}
use gomposer.Constraint.Expand.{
  parse_term, is_wildcard_term, parse_operator, single_op, caret_terms,
}
use gomposer.Sort.{keys, sort_by}
use gomposer.Resolver.Term.{Term, inverse, term_satisfies}
use gomposer.Resolver.Incompatibility.{dependency, Incompatibility, incompatibility, root, terms}
use gomposer.Resolver.Solution.{
  PartialSolution, new_partial_solution, decide_version, derive, backtrack, derivation, level_of,
  decision, rebuild, no_decisions, Assignment,
}
use gomposer.Resolver.Propagate.{
  is_member, Propagated, propagate, classify_incompatibility, conflicting, derived,
}
use gomposer.Resolver.Versions.{
  PackageVersion, Lookup, found, failed, VersionLister, new_version_lister, versions, candidates,
  error,
}
use gomposer.Resolver.Decide.{decide}
use gomposer.Resolver.Solve.{Manifest, Input, Outcome, solved, solve}
use gomposer.Resolver.Answer.{MeetsAll, solve_requirements}
use gomposer.Resolver.Termination.{propagate-some}
use gomposer.Strings.{is_empty, has_byte, is_space, eq, after_prefix, replace_byte}
use gomposer.Strings.Split.{fields}
use gomposer.Resolver.Meaning.{Choice, FromText, holds, violates}
use gomposer.Resolver.Propagation.{Agrees, LoopKeeps, propagate_keeps}
use gomposer.Resolver.Classify.{AllSubset, OnlyOpen, classify_incompatibility_iff}
use gomposer.Resolver.Levels.{
  keep_if, Reached, start, decided, derived, backtracked, IsValid, Reached-IsValid, backtrack_keeps,
}
use gomposer.Sort.{sort_strings}
use gomposer.Sort.Laws.{IsSorted}
use gomposer.Resolver.Versions.{newer}
use gomposer.Resolver.Candidates.{IsAdmitted, IsRejected, candidates_lem}
use gomposer.Strings.{is_space}
use gomposer.Strings.Split.{fields}
use gomposer.Resolver.Render.{write_wrapped}
use gomposer.Resolver.Render.Width.{all_fields, IsShort, write_wrapped_lem}
use gomposer.Platform.{fingerprint, extension_names, extension_parts, extension_in}
use gomposer.Resolver.Versions.{stability_floor, allow_stability_at_least, parse_stability_name}
use gomposer.Resolver.Choosing.{OnDecided, decide_fits}

abbrev lib : Bytes
lib = codes "acme/lib"

abbrev row : Bytes → PackageVersion
row v = record { name = lib; version = v; requires = [] }

abbrev source : Bytes → Lookup
source p = found (row (codes "1.0.0") ∷ row (codes "1.2.0") ∷ row (codes "2.0.0") ∷ [])

abbrev input : Input
input = record {
  manifest = record {
    requires = (lib, codes "^1.0") ∷ (codes "php", codes ">=8") ∷ [];
    requires_dev = [];
    minimum_stability = [];
  };
  source = source;
  include_dev = false;
  platform = none;
  ignored = λ p. false;
  strict_platform = false;
  minimum_stability = [];
}

abbrev solution_of : Outcome → PartialSolution
solution_of (solved ps vl) = ps
solution_of _ = new_partial_solution

abbrev lister_left : Outcome → VersionLister
lister_left (solved ps vl) = vl
lister_left _ = new_version_lister source []

solve_sample :
    solve 10 10 input ≡ solved (solution_of (solve 10 10 input)) (lister_left (solve 10 10 input))
unfolding gomposer.Strings.replace_byte gomposer.Strings.Split.fields gomposer.Sort.sort_strings
    gomposer.Sort.keys gomposer.Sort.entry gomposer.Constraint.Term.satisfies_term
    gomposer.Constraint.Term.satisfies gomposer.Constraint.Expand.single_op
    gomposer.Constraint.Expand.caret_terms gomposer.Constraint.Expand.is_wildcard_term
    gomposer.Constraint.Expand.parse_operator gomposer.Constraint.Expand.parse_term
    gomposer.Constraint.Parse.strip_inline_alias gomposer.Constraint.Parse.glue_operator_spaces
    gomposer.Constraint.Parse.and_terms gomposer.Constraint.Parse.parse_and_clause
    gomposer.Constraint.Parse.normalize_group gomposer.Constraint.Parse.parse_groups
    gomposer.Constraint.Parse.groups gomposer.Constraint.Parse.parse
    gomposer.Constraint.Parse.explicit_dev_branch gomposer.Constraint.Parse.stability_flag
    gomposer.Resolver.Term.inverse gomposer.Resolver.Term.relation
    gomposer.Resolver.Solution.decide_version gomposer.Resolver.Solution.derive
    gomposer.Resolver.Solution.relation_to_derivations gomposer.Resolver.Solution.relation_of
    gomposer.Resolver.Solution.solution_satisfies
    gomposer.Resolver.Propagate.classify_incompatibility
    gomposer.Resolver.Propagate.mentions_package gomposer.Resolver.Propagate.propagate_once
    gomposer.Resolver.Propagate.is_member gomposer.Resolver.Propagate.propagate_loop
    gomposer.Resolver.Propagate.propagate gomposer.Resolver.Versions.parse_stability_name
    gomposer.Resolver.Versions.stability_floor gomposer.Resolver.Versions.admits
    gomposer.Resolver.Versions.parse_rows gomposer.Resolver.Versions.newer
    gomposer.Resolver.Versions.candidates gomposer.Resolver.Versions.versions
    gomposer.Resolver.Decide.is_platform_package gomposer.Resolver.Decide.undecided_packages
    gomposer.Resolver.Decide.filter_by_active_constraints gomposer.Resolver.Decide.constraint_of
    gomposer.Resolver.Decide.dependency_incompats gomposer.Resolver.Decide.gather
    gomposer.Resolver.Decide.choose gomposer.Resolver.Decide.decide
    gomposer.Resolver.Solve.register_flags gomposer.Resolver.Solve.lister_of
    gomposer.Resolver.Solve.root_incompat gomposer.Resolver.Solve.root_incompats
    gomposer.Resolver.Solve.build_root_incompatibilities gomposer.Resolver.Solve.derive_roots
    gomposer.Resolver.Solve.first_package gomposer.Resolver.Solve.pick_any_mentioned_package
    gomposer.Resolver.Solve.solve_loop gomposer.Resolver.Solve.solve
solve_sample = refl

solve_requirements_example :
    MeetsAll
      (solution_of (solve 10 10 input))
      ((lib, codes "^1.0") ∷ (codes "php", codes ">=8") ∷ [])
    × ((input.include_dev ≡ false) ⊎ MeetsAll (solution_of (solve 10 10 input)) [])
solve_requirements_example =
    solve_requirements 10 10 input (solution_of (solve 10 10 input))
      (lister_left (solve 10 10 input)) solve_sample

abbrev term_on : Bytes → Bytes → Bool → Term
term_on p raw positive = record { pkg = p; constraint = (parse raw).0; positive = positive }

abbrev app : Bytes
app = codes "acme/app"

abbrev one_two : Version
one_two = record (numeric (pos 1) (pos 2) (pos 0) stable) { original = codes "1.2.0" }

-- The application needs the library.
abbrev needs : Incompatibility
needs =
    incompatibility (term_on app (codes "=1.0.0") true ∷ term_on lib (codes "^1.0") false ∷ []) root

abbrev one_zero : Version
one_zero = record (numeric (pos 1) (pos 0) (pos 0) stable) { original = codes "1.0.0" }

abbrev decided_app : PartialSolution
decided_app = decide_version new_partial_solution app one_zero

propagate-some_example : propagate decided_app (needs ∷ []) app ≢ none
propagate-some_example = propagate-some decided_app (needs ∷ []) app

abbrev both : Choice
both p = if eq app p then some one_zero else if eq lib p then some one_two else none

both-Agrees : Agrees both decided_app
unfolding decide_version
both-Agrees = record { decided = λ p v h. ground arith; derived = (tt, tt) }

propagate_keeps_example : LoopKeeps both (propagate decided_app (needs ∷ []) app)
unfolding decide_version FromText parse after_prefix violates holds term_satisfies satisfies eq
    parse_groups groups parse_and_clause fields normalize_group glue_operator_spaces replace_byte
    strip_inline_alias and_terms parse_term is_wildcard_term parse_operator single_op satisfies_term
    caret_terms
propagate_keeps_example =
    propagate_keeps both decided_app (needs ∷ []) app (tt, tt) both-Agrees ((refl, (refl, tt)), tt)
      (refl, tt)

classify_incompatibility_iff_example :
    ((classify_incompatibility decided_app needs ≡ conflicting)
      ↔ AllSubset decided_app (terms needs))
    × ((k : ℕ)
        → (classify_incompatibility decided_app needs ≡ derived k)
          ↔ OnlyOpen decided_app k (terms needs))
classify_incompatibility_iff_example = classify_incompatibility_iff decided_app needs

reached : Reached (
    backtrack
      (decide_version
        (derive new_partial_solution (term_on app (codes "=1.0.0") true) needs)
        app
        one_zero)
      0)
reached =
    backtracked 0 (decided app one_zero (derived (term_on app (codes "=1.0.0") true) needs start))

Reached-IsValid_example : IsValid (
    backtrack
      (decide_version
        (derive new_partial_solution (term_on app (codes "=1.0.0") true) needs)
        app
        one_zero)
      0)
Reached-IsValid_example =
    Reached-IsValid (
      backtracked 0
        (decided app one_zero (derived (term_on app (codes "=1.0.0") true) needs start)))

decide_fits_example : OnDecided decided_app (decide decided_app (new_version_lister source [])).1
decide_fits_example = decide_fits decided_app (new_version_lister source [])

candidates_lem_example :
    All (IsAdmitted (new_version_lister source []) lib) (
      candidates
        (new_version_lister source [])
        lib
        (row (codes "1.0.0") ∷ row (codes "1.2.0") ∷ []))
    × IsSorted newer (
        candidates
          (new_version_lister source [])
          lib
          (row (codes "1.0.0") ∷ row (codes "1.2.0") ∷ []))
    × ((candidates
            (new_version_lister source [])
            lib
            (row (codes "1.0.0") ∷ row (codes "1.2.0") ∷ [])
          ≡ [])
        ↔ All
            (IsRejected (new_version_lister source []) lib)
            (row (codes "1.0.0") ∷ row (codes "1.2.0") ∷ []))
candidates_lem_example =
    candidates_lem (new_version_lister source []) lib
      (row (codes "1.0.0") ∷ row (codes "1.2.0") ∷ [])

abbrev assigned : List Assignment
assigned = derivation (term_on app (codes "=1.0.0") true) needs 0 ∷ decision app one_zero 1 ∷ []

abbrev after_assigned : PartialSolution
after_assigned = record {
  assignments = assigned;
  level = 1;
  decisions = rebuild no_decisions assigned;
}

after_assigned-IsValid : IsValid after_assigned
after_assigned-IsValid = record {
  rising = ((omega arith, tt), (tt, tt));
  bounded = (omega arith, (omega arith, tt));
  decided = λ p. refl;
}

backtrack_keeps_example :
    ((backtrack after_assigned 0).assignments ≡ keep_if (λ a. leb (level_of a) 0) assigned)
    × ((p : Bytes)
        → (backtrack after_assigned 0).decisions p
          ≡ rebuild no_decisions (keep_if (λ a. leb (level_of a) 0) assigned) p)
backtrack_keeps_example = backtrack_keeps after_assigned 0 after_assigned-IsValid

exact_constraint-satisfies_example : satisfies (exact_constraint one_two) one_zero ≡ (
    if by_numbers one_zero
    then is_eq (compare_numeric one_zero one_two)
    else is_eq (compare_versions one_zero one_two))
unfolding is_wildcard_term parse_version is_space
exact_constraint-satisfies_example = exact_constraint-satisfies one_two one_zero refl refl refl

abbrev lib_one : Term
lib_one = term_on lib (codes "^1.0") true

abbrev lib_exact : Term
lib_exact = term_on lib (codes "=1.0.0") true

abbrev app_exact : Term
app_exact = term_on app (codes "=1.0.0") true

abbrev circular : PartialSolution
circular = record {
  assignments =
      derivation lib_one (incompatibility (app_exact ∷ lib_exact ∷ []) root) 0
      ∷ derivation app_exact (incompatibility (lib_one ∷ app_exact ∷ []) root) 0
      ∷ [];
  level = 0;
  decisions = no_decisions;
}

conflict_resolution_diverges_example :
    conflict_resolution 100 circular (incompatibility (lib_one ∷ []) root) ≡ none
unfolding last_satisfier assignment_satisfies_any_term eq
conflict_resolution_diverges_example =
    conflict_resolution_diverges circular lib_one app_exact lib_exact app_exact lib_one app_exact
      root root 0 0 refl refl refl refl refl refl refl refl 100 root

resolve_incompatibilities_unsound_example :
    (assignment_satisfies_any_term (derivation lib_one needs 0) (lib_exact ∷ []) ≡ true)
    × (violates both (incompatibility (lib_exact ∷ []) root) ≡ false)
    × (violates both (incompatibility (inverse lib_one ∷ app_exact ∷ []) root) ≡ false)
    × (violates both (
          resolve_incompatibilities
            (incompatibility (lib_exact ∷ []) root)
            (incompatibility (inverse lib_one ∷ app_exact ∷ []) root)
            lib_one)
        ≡ true)
unfolding holds parse after_prefix term_satisfies satisfies eq parse_groups groups parse_and_clause
    fields normalize_group glue_operator_spaces replace_byte strip_inline_alias and_terms parse_term
    is_wildcard_term parse_operator single_op satisfies_term caret_terms
resolve_incompatibilities_unsound_example =
    resolve_incompatibilities_unsound both lib_one lib_exact [] (app_exact ∷ []) root root needs 0
      refl refl refl refl refl

resolve_incompatibilities_sound_example :
    (violates both (incompatibility (lib_one ∷ []) root) ≡ true)
    ⊎ (violates both (incompatibility (inverse lib_one ∷ app_exact ∷ []) root) ≡ true)
unfolding FromText holds parse after_prefix term_satisfies satisfies eq parse_groups groups
    parse_and_clause fields normalize_group glue_operator_spaces replace_byte strip_inline_alias
    and_terms parse_term is_wildcard_term parse_operator single_op satisfies_term caret_terms
    resolve_incompatibilities violates merge_others append_dedup inverse
resolve_incompatibilities_sound_example =
    resolve_incompatibilities_sound both (incompatibility (lib_one ∷ []) root)
      (incompatibility (inverse lib_one ∷ app_exact ∷ []) root) lib_one (refl, tt)
      (refl, (refl, tt)) ((λ p h. h), tt) ((λ p h. ground arith), ((λ p h. ground arith), tt)) refl

-- A lister that has the rows of the application.
abbrev listing : VersionLister
listing = record (new_version_lister source []) { cache = λ p. some [] }

-- The application is required and decided, and its requirement of the library is derived.
abbrev reached_sample : PartialSolution
reached_sample =
    derive decided_app (term_on lib (codes "^1") true)
      (incompatibility (terms needs) (dependency app lib))

abbrev app_manifest : Manifest
app_manifest = record {
  requires = (app, codes "^1") ∷ [];
  requires_dev = [];
  minimum_stability = [];
}

write_wrapped_lem_example :
    (all_fields (write_wrapped (codes "  ") (codes "acme/app 1.0.0  requires\tacme/lib ^2."))
      ≡ fields (codes "acme/app 1.0.0  requires\tacme/lib ^2."))
    × All
        (IsShort (codes "  "))
        (write_wrapped (codes "  ") (codes "acme/app 1.0.0  requires\tacme/lib ^2."))
unfolding is_space
write_wrapped_lem_example =
    write_wrapped_lem (codes "  ") (codes "acme/app 1.0.0  requires\tacme/lib ^2.") refl

fingerprint_sample :
    fingerprint (
      some (record {
        php_version = one_two;
        extensions =
            (codes "zip", numeric (pos 0) (pos 0) (pos 0) stable) ∷ (codes "intl", one_zero) ∷ [];
      }))
    ≡ codes "php-1.2.0;ext-intl@1.0.0;ext-zip"
unfolding eq fingerprint is_empty extension_names extension_parts extension_in sort_strings
fingerprint_sample = refl
