-- ===== src/Workspaces/Samples.antt =====
-- internal/orchestrator/workspace_aggregate.go on concrete manifests.
use gomposer.Prelude.{true, false, none, some, [], ◌∷◌, ◌≡◌, refl}
use gomposer.Prelude.Bytes.{Bytes, codes}
use gomposer.Prelude.Int.{pos}
use gomposer.Sort.{Entries}
use gomposer.Constraint.Version.{numeric, stable}
use gomposer.Constraint.Term.{satisfies}
use gomposer.Constraint.Parse.{parse}
use gomposer.Workspaces.{
  Project, Workspace, build_aggregate_manifest, add_requirement, lookup_entry,
}
use gomposer.Workspaces.Merging.{
  OnMerged, HasNoWorkspace, IsPlain, aggregate-HasNoWorkspace, merged_alternative,
}

abbrev project : Bytes → Entries → Project
project name requires = record {
  name = name;
  version = codes "1.2.0";
  requires = requires;
  requires_dev = [];
  minimum_stability = [];
  prefer_stable = false;
  repositories = [];
}

abbrev shared : Workspace
shared = record {
  name = codes "acme/shared";
  manifest = project (codes "acme/shared") ((codes "psr/log", codes "^3") ∷ []);
  version = codes "1.2.0";
}

aggregate-HasNoWorkspace_example : OnMerged HasNoWorkspace (
    build_aggregate_manifest
      (project (codes "acme/app") ((codes "acme/shared", codes "workspace:^1") ∷ []))
      (shared ∷ [])
      true)
aggregate-HasNoWorkspace_example =
    aggregate-HasNoWorkspace
      (project (codes "acme/app") ((codes "acme/shared", codes "workspace:^1") ∷ [])) (shared ∷ [])
      true

sample_fits :
    IsPlain (codes "^6")
    × IsPlain (codes "^7")
    × ((parse (codes "^6")).1 ≡ none)
    × (satisfies (parse (codes "^6")).0 (numeric (pos 6) (pos 2) (pos 0) stable) ≡ true)
unfolding gomposer.Strings.replace_byte gomposer.Strings.Split.fields
    gomposer.Constraint.Term.satisfies_term gomposer.Constraint.Term.satisfies
    gomposer.Constraint.Expand.caret_terms gomposer.Constraint.Expand.is_wildcard_term
    gomposer.Constraint.Expand.parse_operator gomposer.Constraint.Expand.parse_term
    gomposer.Constraint.Parse.strip_inline_alias gomposer.Constraint.Parse.glue_operator_spaces
    gomposer.Constraint.Parse.and_terms gomposer.Constraint.Parse.parse_and_clause
    gomposer.Constraint.Parse.normalize_group gomposer.Constraint.Parse.parse_groups
    gomposer.Constraint.Parse.groups gomposer.Constraint.Parse.parse
sample_fits = (refl, refl, refl, refl)

merged_alternative_example :
    (text : Bytes) × (lookup_entry
        (add_requirement ((codes "a/b", codes "^6||^7") ∷ []) (codes "a/b") (codes "^7"))
        (codes "a/b")
      ≡ some text)
    × (satisfies (parse text).0 (numeric (pos 6) (pos 2) (pos 0) stable) ≡ true)
unfolding lookup_entry
merged_alternative_example =
    merged_alternative ((codes "a/b", codes "^6||^7") ∷ []) (codes "a/b") (codes "^6") (codes "^7")
      (codes "^7") (numeric (pos 6) (pos 2) (pos 0) stable) refl refl sample_fits.0 sample_fits.1
      refl sample_fits.2 sample_fits.3
