-- ===== src/Constraint/Samples.antt =====
-- Versions and constraints of internal/constraint on concrete texts.
use gomposer.Prelude.{◌≡◌, refl, true, List, [], ◌∷◌, ◌||◌, ◌↔◌, arith}
use gomposer.Prelude.Bytes.{codes}
use gomposer.Strings.{count_byte, eq, after_prefix, replace_byte, trim_prefix}
use gomposer.Strings.Split.{split, fields}
use gomposer.Prelude.Int.{pos}
use gomposer.Constraint.Version.{
  Version, ok, err, numeric, parse_version, atois, stable, rc, dev, Error,
}
use gomposer.Constraint.Term.{Term, and_satisfies, satisfies, satisfies_term, op_ge}
use gomposer.Constraint.Expand.{
  before_wild, parse_term, is_wildcard_term, parse_operator, single_op, term, caret_terms,
  tilde_terms, wildcard_terms, hyphen_range_terms,
}
use gomposer.Constraint.Parse.{
  parse, parse_groups, groups, parse_and_clause, normalize_group, strip_inline_alias, and_terms,
  glue_operator_spaces,
}
use gomposer.Constraint.Ranges.{CaretAdmits, TildeAdmits, caret_terms_admits, tilde_terms_admits}
use gomposer.Constraint.Wildcards.{
  WildcardAdmits, UpTo, wildcard_terms_admits, hyphen_range_terms_admits,
}
use gomposer.Constraint.Alternatives.{parse-or}

parse_version_rc :
    parse_version (codes "v1.2.3-RC2")
    ≡ ok (record (numeric (pos 1) (pos 2) (pos 3) rc) {
      pre_num = pos 2;
      original = codes "v1.2.3-RC2";
    })
unfolding parse_version
parse_version_rc = refl

parse_version-numeric_branch :
    parse_version (codes "2.x-dev")
    ≡ ok (record (numeric (pos 2) (pos 0) (pos 0) dev) {
      branch = codes "2.x-dev";
      original = codes "2.x-dev";
    })
unfolding parse_version
parse_version-numeric_branch = refl

parse_version_branch :
    parse_version (codes "dev-main@dev")
    ≡ ok (record (numeric (pos 0) (pos 0) (pos 0) dev) {
      branch = codes "main";
      stability_flag = codes "dev";
      original = codes "dev-main@dev";
    })
unfolding parse_version
parse_version_branch = refl

parse_version_empty_part : parse_version (codes "1..2") ≡ err (Error.invalid_version (codes "1..2"))
unfolding parse_version
parse_version_empty_part = refl

abbrev one_two_three : Version
one_two_three = record (numeric (pos 1) (pos 2) (pos 3) stable) { original = codes "1.2.3" }

abbrev one_nine : Version
one_nine = numeric (pos 1) (pos 9) (pos 0) stable

caret_terms_admits_example :
    (ts : List Term) × (caret_terms (codes "1.2.3") ≡ ok ts)
    × ((and_satisfies ts one_nine ≡ true) ↔ CaretAdmits 1 2 3 1 9 0)
unfolding parse_version
caret_terms_admits_example =
    caret_terms_admits (codes "1.2.3") one_two_three one_nine 1 2 3 1 9 0 refl (omega arith)
      (omega arith) (record { at_major = refl; at_minor = refl; at_patch = refl; no_branch = refl })
      (record { at_major = refl; at_minor = refl; at_patch = refl; not_dev = refl })

tilde_terms_admits_example :
    (ts : List Term) × (tilde_terms (codes "1.2.3") ≡ ok ts)
    × ((and_satisfies ts one_nine ≡ true) ↔ TildeAdmits true 1 2 3 1 9 0)
unfolding parse_version count_byte
tilde_terms_admits_example =
    tilde_terms_admits (codes "1.2.3") one_two_three one_nine 1 2 3 1 9 0 refl (omega arith)
      (omega arith) (record { at_major = refl; at_minor = refl; at_patch = refl; no_branch = refl })
      (record { at_major = refl; at_minor = refl; at_patch = refl; not_dev = refl })

wildcard_terms_admits_example :
    (ts : List Term) × (wildcard_terms (codes "1.2.*") ≡ ok ts)
    × ((and_satisfies ts one_two_three ≡ true) ↔ WildcardAdmits (1 ∷ 2 ∷ []) 1 2 3)
unfolding before_wild split atois
wildcard_terms_admits_example =
    wildcard_terms_admits (codes "1.2.*") (codes "1" ∷ codes "2" ∷ []) (1 ∷ 2 ∷ []) one_two_three 1
      2 3 refl refl (omega arith, (omega arith, tt))
      (record {
        at_major = refl;
        at_minor = refl;
        at_patch = refl;
        is_stable = refl;
        no_pre = refl;
      })

hyphen_range_terms_admits_example :
    (ts : List Term) × (hyphen_range_terms (codes "1.2.3") (codes "2.1") ≡ ok ts)
    × ((and_satisfies ts one_nine ≡ true)
        ↔ ((satisfies_term (term op_ge one_two_three) one_nine ≡ true) × UpTo (2 ∷ 1 ∷ []) 1 9 0))
unfolding parse_version split atois trim_prefix
hyphen_range_terms_admits_example =
    hyphen_range_terms_admits (codes "1.2.3") (codes "2.1") one_two_three one_nine (2 ∷ 1 ∷ []) 1 9
      0 refl (omega arith) refl (omega arith, (omega arith, tt))
      (record {
        at_major = refl;
        at_minor = refl;
        at_patch = refl;
        is_stable = refl;
        no_pre = refl;
      })

parse-or_example :
    (satisfies (parse (codes "1.0.0||2.0.0")).0 one_nine ≡ (
      satisfies (parse (codes "1.0.0")).0 one_nine || satisfies (parse (codes "2.0.0")).0 one_nine))
    × ((parse (codes "1.0.0||2.0.0")).1 ≡ (parse (codes "2.0.0")).1)
unfolding parse after_prefix parse_groups groups parse_and_clause fields normalize_group
    glue_operator_spaces replace_byte strip_inline_alias and_terms parse_term eq is_wildcard_term
    parse_operator single_op
parse-or_example = parse-or (codes "1.0.0") (codes "2.0.0") one_nine refl refl refl refl
