-- ===== src/Resolver/Exactness.antt =====
-- internal/resolver/decide.go: the constraint of exactConstraint.
use gomposer.Prelude.{
  Ordering, Bool, true, false, [], ◌∷◌, ◌≡◌, refl, ap, arith, any, if◌then◌else◌, ◌∙◌,
}
use gomposer.Constraint.Version.{Version, ok, parse_version}
use gomposer.Constraint.Compare.{compare_versions, compare_numeric}
use gomposer.Constraint.Term.{
  Term, Constraint, op_eq, by_numbers, satisfies_term, and_satisfies, satisfies,
}
use gomposer.Constraint.Expand.{term, is_wildcard_term}
use gomposer.Constraint.Verbatim.{is_special}
use gomposer.Constraint.Exact.{parse_exact, parse_exact_wild}
use gomposer.Resolver.Decide.{exact_constraint}
use gomposer.Constraint.Parse.{parse}

abbrev pub is_eq : Ordering → Bool
is_eq Ordering.eq = true
is_eq _ = false

by_op :
    (w v : Version)
    → satisfies_term (term op_eq v) w
      ≡ (if by_numbers w then is_eq (compare_numeric w v) else is_eq (compare_versions w v))
unfolding satisfies_term
by_op w v = ground arith

exact_by_parse : (v : Version) → exact_constraint v ≡ (parse (b'=' ∷ v.original)).0
exact_by_parse v = unfold exact_constraint in refl

satisfies_one :
    (c : Constraint) (t : Term) (w : Version)
    → c.clauses ≡ (t ∷ []) ∷ []
    → satisfies c w ≡ satisfies_term t w
unfolding satisfies and_satisfies
satisfies_one c t w h = rw h (ground arith)

-- Where the text of a version has no byte with a meaning in a constraint and no wildcard, and parses to the version, its
-- constraint is satisfied by exactly these: a dev version with a major number other than 0, if its three numbers are those of
-- the version, whatever the stability of this, and another version, if it compares as 0 with it.
pub exact_constraint-satisfies :
    (v w : Version)
    → any is_special v.original ≡ false
    → is_wildcard_term (b'=' ∷ v.original) ≡ false
    → parse_version v.original ≡ ok v
    → satisfies (exact_constraint v) w
      ≡ (if by_numbers w then is_eq (compare_numeric w v) else is_eq (compare_versions w v))
exact_constraint-satisfies v w clean h k = rw (exact_by_parse v) (
    satisfies_one _ (term op_eq v) w (ap (λ c. c.0.clauses) (parse_exact v.original clean v h k))
    ∙ by_op w v)

satisfies_nothing : (c : Constraint) (w : Version) → c.clauses ≡ [] → satisfies c w ≡ false
unfolding satisfies
satisfies_nothing c w h = rw h

-- Where the version's text has a wildcard part, as "2.x" has, and no byte with a meaning in a constraint, no version
-- satisfies its constraint, also the version itself does not.
exact_constraint_wildcard :
    (v w : Version)
    → any is_special v.original ≡ false
    → is_wildcard_term (b'=' ∷ v.original) ≡ true
    → satisfies (exact_constraint v) w ≡ false
exact_constraint_wildcard v w clean h =
    rw (exact_by_parse v) (satisfies_nothing _ w (parse_exact_wild v.original clean h))
