-- ===== src/Resolver/Solution.antt =====
-- internal/resolver/assignment.go: the partial solution.
use gomposer.Prelude.{
  ℕ, ◌+◌, Bool, true, false, ◌&&◌, Option, none, some, List, [], ◌∷◌, ◌++◌, leb, if◌then◌else◌,
}
use gomposer.Prelude.Bytes.{Bytes, codes}
use gomposer.Strings.{eq}
use gomposer.Constraint.Version.{Version}
use gomposer.Constraint.Parse.{parse}
use gomposer.Resolver.Term.{
  Term, term_satisfies, Relation, disjoint, subset, overlapping, same_sign, same_text,
}
use gomposer.Resolver.Incompatibility.{Incompatibility}

-- The struct `Assignment`, split by `IsDecision`; a derivation's package is its term's.
pub data Assignment : Type 0 where
  decision : Bytes → Version → ℕ → Assignment
  derivation : Term → Incompatibility → ℕ → Assignment

abbrev pub package_of : Assignment → Bytes
package_of (decision p v n) = p
package_of (derivation t ic n) = t.pkg

abbrev pub level_of : Assignment → ℕ
level_of (decision p v n) = n
level_of (derivation t ic n) = n

-- The map `decisions` is a function from package names.
abbrev pub Decisions : Type 0
Decisions = Bytes → Option Version

abbrev pub no_decisions : Decisions
no_decisions p = none

abbrev pub set_decision : Bytes → Version → Decisions → Decisions
set_decision p v d q = if eq p q then some v else d q

pub record PartialSolution : Type 0 where
  pub assignments : List Assignment
  pub level : ℕ
  pub decisions : Decisions

abbrev pub new_partial_solution : PartialSolution
new_partial_solution = record { assignments = []; level = 0; decisions = no_decisions }

unfoldable pub decide_version : PartialSolution → Bytes → Version → PartialSolution
decide_version ps p v = record {
  assignments = ps.assignments ++ decision p v (ps.level + 1) ∷ [];
  level = ps.level + 1;
  decisions = set_decision p v ps.decisions;
}

unfoldable pub derive : PartialSolution → Term → Incompatibility → PartialSolution
derive ps t ic = record ps { assignments = ps.assignments ++ derivation t ic ps.level ∷ [] }

-- The longest prefix whose levels are at most the target.
unfoldable pub keep_levels : ℕ → List Assignment → List Assignment
keep_levels n [] = []
keep_levels n (a ∷ xs) = if leb (level_of a) n then a ∷ keep_levels n xs else []

abbrev pub note_decision : Decisions → Assignment → Decisions
note_decision d (decision p v n) = set_decision p v d
note_decision d (derivation t ic n) = d

-- The loop that rebuilds the map from the assignments.
unfoldable pub rebuild : Decisions → List Assignment → Decisions
rebuild d [] = d
rebuild d (a ∷ xs) = rebuild (note_decision d a) xs

unfoldable pub backtrack : PartialSolution → ℕ → PartialSolution
unfolding keep_levels rebuild
backtrack ps target = record {
  assignments = keep_levels target ps.assignments;
  level = target;
  decisions = rebuild no_decisions (keep_levels target ps.assignments);
}

-- The terms that one assignment adds to PositiveDerivations.
abbrev pub positive_of : Bytes → Assignment → List Term
positive_of pkg (decision p v n) =
    if eq p pkg
    then (record { pkg = pkg; constraint = (parse (codes "=" ++ v.original)).0; positive = true })
      ∷ []
    else []
positive_of pkg (derivation t ic n) = if eq t.pkg pkg && t.positive then t ∷ [] else []

unfoldable pub positive_derivations : List Assignment → Bytes → List Term
positive_derivations [] pkg = []
positive_derivations (a ∷ xs) pkg = positive_of pkg a ++ positive_derivations xs pkg

-- The loop of RelationOf over the derivations.
unfoldable pub relation_to_derivations : List Assignment → Term → Relation
relation_to_derivations [] t = overlapping
relation_to_derivations (decision p v n ∷ xs) t = relation_to_derivations xs t
relation_to_derivations (derivation d ic n ∷ xs) t =
    let later = relation_to_derivations xs t in
    if eq d.pkg t.pkg && same_text d t
    then (if same_sign d.positive t.positive then subset else disjoint)
    else later

abbrev pub relation_when : Option Version → List Assignment → Term → Relation
relation_when (some v) xs t = if term_satisfies t v then subset else disjoint
relation_when none xs t = relation_to_derivations xs t

unfoldable pub relation_of : PartialSolution → Term → Relation
relation_of ps t = relation_when (ps.decisions t.pkg) ps.assignments t

-- PartialSolution.Satisfies
unfoldable pub solution_satisfies : PartialSolution → Term → Bool
unfolding term_satisfies
solution_satisfies ps t = elim (ps.decisions t.pkg) [ some v ↦ term_satisfies t v | none ↦ false ]
