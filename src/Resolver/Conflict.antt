-- ===== src/Resolver/Conflict.antt =====
-- internal/resolver/conflict.go: conflict resolution.
use gomposer.Prelude.{
  ℕ, zero, suc, ◌-◌, Bool, true, false, ◌&&◌, Option, none, some, List, [], ◌∷◌, ◌++◌,
  if◌then◌else◌, any,
}
use gomposer.Prelude.Bytes.{Bytes}
use gomposer.Strings.{eq}
use gomposer.Resolver.Term.{Term, term_satisfies, same_sign, same_text}
use gomposer.Resolver.Incompatibility.{
  Incompatibility, incompatibility, conflict, terms, is_failure,
}
use gomposer.Resolver.Solution.{Assignment, decision, derivation, PartialSolution}

-- The body of the loop of assignmentSatisfiesAnyTerm.
abbrev pub assignment_satisfies : Assignment → Term → Bool
assignment_satisfies (decision p v n) t = eq t.pkg p && term_satisfies t v
assignment_satisfies (derivation d ic n) t = eq t.pkg d.pkg

unfoldable pub assignment_satisfies_any_term : Assignment → List Term → Bool
assignment_satisfies_any_term a ts = any (assignment_satisfies a) ts

-- The most recent assignment that satisfies a term: the walk is backwards.
unfoldable pub last_satisfier : List Assignment → List Term → Option Assignment
last_satisfier [] ts = none
last_satisfier (a ∷ xs) ts = elim (last_satisfier xs ts) [
  | some b ↦ some b
  | none ↦ if assignment_satisfies_any_term a ts then some a else none
]

abbrev pub same_term : Term → Term → Bool
same_term t u = eq t.pkg u.pkg && same_sign t.positive u.positive && same_text t u

unfoldable pub append_dedup : List Term → Term → List Term
append_dedup ts t = if any (λ u. same_term u t) ts then ts else ts ++ t ∷ []

-- One loop of resolveIncompatibilities: the terms about other packages, appended.
unfoldable pub merge_others : Bytes → List Term → List Term → List Term
merge_others pkg merged [] = merged
merge_others pkg merged (t ∷ ts) =
    merge_others pkg (if eq t.pkg pkg then merged else append_dedup merged t) ts

unfoldable pub resolve_incompatibilities :
    Incompatibility → Incompatibility → Term → Incompatibility
unfolding merge_others append_dedup
resolve_incompatibilities current cause a =
    incompatibility (merge_others a.pkg (merge_others a.pkg [] (terms current)) (terms cause))
      (conflict current cause)

-- conflictResolution: the incompatibility to add, and the level to go back to. `none` belongs to
-- the model: the fuel ran out.
unfoldable pub conflict_resolution :
    ℕ → PartialSolution → Incompatibility → Option (Incompatibility × ℕ)
conflict_resolution zero ps current = none
conflict_resolution (suc f) ps current =
    let found = last_satisfier ps.assignments (terms current) in
    elim (is_failure current) [
      | true ↦ some (current, 0)
      | false ↦ elim found [
        | none ↦ some (current, 0)
        | some (decision p v n) ↦ some (current, n - 1)
        | some (derivation t cause n) ↦
            conflict_resolution f ps (resolve_incompatibilities current cause t)
      ]
    ]
