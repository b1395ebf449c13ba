-- ===== src/Constraint/Term.antt =====
-- The terms of a constraint and what satisfies them: internal/constraint/constraint.go.
use gomposer.Prelude.{Ordering, Bool, true, false, not, ◌&&◌, List, all, any, if◌then◌else◌}
use gomposer.Prelude.Bytes.{Bytes}
use gomposer.Prelude.Int.{ℤ, pos, compare_int}
use gomposer.Constraint.Version.{Version, is_dev}
use gomposer.Constraint.Compare.{compare_versions, compare_numeric}

pub data Op : Type 0 where
  op_eq op_ne op_lt op_le op_gt op_ge : Op

pub record Term : Type 0 where
  pub op : Op
  pub v : Version

-- The `switch` of satisfies on the sign of a comparison.
abbrev pub holds : Op → Ordering → Bool
holds op_eq Ordering.eq = true
holds op_eq _ = false
holds op_ne Ordering.eq = false
holds op_ne _ = true
holds op_lt Ordering.lt = true
holds op_lt _ = false
holds op_le Ordering.gt = false
holds op_le _ = true
holds op_gt Ordering.gt = true
holds op_gt _ = false
holds op_ge Ordering.lt = false
holds op_ge _ = true

abbrev pub is_zero : ℤ → Bool
is_zero a = elim (compare_int a (pos 0)) [ Ordering.eq ↦ true | _ ↦ false ]

-- `v.Stability == Dev && v.Major != 0`: the versions that are matched by their numbers alone.
unfoldable pub by_numbers : Version → Bool
by_numbers v = is_dev v.stability && not (is_zero v.major)

unfoldable pub satisfies_term : Term → Version → Bool
unfolding by_numbers compare_versions compare_numeric
satisfies_term t v =
    holds t.op (if by_numbers v then compare_numeric v t.v else compare_versions v t.v)

-- andSatisfies
unfoldable pub and_satisfies : List Term → Version → Bool
and_satisfies clause v = all (λ t. satisfies_term t v) clause

pub record Constraint : Type 0 where
  pub clauses : List (List Term)
  pub original : Bytes
  pub is_workspace : Bool

-- Satisfies: one alternative holds.
unfoldable pub satisfies : Constraint → Version → Bool
unfolding and_satisfies
satisfies c v = any (λ clause. and_satisfies clause v) c.clauses
