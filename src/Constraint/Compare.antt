-- ===== src/Constraint/Compare.antt =====
-- The order on versions: Compare and Equal of internal/constraint/version.go.
use gomposer.Prelude.{Ordering, compare, Bool, true, false, not, ◌&&◌, [], ◌∷◌}
use gomposer.Prelude.Bytes.{Bytes}
use gomposer.Prelude.Int.{compare_int}
use gomposer.Prelude.Order.{◌then_by◌}
use gomposer.Strings.{is_empty}
use gomposer.Constraint.Version.{Version, rank, is_dev}

-- strings.Compare: byte by byte, a prefix first.
unfoldable pub compare_bytes : Bytes → Bytes → Ordering
compare_bytes [] [] = Ordering.eq
compare_bytes [] (b ∷ t) = Ordering.lt
compare_bytes (a ∷ s) [] = Ordering.gt
compare_bytes (a ∷ s) (b ∷ t) = compare a b then_by compare_bytes s t

-- `v.Stability == Dev && v.Branch != ""`
unfoldable pub is_pure_dev : Version → Bool
unfolding is_empty
is_pure_dev v = is_dev v.stability && not (is_empty v.branch)

unfoldable pub compare_numbers : Version → Version → Ordering
compare_numbers v w =
    compare_int v.major w.major
    then_by (compare_int v.minor w.minor
        then_by (compare_int v.patch w.patch
            then_by (compare (rank v.stability) (rank w.stability)
                then_by compare_int v.pre_num w.pre_num)))

abbrev compare_by_branch : Bool → Bool → Version → Version → Ordering
compare_by_branch true true v w = compare_bytes v.branch w.branch
compare_by_branch true false v w = Ordering.lt
compare_by_branch false true v w = Ordering.gt
compare_by_branch false false v w = compare_numbers v w

-- -1, 0 and 1 are `lt`, `eq` and `gt`.
unfoldable pub compare_versions : Version → Version → Ordering
unfolding is_pure_dev compare_bytes compare_numbers
compare_versions v w = compare_by_branch (is_pure_dev v) (is_pure_dev w) v w

unfoldable pub equal : Version → Version → Bool
unfolding compare_versions
equal v w = elim (compare_versions v w) [ Ordering.eq ↦ true | _ ↦ false ]

-- compareNumeric of constraint.go: the numbers alone.
unfoldable pub compare_numeric : Version → Version → Ordering
compare_numeric v w =
    compare_int v.major w.major
    then_by (compare_int v.minor w.minor then_by compare_int v.patch w.patch)
