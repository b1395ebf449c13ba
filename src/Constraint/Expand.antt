-- ===== src/Constraint/Expand.antt =====
-- The shorthands of a constraint, each expanded to terms: internal/constraint/constraint.go.
use gomposer.Prelude.{
  Bool, not, ◌&&◌, ◌||◌, Option, none, some, List, [], ◌∷◌, leb, if◌then◌else◌, any, length, get_or,
}
use gomposer.Prelude.Bytes.{Bytes, codes}
use gomposer.Prelude.Int.{ℤ, pos, int_inc, int_ltb}
use gomposer.Strings.{eq, has_byte, after_prefix, trim_prefix, count_byte}
use gomposer.Strings.Split.{split}
use gomposer.Constraint.Version.{
  Version, Result, ok, err, ◌>>=◌, invalid_hyphen_lower, invalid_hyphen_upper, no_wildcard,
  invalid_wildcard, empty_term, dev, stable, numeric, atois, dot, split_pre, parse_version,
}
use gomposer.Constraint.Term.{Op, op_eq, op_ne, op_lt, op_le, op_gt, op_ge, Term}

abbrev pub term : Op → Version → Term
term op v = record { op = op; v = v }

-- From `lo`, and below `hi`.
abbrev pub half_open : Version → Version → List Term
half_open lo hi = term op_ge lo ∷ term op_lt hi ∷ []

abbrev pub at_dev : Version → Version
at_dev v = record v { stability = dev }

unfoldable pub version_from_ints : List ℤ → Version
version_from_ints ns =
    numeric (get_or ns 0 (pos 0)) (get_or ns 1 (pos 0)) (get_or ns 2 (pos 0)) stable

-- `nums[len(nums)-1]++`
unfoldable pub bump_last : List ℤ → List ℤ
bump_last [] = []
bump_last (n ∷ []) = int_inc n ∷ []
bump_last (n ∷ m ∷ ns) = n ∷ bump_last (m ∷ ns)

unfoldable pub single_op : Op → Bytes → Result (List Term)
unfolding parse_version
single_op op s = do v ← parse_version s; ok (term op v ∷ [])

unfoldable pub next_caret_upper : Version → Version
next_caret_upper v =
    if int_ltb (pos 0) v.major
    then numeric (int_inc v.major) (pos 0) (pos 0) dev
    else numeric (pos 0) (int_inc v.minor) (pos 0) dev

unfoldable pub caret_terms : Bytes → Result (List Term)
unfolding parse_version next_caret_upper
caret_terms s = do v ← parse_version s; ok (half_open (at_dev v) (next_caret_upper v))

unfoldable pub next_tilde_upper : Bytes → Version → Version
unfolding split_pre count_byte
next_tilde_upper s v =
    if leb 2 (count_byte b'.' (split_pre s).0)
    then numeric v.major (int_inc v.minor) (pos 0) dev
    else numeric (int_inc v.major) (pos 0) (pos 0) dev

unfoldable pub tilde_terms : Bytes → Result (List Term)
unfolding parse_version next_tilde_upper
tilde_terms s = do v ← parse_version s; ok (half_open (at_dev v) (next_tilde_upper s v))

unfoldable pub is_wild : Bytes → Bool
unfolding eq
is_wild p = eq p (codes "*") || eq p (codes "x") || eq p (codes "X")

unfoldable pub is_wildcard_term : Bytes → Bool
unfolding has_byte split is_wild
is_wildcard_term f = not (has_byte f b'-') && any is_wild (split dot f)

-- The parts before the first wildcard, if there is one.
unfoldable pub before_wild : List Bytes → Option (List Bytes)
unfolding is_wild
before_wild [] = none
before_wild (p ∷ ps) =
    let rest = before_wild ps in
    if is_wild p then some [] else elim rest [ none ↦ none | some qs ↦ some (p ∷ qs) ]

abbrev pub wildcard_range : Bytes → List Bytes → Result (List Term)
wildcard_range f [] = ok []
wildcard_range f (p ∷ ps) = elim (atois (p ∷ ps)) [
  | none ↦ err (invalid_wildcard f)
  | some prefix ↦ ok (half_open (version_from_ints prefix) (version_from_ints (bump_last prefix)))
]

abbrev pub wildcard_of : Bytes → Option (List Bytes) → Result (List Term)
wildcard_of f none = err (no_wildcard f)
wildcard_of f (some parts) = wildcard_range f parts

unfoldable pub wildcard_terms : Bytes → Result (List Term)
unfolding split before_wild atois version_from_ints bump_last
wildcard_terms f = wildcard_of f (before_wild (split dot f))

abbrev upper_inclusive : Version → Bytes → Result (List Term)
upper_inclusive lo rhs = elim (parse_version rhs) [
  | err e ↦ err (invalid_hyphen_upper rhs)
  | ok hi ↦ ok (term op_ge lo ∷ term op_le hi ∷ [])
]

abbrev upper_bumped : Version → Bytes → List Bytes → Result (List Term)
upper_bumped lo rhs parts = elim (atois parts) [
  | none ↦ err (invalid_hyphen_upper rhs)
  | some nums ↦ ok (half_open lo (version_from_ints (bump_last nums)))
]

unfoldable pub hyphen_range_terms : Bytes → Bytes → Result (List Term)
unfolding parse_version split trim_prefix atois bump_last version_from_ints
hyphen_range_terms lhs rhs = elim (parse_version lhs) [
  | err e ↦ err (invalid_hyphen_lower lhs)
  | ok lo ↦
      let parts = split dot (trim_prefix (codes "v") rhs) in
      if leb 3 (length parts) then upper_inclusive lo rhs else upper_bumped lo rhs parts
]

-- The operators in the order of the `switch`, each with what it makes of the text behind it.
unfoldable pub parse_operator : Bytes → Result (List Term)
parse_operator f = elim (after_prefix (codes "^") f) [
  | some r ↦ caret_terms r
  | none ↦ elim (after_prefix (codes "~") f) [
    | some r ↦ tilde_terms r
    | none ↦ elim (after_prefix (codes ">=") f) [
      | some r ↦ single_op op_ge r
      | none ↦ elim (after_prefix (codes "<=") f) [
        | some r ↦ single_op op_le r
        | none ↦ elim (after_prefix (codes "!=") f) [
          | some r ↦ single_op op_ne r
          | none ↦ elim (after_prefix (codes ">") f) [
            | some r ↦ single_op op_gt r
            | none ↦ elim (after_prefix (codes "<") f) [
              | some r ↦ single_op op_lt r
              | none ↦ elim (after_prefix (codes "=") f) [
                | some r ↦ single_op op_eq r
                | none ↦ single_op op_eq f
              ]
            ]
          ]
        ]
      ]
    ]
  ]
]

unfoldable pub parse_term : Bytes → Result (List Term)
parse_term [] = err empty_term
parse_term (c ∷ s) =
    if eq (c ∷ s) (codes "*")
    then ok []
    else if is_wildcard_term (c ∷ s)
    then wildcard_terms (c ∷ s)
    else parse_operator (c ∷ s)
