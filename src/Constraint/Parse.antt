-- ===== src/Constraint/Parse.antt =====
-- Parse and the questions asked of a parsed constraint: internal/constraint/constraint.go.
use gomposer.Prelude.{
  ℕ, zero, suc, length, Bool, true, false, not, ◌&&◌, ◌||◌, Option, none, some, List, [], ◌∷◌, ◌++◌,
  ◌==◌, if◌then◌else◌, any,
}
use gomposer.Prelude.Bytes.{Bytes, codes}
use gomposer.Strings.{
  eq, is_empty, is_digit, after_prefix, trim_prefix, cut_first, cut_text, trim_left, trim_space,
  unpair, replace_byte,
}
use gomposer.Strings.Split.{split, fields}
use gomposer.Constraint.Version.{Result, ok, err, ◌>>=◌, Error, empty_workspace, empty_clause}
use gomposer.Constraint.Term.{Term, Constraint}
use gomposer.Constraint.Expand.{hyphen_range_terms, parse_term}

-- stripInlineAlias: the text before " as ".
unfoldable pub strip_inline_alias : Bytes → Bytes
unfolding trim_space cut_text
strip_inline_alias s =
    let trimmed = trim_space s in
    elim (cut_text (codes " as ") trimmed) [ none ↦ trimmed | some (b, a) ↦ trim_space b ]

-- Some operator of the list that the text starts with, the first that fits, and what follows it.
unfoldable pub leading_op : List Bytes → Bytes → Option (Bytes × Bytes)
leading_op [] s = none
leading_op (op ∷ ops) s = elim (after_prefix op s) [
  | some r ↦ some (op, r)
  | none ↦ leading_op ops s
]

abbrev pub operators : List Bytes
operators =
    codes ">="
    ∷ codes "<="
    ∷ codes "!="
    ∷ codes ">"
    ∷ codes "<"
    ∷ codes "="
    ∷ codes "^"
    ∷ codes "~"
    ∷ []

unfoldable pub is_blank : ℕ → Bool
is_blank c = c == 32

-- A byte that a version may begin with.
unfoldable pub leads_version : Bytes → Bool
unfolding is_digit
leads_version [] = false
leads_version (c ∷ s) = is_digit c || c == b'v' || c == b'V'

-- What is read next behind an operator: the blanks are skipped before a version only.
unfoldable pub after_operator : Bytes → Bytes
unfolding trim_left leads_version is_blank
after_operator s = let t = trim_left is_blank s in if leads_version t then t else s

-- The loop of glueOperatorSpaces; each round reads a byte or an operator.
unfoldable pub glue_loop : ℕ → Bytes → Bytes
glue_loop f [] = []
glue_loop zero (c ∷ s) = []
glue_loop (suc f) (c ∷ s) = elim (leading_op operators (c ∷ s)) [
  | none ↦ c ∷ glue_loop f s
  | some (op, r) ↦ op ++ glue_loop f (after_operator r)
]

unfoldable pub glue_operator_spaces : Bytes → Bytes
unfolding glue_loop leading_op after_prefix after_operator
glue_operator_spaces s = glue_loop (length s) s

-- The loop of parseAndClause over the fields: a hyphen range takes three of them.
unfoldable pub and_terms : List Bytes → Result (List Term)
and_terms [] = ok []
and_terms (x ∷ d ∷ y ∷ rest) =
    let range = (do ts ← hyphen_range_terms x y; us ← and_terms rest; ok (ts ++ us)) in
    let single = (do ts ← parse_term x; us ← and_terms (d ∷ y ∷ rest); ok (ts ++ us)) in
    if eq d (codes "-") then range else single
and_terms (x ∷ rest) = do ts ← parse_term x; us ← and_terms rest; ok (ts ++ us)

abbrev clause_of : Bytes → List Bytes → Result (List Term)
clause_of s [] = err (empty_clause s)
clause_of s (x ∷ xs) = and_terms (x ∷ xs)

unfoldable pub parse_and_clause : Bytes → Result (List Term)
parse_and_clause s = clause_of s (fields s)

-- The rewriting of one alternative before it is taken apart.
unfoldable pub normalize_group : Bytes → Bytes
normalize_group g = glue_operator_spaces (replace_byte b',' 32 (strip_inline_alias g))

-- One round of the loop over the alternatives, in front of what the later ones give.
abbrev pub add_group :
    Result (List Term) → List (List Term) × Option Error → List (List Term) × Option Error
add_group (err e) later = ([], some e)
add_group (ok clause) (clauses, e) = (clause ∷ clauses, e)

-- The loop over the alternatives: the clauses before the first error, and that error.
unfoldable pub parse_groups : List Bytes → List (List Term) × Option Error
parse_groups [] = ([], none)
parse_groups (g ∷ gs) = add_group (parse_and_clause (normalize_group g)) (parse_groups gs)

-- The alternatives of a text, at "|" or "||".
unfoldable pub groups : Bytes → List Bytes
unfolding split unpair
groups s = split (λ c. c == b'|') (unpair b'|' s)

abbrev pub is_none {ℓ} : {A : Type ℓ} → Option A → Bool
is_none none = true
is_none (some a) = false

abbrev pub parse_tail : Bytes → Bool → Bytes → Constraint × Option Error
parse_tail text workspace s =
    let (clauses, e) = parse_groups (groups s) in
    (record { clauses = clauses; original = text; is_workspace = workspace && is_none e }, e)

-- `Constraint{}`
abbrev pub no_constraint : Constraint
no_constraint = record { clauses = []; original = []; is_workspace = false }

abbrev pub parse_workspace : Bytes → Bytes → Constraint × Option Error
parse_workspace text [] = (no_constraint, some empty_workspace)
parse_workspace text (c ∷ s) = parse_tail text true (c ∷ s)

-- Parse returns a constraint beside an error too: what was read before the error, which some
-- callers use.
unfoldable pub parse : Bytes → Constraint × Option Error
parse text = elim (after_prefix (codes "workspace:") text) [
  | some s ↦ parse_workspace text s
  | none ↦ parse_tail text false text
]

-- The text before a '#', or all of it.
unfoldable pub before_hash : Bytes → Bytes
unfolding cut_first
before_hash s = elim (cut_first (λ c. c == b'#') s) [ none ↦ s | some (b, a) ↦ b ]

abbrev combines : ℕ → Bool
combines c = c == b'|' || c == b',' || c == 32

unfoldable pub is_explicit_dev : Constraint → Bool
unfolding trim_space after_prefix before_hash is_empty
is_explicit_dev c =
    let s = trim_space c.original in
    elim (after_prefix (codes "dev-") s) [
      | none ↦ false
      | some body ↦ not (any combines s) && not (is_empty body) && not (is_empty (before_hash body))
    ]

unfoldable pub explicit_dev_branch : Constraint → Bytes
unfolding is_explicit_dev trim_prefix
explicit_dev_branch c =
    if is_explicit_dev c
    then before_hash (trim_prefix (codes "dev-") (trim_space c.original))
    else []

abbrev flag_of_clause : List Term → Bytes → Bytes
flag_of_clause [] later = later
flag_of_clause (t ∷ ts) later =
    let next = flag_of_clause ts later in
    if is_empty t.v.stability_flag then next else t.v.stability_flag

abbrev flag_of_clauses : List (List Term) → Bytes
flag_of_clauses [] = []
flag_of_clauses (cl ∷ cls) = flag_of_clause cl (flag_of_clauses cls)

-- StabilityFlag: the first flag that is not empty.
unfoldable pub stability_flag : Constraint → Bytes
unfolding is_empty
stability_flag c = flag_of_clauses c.clauses
