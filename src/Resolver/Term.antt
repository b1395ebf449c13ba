-- ===== src/Resolver/Term.antt =====
-- internal/resolver/term.go: a constraint on one package, with a sign.
use gomposer.Prelude.{Bool, true, false, not, ◌&&◌, Option, none, some, [], ◌++◌, if◌then◌else◌}
use gomposer.Prelude.Bytes.{Bytes, codes}
use gomposer.Strings.{eq, is_empty}
use gomposer.Constraint.Version.{Version}
use gomposer.Constraint.Term.{Constraint, satisfies}

pub record Term : Type 0 where
  pub pkg : Bytes
  pub constraint : Constraint
  pub positive : Bool

-- Term.Satisfies
unfoldable pub term_satisfies : Term → Version → Bool
term_satisfies t v = if t.positive then satisfies t.constraint v else not (satisfies t.constraint v)

unfoldable pub inverse : Term → Term
inverse t = record t { positive = not t.positive }

pub data Relation : Type 0 where
  disjoint subset overlapping : Relation

-- `a == b` on Bool
abbrev pub same_sign : Bool → Bool → Bool
same_sign true b = b
same_sign false b = not b

unfoldable pub same_text : Term → Term → Bool
same_text t u = eq t.constraint.original u.constraint.original

-- Term.Relation; `none` is the panic on terms over two packages.
unfoldable pub relation : Term → Term → Option Relation
unfolding eq same_text
relation t u =
    if not (eq t.pkg u.pkg)
    then none
    else if same_sign t.positive u.positive && same_text t u
    then some subset
    else some overlapping

-- Term.Empty
unfoldable pub is_contradiction : Term → Bool
unfolding eq
is_contradiction t = t.positive && eq t.constraint.original (codes "<empty>")

-- Term.String
unfoldable pub show_term : Term → Bytes
unfolding is_empty
show_term t =
    (if t.positive then [] else codes "not ")
    ++ (t.pkg
        ++ (codes " "
            ++ (if is_empty t.constraint.original then codes "*" else t.constraint.original)))
