-- ===== src/Resolver/Meaning.antt =====
-- What the terms and incompatibilities of internal/resolver/term.go and incompatibility.go say of a choice of versions.
use gomposer.Prelude.{Bool, not, Option, none, some, ◌≡◌, arith, all, sym, ap, ◌∙◌}
pub use gomposer.Prelude.{All, All-append}
use gomposer.Prelude.Bytes.{Bytes}
use gomposer.Constraint.Version.{Version}
use gomposer.Constraint.Parse.{parse}
use gomposer.Resolver.Term.{Term, term_satisfies, inverse}
use gomposer.Resolver.Incompatibility.{Incompatibility, terms}

-- The version that is installed of each package, if it is installed.
abbrev pub Choice : Type 0
Choice = Bytes → Option Version

-- A positive term asks for an installed version that satisfies it, and a negative term denies that.
unfoldable pub holds : Choice → Term → Bool
unfolding term_satisfies
holds σ t = elim (σ t.pkg) [ some v ↦ term_satisfies t v | none ↦ not t.positive ]

pub holds-inverse : (σ : Choice) (t : Term) → holds σ (inverse t) ≡ not (holds σ t)
unfolding holds inverse
holds-inverse σ t = ground arith

-- All terms hold, which the incompatibility forbids.
unfoldable pub violates : Choice → Incompatibility → Bool
violates σ ic = all (holds σ) (terms ic)

-- The constraint is what Parse makes of its own text. The solver compares constraints by their
-- texts.
unfoldable pub FromText : Term → Type 0
FromText t = t.constraint ≡ (parse t.constraint.original).0

pub same_term_eq :
    (t u : Term)
    → FromText t
    → FromText u
    → t.pkg ≡ u.pkg
    → t.positive ≡ u.positive
    → t.constraint.original ≡ u.constraint.original
    → t ≡ u
unfolding FromText
same_term_eq t u ft fu p s o =
    let c : t.constraint ≡ u.constraint = ft ∙ ap (λ x. (parse x).0) o ∙ sym fu in
    λ i. record { pkg = p i; constraint = c i; positive = s i }

pub inverse-FromText : (t : Term) → FromText t → FromText (inverse t)
unfolding FromText inverse
inverse-FromText t h = h
