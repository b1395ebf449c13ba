-- ===== src/Resolver/Incompatibility.antt =====
-- internal/resolver/incompatibility.go: terms that may not all hold, and why.
use gomposer.Prelude.{Bool, true, false, List, [], ◌∷◌, ◌++◌, map}
use gomposer.Prelude.Bytes.{Bytes, codes}
use gomposer.Resolver.Term.{Term, show_term}

mutual
  pub data Incompatibility : Type 0 where
    incompatibility : List Term → Cause → Incompatibility

  pub data Cause : Type 0 where
    root : Cause
    dependency : Bytes → Bytes → Cause
    no_versions : Bytes → Cause
    unknown_package : Bytes → Cause
    conflict : Incompatibility → Incompatibility → Cause

abbrev pub terms : Incompatibility → List Term
terms (incompatibility ts c) = ts

abbrev pub cause : Incompatibility → Cause
cause (incompatibility ts c) = c

unfoldable pub is_failure : Incompatibility → Bool
is_failure (incompatibility [] c) = true
is_failure (incompatibility (t ∷ ts) c) = false

-- strings.Join(parts, ", ")
unfoldable pub join_comma : List Bytes → Bytes
join_comma [] = []
join_comma (p ∷ []) = p
join_comma (p ∷ q ∷ ps) = p ++ (codes ", " ++ join_comma (q ∷ ps))

-- Incompatibility.String
unfoldable pub show_incompatibility : Incompatibility → Bytes
unfolding join_comma show_term
show_incompatibility ic = codes "{" ++ (join_comma (map show_term (terms ic)) ++ codes "}")
