-- ===== src/Why/Restrict.antt =====
-- internal/cli/why.go, restrictWhyGraph: the part of the graph that a workspace reaches.
pub mod Reach
pub mod Kept
use gomposer.Prelude.{
  ℕ, zero, suc, Bool, true, false, not, ◌||◌, ◌&&◌, Option, none, some, List, [], ◌∷◌, ◌++◌,
  if◌then◌else◌, length,
}
use gomposer.Prelude.Bytes.{Bytes, codes}
use gomposer.Table.{Table, get, put}
use gomposer.Why.{Node, Edge, Graph, is_named}

-- restrictWhyGraph: one pass over the edges; `reached` and then whether a name came to it.
unfoldable pub reach_edge : Bytes → Edge → List Bytes × Bool → List Bytes × Bool
unfolding is_named
reach_edge target e (reached, changed) =
    if is_named e.name reached && not (is_named target reached)
    then (target ∷ reached, true)
    else (reached, changed)

unfoldable pub reach_target : List Edge → Bytes → List Bytes × Bool → List Bytes × Bool
unfolding reach_edge
reach_target [] target r = r
reach_target (e ∷ es) target r = reach_target es target (reach_edge target e r)

unfoldable pub reach_pass : Table (List Edge) → List Bytes × Bool → List Bytes × Bool
unfolding reach_target
reach_pass [] r = r
reach_pass ((target, es) ∷ m) r = reach_pass m (reach_target es target r)

-- The loop until nothing changes, on fuel.
unfoldable pub reach_loop : Table (List Edge) → ℕ → List Bytes → Option (List Bytes)
unfolding reach_pass
reach_loop reverse zero reached = none
reach_loop reverse (suc fuel) reached =
    let (next, changed) = reach_pass reverse (reached, false) in
    let rest = reach_loop reverse fuel next in if changed then rest else some next

unfoldable pub reached_edges : List Bytes → List Edge → List Edge
unfolding is_named
reached_edges reached [] = []
reached_edges reached (e ∷ es) =
    let rest = reached_edges reached es in if is_named e.name reached then e ∷ rest else rest

abbrev pub keep_target : Bytes → List Edge → Table (List Edge) → Table (List Edge)
keep_target target [] rest = rest
keep_target target (e ∷ es) rest = (target, e ∷ es) ∷ rest

unfoldable pub restrict_reverse : List Bytes → Table (List Edge) → Table (List Edge)
unfolding reached_edges
restrict_reverse reached [] = []
restrict_reverse reached ((target, es) ∷ m) =
    keep_target target (reached_edges reached es) (restrict_reverse reached m)

unfoldable pub restrict_nodes : List Bytes → Table Node → Table Node
unfolding is_named
restrict_nodes reached [] = []
restrict_nodes reached ((name, n) ∷ m) =
    let rest = restrict_nodes reached m in if is_named name reached then (name, n) ∷ rest else rest

unfoldable pub restrict_to : Graph → List Bytes → Graph
unfolding restrict_nodes restrict_reverse
restrict_to g reached = record {
  nodes = restrict_nodes reached g.nodes;
  reverse = restrict_reverse reached g.reverse;
}

unfoldable pub restrict_or_none : Graph → Option (List Bytes) → Option Graph
unfolding restrict_to
restrict_or_none g none = none
restrict_or_none g (some reached) = some (restrict_to g reached)

unfoldable pub restrict_why_graph : Graph → Bytes → Option Graph
unfolding reach_loop restrict_or_none
restrict_why_graph g root =
    restrict_or_none g (reach_loop g.reverse (suc (length g.reverse)) (root ∷ []))
