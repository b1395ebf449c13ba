-- ===== src/Why/Samples.antt =====
-- internal/cli/why.go on a graph with a cycle.
use mathlib.Core.List.{Memᴰ}
use gomposer.Prelude.{refl, false, some, List, [], ◌∷◌, ◌≡◌, ◌↔◌}
use gomposer.Prelude.Bytes.{Bytes, codes}
use gomposer.Why.{Node, Edge, Graph, make_edge, edges_to}
use gomposer.Why.Restrict.{restrict_why_graph}
use gomposer.Why.Restrict.Reach.{arrows, Reach}
use gomposer.Why.Restrict.Kept.{restrict_why_graph_keeps}
use gomposer.Why.Dependents.{all_edges, recursive_why}
use gomposer.Why.Dependents.Closure.{Dependent}
use gomposer.Why.Dependents.Keys.{AreAlike}
use gomposer.Why.Dependents.Ends.{recursive_why_lists}
use gomposer.Why.Tree.{Tree, build_why_tree}
use gomposer.Why.Tree.Ends.{InTree, build_why_tree_ends}

abbrev node : Bytes → Node
node name = record {
  name = name;
  version = codes "1.0.0";
  dev = false;
  root = false;
  workspace = false;
}

-- The application requires a/a, which requires b/b and is required by it.
abbrev sample : Graph
sample = record {
  nodes =
      (codes "a/a", node (codes "a/a"))
      ∷ (codes "b/b", node (codes "b/b"))
      ∷ (codes "app", node (codes "app"))
      ∷ [];
  reverse =
      (
        codes "a/a",
        make_edge (node (codes "app")) (codes "a/a") (codes "^1") false
            ∷ make_edge (node (codes "b/b")) (codes "a/a") (codes "*") false
            ∷ [],
      )
      ∷ (codes "b/b", make_edge (node (codes "a/a")) (codes "b/b") (codes "^2") false ∷ [])
      ∷ [];
}

recursive_why_lists_example :
    (out : List Edge) × (recursive_why (codes "b/b") sample ≡ some out)
    × ((e : Edge)
        → Memᴰ e out
        → (u : Bytes) × Dependent sample.reverse (codes "b/b") u
          × Memᴰ e (edges_to sample.reverse u))
    × ((u : Bytes) (e : Edge)
        → Dependent sample.reverse (codes "b/b") u
        → Memᴰ e (edges_to sample.reverse u)
        → (f : Edge) × Memᴰ f out × AreAlike f e)
unfolding all_edges
recursive_why_lists_example = recursive_why_lists sample (codes "b/b") refl

restrict_why_graph_keeps_example :
    (g' : Graph) × (restrict_why_graph sample (codes "b/b") ≡ some g')
    × ((t : Bytes) (e : Edge)
        → Memᴰ (t, e) (arrows g'.reverse)
          ↔ (Memᴰ (t, e) (arrows sample.reverse) × Reach sample.reverse (codes "b/b") e.name))
    × ((t : Bytes) (n : Node)
        → Memᴰ (t, n) g'.nodes ↔ (Memᴰ (t, n) sample.nodes × Reach sample.reverse (codes "b/b") t))
restrict_why_graph_keeps_example = restrict_why_graph_keeps sample (codes "b/b")

build_why_tree_ends_example :
    (t : Tree) × (build_why_tree (codes "b/b") sample ≡ some t)
    × ((u : Bytes) → InTree u t → Dependent sample.reverse (codes "b/b") u)
build_why_tree_ends_example = build_why_tree_ends sample (codes "b/b")
