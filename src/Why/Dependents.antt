-- ===== src/Why/Dependents.antt =====
-- internal/cli/why.go: all that requires a package, as a list and as a tree.
pub mod Listed
pub mod Closure
pub mod Keys
pub mod Ends
use gomposer.Prelude.{
  ℕ, zero, suc, ◌+◌, Bool, true, false, not, ◌||◌, ◌&&◌, Option, none, some, List, [], ◌∷◌, ◌++◌,
  if◌then◌else◌, map, length,
}
use gomposer.Prelude.Bytes.{Bytes, codes}
use gomposer.Strings.{is_empty}
use gomposer.Table.{Table, get}
use gomposer.Why.{Node, Edge, Graph, edges_to, is_named, node_or}
use gomposer.Why.Load.{sort_why_edges}

-- The variables of recursiveWhy.
pub record Walk : Type 0 where
  pub queue : List Bytes
  pub seen_targets : List Bytes
  pub seen_edges : List Bytes
  pub out : List Edge

unfoldable pub edge_key : Edge → Bytes
edge_key e = e.name ++ (0 ∷ e.target ++ (0 ∷ e.requirement))

unfoldable pub note_edge : Edge → Walk → Walk
unfolding is_named edge_key
note_edge e w =
    if is_named (edge_key e) w.seen_edges
    then w
    else record w { seen_edges = edge_key e ∷ w.seen_edges; out = w.out ++ e ∷ [] }

unfoldable pub note_name : Edge → Walk → Walk
unfolding is_named
note_name e w =
    if is_named e.name w.seen_targets
    then w
    else record w { seen_targets = e.name ∷ w.seen_targets; queue = w.queue ++ e.name ∷ [] }

unfoldable pub note_edges : List Edge → Walk → Walk
unfolding note_edge note_name
note_edges [] w = w
note_edges (e ∷ es) w = note_edges es (note_name e (note_edge e w))

-- The loop until the queue is empty, on fuel.
unfoldable pub walk_loop : Table (List Edge) → ℕ → Walk → Option Walk
unfolding note_edges edges_to
walk_loop reverse zero w = none
walk_loop reverse (suc fuel) w = elim w.queue [
  | [] ↦ some w
  | current ∷ queue ↦
      walk_loop reverse fuel (note_edges (edges_to reverse current) (record w { queue = queue }))
]

abbrev pub walk_start : Bytes → Walk
walk_start target = record {
  queue = target ∷ [];
  seen_targets = target ∷ [];
  seen_edges = [];
  out = [];
}

unfoldable pub all_edges : Table (List Edge) → List Edge
all_edges [] = []
all_edges ((target, es) ∷ m) = es ++ all_edges m

unfoldable pub sorted_out : Option Walk → Option (List Edge)
unfolding sort_why_edges
sorted_out none = none
sorted_out (some w) = some (sort_why_edges w.out)

-- recursiveWhy
unfoldable pub recursive_why : Bytes → Graph → Option (List Edge)
unfolding walk_loop all_edges sorted_out
recursive_why target g =
    sorted_out (walk_loop g.reverse (suc (suc (length (all_edges g.reverse)))) (walk_start target))
