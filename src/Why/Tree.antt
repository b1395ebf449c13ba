-- ===== src/Why/Tree.antt =====
-- internal/cli/why.go: the tree of all chains of requirements, and its lines.
pub mod Ends
use gomposer.Prelude.{
  ℕ, zero, suc, Bool, true, false, not, ◌||◌, Option, none, some, List, [], ◌∷◌, ◌++◌,
  if◌then◌else◌, map, length,
}
use gomposer.Prelude.Bytes.{Bytes, codes}
use gomposer.Strings.{is_empty}
use gomposer.Table.{Table, get}
use gomposer.Why.{Node, Edge, Graph, edges_to, is_named, node_or}
use gomposer.Why.Dependents.{all_edges}

-- What whyTreeNode shows, less its children.
pub record Shown : Type 0 where
  pub name : Bytes
  pub version : Bytes
  pub requirement : Bytes
  pub dev : Bool
  pub root : Bool
  pub workspace : Bool
  pub cycle : Bool

-- whyTreeNode
mutual
  pub data Tree : Type 0 where
    tree : Shown → Trees → Tree

  pub data Trees : Type 0 where
    no_trees : Trees
    grown : Tree → Trees → Trees

abbrev pub show_node : Bytes → Option Node → Bool → Shown
show_node target n cycle = record {
  name = target;
  version = (node_or n).version;
  requirement = [];
  dev = (node_or n).dev;
  root = (node_or n).root;
  workspace = (node_or n).workspace;
  cycle = cycle;
}

-- The fields of a child that come from its edge.
abbrev pub under_edge : Edge → Tree → Tree
under_edge e (tree s ts) =
    tree
      (record s {
        requirement = e.requirement;
        dev = e.dev || s.dev;
        root = e.root || s.root;
        workspace = e.workspace || s.workspace;
      })
      ts

abbrev pub grow : Edge → Option Tree → Option Trees → Option Trees
grow e none rest = none
grow e (some t) none = none
grow e (some t) (some ts) = some (grown (under_edge e t) ts)

-- The children, where `build` builds the tree of a name.
unfoldable pub build_children : (Bytes → Option Tree) → List Edge → Option Trees
build_children build [] = some no_trees
build_children build (e ∷ es) = grow e (build e.name) (build_children build es)

abbrev pub over : Shown → Option Trees → Option Tree
over s none = none
over s (some ts) = some (tree s ts)

-- buildWhyTree, on fuel.
unfoldable pub build_tree : Graph → ℕ → Bytes → List Bytes → Option Tree
unfolding is_named edges_to build_children get
build_tree g zero target ancestors = none
build_tree g (suc fuel) target ancestors =
    if is_named target ancestors
    then some (tree (show_node target (get target g.nodes) true) no_trees)
    else over (show_node target (get target g.nodes) false) (
        build_children (λ name. build_tree g fuel name (target ∷ ancestors))
          (edges_to g.reverse target))

unfoldable pub build_why_tree : Bytes → Graph → Option Tree
unfolding build_tree all_edges
build_why_tree target g = build_tree g (suc (suc (length (all_edges g.reverse)))) target []

-- formatWhyTreeNode
unfoldable pub format_why_tree_node : Shown → Bool → Bytes
unfolding is_empty
format_why_tree_node s dependent =
    s.name
    ++ ((if is_empty s.version then [] else 32 ∷ s.version)
        ++ ((if dependent then codes " requires " ++ s.requirement else [])
            ++ ((if s.dev then codes " [dev]" else [])
                ++ (if s.cycle then codes " [cycle]" else []))))

abbrev pub is_last : Trees → Bool
is_last no_trees = true
is_last (grown t ts) = false

-- writeWhyTreeChildren: its lines. The texts of the branches are the UTF-8 codes of box drawings.
abbrev pub branch : Bool → Bytes
branch true = 226 ∷ 148 ∷ 148 ∷ 226 ∷ 148 ∷ 128 ∷ 226 ∷ 148 ∷ 128 ∷ 32 ∷ []
branch false = 226 ∷ 148 ∷ 156 ∷ 226 ∷ 148 ∷ 128 ∷ 226 ∷ 148 ∷ 128 ∷ 32 ∷ []

abbrev pub child_indent : Bool → Bytes
child_indent true = codes "    "
child_indent false = 226 ∷ 148 ∷ 130 ∷ codes "   "

unfoldable mutual
  unfolding format_why_tree_node

  pub children_lines : Trees → Bytes → List Bytes
  children_lines no_trees prefix = []
  children_lines (grown t ts) prefix = tree_lines t prefix (is_last ts) ++ children_lines ts prefix

  pub tree_lines : Tree → Bytes → Bool → List Bytes
  tree_lines (tree s ts) prefix last =
      (prefix ++ (branch last ++ format_why_tree_node s true))
      ∷ children_lines ts (prefix ++ child_indent last)

-- writeWhyTree
unfoldable pub write_why_tree : Tree → List Bytes
unfolding children_lines format_why_tree_node
write_why_tree (tree s ts) = format_why_tree_node s false ∷ children_lines ts []
