-- ===== src/Why.antt =====
-- internal/cli/why.go: who requires a package. The manifests, the workspaces and the lock file are read by other parts;
-- the model begins with what is read.
mod Samples
pub mod Names
pub mod Restrict
pub mod Load
pub mod Dependents
pub mod Tree
use gomposer.Prelude.{
  Bool, true, false, not, ◌||◌, ◌&&◌, Option, none, some, List, [], ◌∷◌, ◌++◌, if◌then◌else◌, map,
  any, length,
}
use gomposer.Prelude.Bytes.{Bytes, codes}
use gomposer.Strings.{eq, is_empty}
use gomposer.Sort.{Entries, keys, entry, sort_by, sort_strings, bytes_less}
use gomposer.Table.{Table, get, put}

pub record Node : Type 0 where
  pub name : Bytes
  pub version : Bytes
  pub dev : Bool
  pub root : Bool
  pub workspace : Bool

pub record Edge : Type 0 where
  pub name : Bytes
  pub version : Bytes
  pub requirement : Bytes
  pub dev : Bool
  pub root : Bool
  pub workspace : Bool
  pub target : Bytes

-- whyGraph
pub record Graph : Type 0 where
  pub nodes : Table Node
  pub reverse : Table (List Edge)

abbrev pub no_node : Node
no_node = record { name = []; version = []; dev = false; root = false; workspace = false }

-- graph.nodes[name], which is the zero value where it is missing
abbrev pub node_or : Option Node → Node
node_or (some n) = n
node_or none = no_node

abbrev pub or_none : Option (List Edge) → List Edge
or_none (some es) = es
or_none none = []

-- graph.reverse[target]
unfoldable pub edges_to : Table (List Edge) → Bytes → List Edge
unfolding get
edges_to reverse target = or_none (get target reverse)

abbrev pub make_edge : Node → Bytes → Bytes → Bool → Edge
make_edge from target requirement dev = record {
  name = from.name;
  version = from.version;
  requirement = requirement;
  dev = dev || from.dev;
  root = from.root;
  workspace = from.workspace;
  target = target;
}

unfoldable pub add_targets :
    Table (List Edge) → Node → Entries → Bool → List Bytes → Table (List Edge)
unfolding edges_to put entry
add_targets reverse from requirements dev [] = reverse
add_targets reverse from requirements dev (t ∷ ts) =
    add_targets
      (put t (edges_to reverse t ++ make_edge from t (entry requirements t) dev ∷ []) reverse) from
      requirements dev ts

unfoldable pub add_why_requirements : Graph → Node → Entries → Bool → Graph
unfolding add_targets sort_strings keys
add_why_requirements g from requirements dev = record g {
  reverse = add_targets g.reverse from requirements dev (sort_strings (keys requirements));
}

-- What the graph reads of a lock.Package and of a manifest.
pub record Package : Type 0 where
  pub name : Bytes
  pub version : Bytes
  pub kind : Bytes
  pub requires : Entries

pub record Project : Type 0 where
  pub name : Bytes
  pub version : Bytes
  pub requires : Entries
  pub requires_dev : Entries

unfoldable pub is_named : Bytes → List Bytes → Bool
unfolding eq
is_named name names = any (λ n. eq n name) names

-- The loop that makes a node of each package.
unfoldable pub add_packages : List Bytes → List Package → Table Node → Table Node
unfolding put is_named eq
add_packages dev_names [] nodes = nodes
add_packages dev_names (p ∷ ps) nodes = add_packages dev_names ps (
    put p.name
      (record {
        name = p.name;
        version = p.version;
        dev = is_named p.name dev_names;
        root = false;
        workspace = eq p.kind (codes "workspace");
      })
      nodes)

abbrev pub project_name : Project → Bytes
unfolding is_empty
project_name m = if is_empty m.name then codes "__root__" else m.name

abbrev pub project_node : Graph → Project → Bool → Bool → Node
unfolding is_empty get
project_node g m root workspace =
    let old = node_or (get (project_name m) g.nodes) in
    record {
      name = project_name m;
      version = if is_empty old.version then m.version else old.version;
      dev = old.dev;
      root = root;
      workspace = workspace;
    }

-- addManifestNode
unfoldable pub add_manifest_node : Bool → Graph → Project → Bool → Bool → Graph
unfolding add_why_requirements is_empty get put
add_manifest_node no_dev g m root workspace =
    let node = project_node g m root workspace in
    let named : Graph = record g { nodes = put (project_name m) node g.nodes } in
    let required = add_why_requirements named node m.requires false in
    if no_dev then required else add_why_requirements required node m.requires_dev true

-- The loops over the workspaces, which leave out one name.
unfoldable pub add_workspaces : Bool → Option Bytes → List Project → Graph → Graph
unfolding add_manifest_node eq
add_workspaces no_dev skipped [] g = g
add_workspaces no_dev none (m ∷ ms) g =
    add_workspaces no_dev none ms (add_manifest_node no_dev g m false true)
add_workspaces no_dev (some name) (m ∷ ms) g =
    add_workspaces no_dev (some name) ms
      (if eq m.name name then g else add_manifest_node no_dev g m false true)

-- The last loop over the packages, but for those of workspaces.
unfoldable pub add_locked : List Bytes → List Package → Graph → Graph
unfolding add_why_requirements is_named get
add_locked workspaces [] g = g
add_locked workspaces (p ∷ ps) g = add_locked workspaces ps (
    if is_named p.name workspaces
    then g
    else add_why_requirements g (node_or (get p.name g.nodes)) p.requires false)
