-- ===== src/Why/Load.antt =====
-- internal/cli/why.go, loadWhyGraph, from the lock file and the manifests on.
use gomposer.Prelude.{
  Bool, true, false, not, Option, none, some, List, [], ◌∷◌, ◌++◌, if◌then◌else◌, map,
}
use gomposer.Prelude.Bytes.{Bytes}
use gomposer.Strings.{eq}
use gomposer.Sort.{sort_by, bytes_less}
use gomposer.Table.{Table}
use gomposer.Why.{
  Edge, Graph, Package, Project, add_packages, add_manifest_node, add_workspaces, add_locked,
}
use gomposer.Why.Restrict.{restrict_why_graph}

-- The order of sortWhyEdges.
unfoldable pub edge_less : Edge → Edge → Bool
unfolding eq bytes_less
edge_less e f =
    if not (eq e.name f.name)
    then bytes_less e.name f.name
    else if not (eq e.target f.target)
    then bytes_less e.target f.target
    else bytes_less e.requirement f.requirement

unfoldable pub sort_why_edges : List Edge → List Edge
unfolding edge_less sort_by
sort_why_edges es = sort_by edge_less es

unfoldable pub sort_reverse : Table (List Edge) → Table (List Edge)
unfolding sort_why_edges
sort_reverse [] = []
sort_reverse ((target, es) ∷ m) = (target, sort_why_edges es) ∷ sort_reverse m

-- What loadWhyGraph reads: the packages of the lock file, the manifest of the root and the manifests of its workspaces,
-- and the manifest of the selected directory where that is a workspace.
pub record Loaded : Type 0 where
  pub packages : List Package
  pub packages_dev : List Package
  pub root : Project
  pub workspaces : List Project
  pub selected : Option Project

abbrev pub no_graph : Graph
no_graph = record { nodes = []; reverse = [] }

abbrev pub package_names : List Package → List Bytes
package_names ps = map (λ p. p.name) ps

abbrev pub project_names : List Project → List Bytes
project_names ms = map (λ m. m.name) ms

abbrev pub add_manifests : Bool → Loaded → Graph → Graph
unfolding add_manifest_node add_workspaces
add_manifests no_dev l g = elim l.selected [
  | none ↦ add_workspaces no_dev none l.workspaces (add_manifest_node no_dev g l.root true false)
  | some m ↦
      add_workspaces no_dev (some m.name) l.workspaces (add_manifest_node no_dev g m true true)
]

abbrev pub restrict_selected : Option Project → Graph → Option Graph
unfolding restrict_why_graph
restrict_selected none g = some g
restrict_selected (some m) g = restrict_why_graph g m.name

abbrev pub sorted_graph : Option Graph → Option Graph
unfolding sort_reverse
sorted_graph none = none
sorted_graph (some g) = some (record g { reverse = sort_reverse g.reverse })

-- loadWhyGraph; `none` belongs to the fuel of the model.
unfoldable pub load_why_graph : Loaded → Bool → Option Graph
unfolding add_packages add_locked
load_why_graph l no_dev =
    let packages = if no_dev then l.packages else l.packages ++ l.packages_dev in
    let dev_names = if no_dev then [] else package_names l.packages_dev in
    let named : Graph = record no_graph { nodes = add_packages dev_names packages [] } in
    let required =
      add_locked (project_names l.workspaces) packages (add_manifests no_dev l named) in
    sorted_graph (restrict_selected l.selected required)
