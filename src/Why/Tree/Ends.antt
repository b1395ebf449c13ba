-- ===== src/Why/Tree/Ends.antt =====
-- internal/cli/why.go, buildWhyTree: the tree is finite, and what stands in it.
use mathlib.Core.Path.{subst}
use mathlib.Core.List.{Memᴰ}
use gomposer.Prelude.{
  ℕ, zero, suc, ◌<◌, true, false, Option, some, List, [], ◌∷◌, ◌≡◌, refl, sym, ap, arith,
  Bool-cases, inl, inr, length,
}
use gomposer.Prelude.Bytes.{Bytes}
use gomposer.Table.{get}
use gomposer.Why.{Edge, Graph, edges_to, is_named}
use gomposer.Why.Dependents.{all_edges}
use gomposer.Why.Dependents.Closure.{Dependent, here, step}
use gomposer.Why.Dependents.Ends.{unseen, unseen-length, unseen_drops, edges_to-all_edges}
use gomposer.Why.Tree.{
  Shown, Tree, tree, Trees, no_trees, grown, show_node, under_edge, build_children, over,
  build_tree, build_why_tree,
}

-- The names of the nodes of a tree.
mutual
  pub data InTree (u : Bytes) : Tree → Type 0 where
    at_root : {s : Shown} {ts : Trees} → u ≡ s.name → InTree u (tree s ts)
    below : {s : Shown} {ts : Trees} → InTrees u ts → InTree u (tree s ts)

  pub data InTrees (u : Bytes) : Trees → Type 0 where
    in_first : {t : Tree} {ts : Trees} → InTree u t → InTrees u (grown t ts)
    in_rest : {t : Tree} {ts : Trees} → InTrees u ts → InTrees u (grown t ts)

InTree-under_edge : (u : Bytes) (e : Edge) (t : Tree) → InTree u (under_edge e t) → InTree u t
InTree-under_edge u e (tree s ts) (at_root p) = at_root p
InTree-under_edge u e (tree s ts) (below m) = below m

module _ (g : Graph) (target : Bytes) where
  -- A tree that is there, of which all names satisfy `P`.
  Built : (Bytes → Type 0) → Option Tree → Type 0
  Built P o = (t : Tree) × (o ≡ some t) × ((u : Bytes) → InTree u t → P u)

  build_children_lem :
      (P : Bytes → Type 0) (build : Bytes → Option Tree) (es : List Edge)
      → ((e : Edge) → Memᴰ e es → Built P (build e.name))
      → (ts : Trees) × (build_children build es ≡ some ts) × ((u : Bytes) → InTrees u ts → P u)
  unfolding build_children Built
  build_children_lem P build [] h = (no_trees, refl, λ u m. elim m [ ])
  build_children_lem P build (e ∷ es) h =
      let (t, p, ok) = h e (Memᴰ.head refl) in
      let (ts, q, oks) = build_children_lem P build es (λ x m. h x (Memᴰ.tail m)) in
      (
        grown (under_edge e t) ts,
        rw (p, q) refl,
        λ u m. elim m [ in_first n ↦ ok u (InTree-under_edge u e t n) | in_rest n ↦ oks u n ],
      )

  build_node_lem :
      (P : Bytes → Type 0) (fuel : ℕ) (name : Bytes) (ancestors : List Bytes)
      → is_named name ancestors ≡ false
      → P name
      → ((e : Edge)
          → Memᴰ e (edges_to g.reverse name)
          → Built P (build_tree g fuel e.name (name ∷ ancestors)))
      → Built P (build_tree g (suc fuel) name ancestors)
  unfolding build_tree Built
  build_node_lem P fuel name ancestors new h k =
      let build = λ (n : Bytes). build_tree g fuel n (name ∷ ancestors) in
      let (ts, q, ok) = build_children_lem P build (edges_to g.reverse name) k in
      let s = show_node name (get name g.nodes) false in
      (
        tree s ts,
        rw new (ap (over s) q),
        λ u m. elim m [ at_root p ↦ subst P (sym p) h | below n ↦ ok u n ],
      )

  build_tree_lem :
      (fuel : ℕ) (x : Edge) (ancestors : List Bytes)
      → Memᴰ x (all_edges g.reverse)
      → Dependent g.reverse target x.name
      → unseen ancestors (all_edges g.reverse) < fuel
      → Built (Dependent g.reverse target) (build_tree g fuel x.name ancestors)
  unfolding build_tree Built
  build_tree_lem zero x ancestors m d h = ground (arith, h)
  build_tree_lem (suc fuel) x ancestors m d h = elim (Bool-cases (is_named x.name ancestors)) [
    | inl k ↦ (
      tree (show_node x.name (get x.name g.nodes) true) no_trees,
      rw k refl,
      λ u n. elim n [
        | at_root p ↦ subst (Dependent g.reverse target) (sym p) d
        | below l ↦ elim l [ ]
      ],
    )
    | inr k ↦
        let drops = unseen_drops x ancestors (all_edges g.reverse) k m in
        build_node_lem (Dependent g.reverse target) fuel x.name ancestors k d (λ e n.
          build_tree_lem fuel e (x.name ∷ ancestors) (edges_to-all_edges g.reverse x.name e n)
            (step e d n) (omega (arith, drops, h)))
  ]

  -- buildWhyTree ends on every graph, also with cycles, and every name in the tree is the package or what requires it,
  -- directly or through others.
  pub build_why_tree_ends :
      (t : Tree) × (build_why_tree target g ≡ some t)
      × ((u : Bytes) → InTree u t → Dependent g.reverse target u)
  unfolding build_why_tree is_named Built
  build_why_tree_ends =
      let bound = unseen-length (target ∷ []) (all_edges g.reverse) in
      build_node_lem (Dependent g.reverse target) (suc (length (all_edges g.reverse))) target []
        refl here
        (λ e m.
          build_tree_lem (suc (length (all_edges g.reverse))) e (target ∷ [])
            (edges_to-all_edges g.reverse target e m) (step e here m) (omega (arith, bound)))
