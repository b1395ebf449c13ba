-- ===== src/Why/Restrict/Kept.antt =====
-- internal/cli/why.go, restrictWhyGraph: what stays in the graph.
use mathlib.Core.Path.{subst}
use mathlib.Core.List.{Memᴰ}
use mathlib.Core.List.Memᴰ
use gomposer.Prelude.{
  suc, Bool, true, false, some, List, [], ◌∷◌, ◌++◌, ◌≡◌, ◌↔◌, refl, sym, ap, arith, Bool-cases,
  inl, inr, map, length,
}
use gomposer.Prelude.Bytes.{Bytes}
use gomposer.Table.{Table}
use gomposer.Why.{Node, Edge, Graph, is_named}
use gomposer.Why.Names.{is_named_here, is_named_only}
use gomposer.Why.Restrict.{
  restrict_to, restrict_or_none, restrict_why_graph, restrict_reverse, restrict_nodes,
  reached_edges, keep_target,
}
use gomposer.Why.Restrict.Reach.{arrows, Reach, start, reach_loop_lem, names_of, unreached-length}

arrows-keep_target :
    (t : Bytes) (es : List Edge) (m : Table (List Edge))
    → arrows (keep_target t es m) ≡ map (λ e. (t, e)) es ++ arrows m
unfolding arrows
arrows-keep_target t [] m = refl
arrows-keep_target t (e ∷ es) m = refl

-- Membership in a list of which a test keeps a part, for arrows of one target.
kept_there :
    (reached : List Bytes) (t u : Bytes) (e : Edge) (es : List Edge)
    → Memᴰ {A = Bytes × Edge} (t, e) (map (λ x. (u, x)) (reached_edges reached es))
    → Memᴰ {A = Bytes × Edge} (t, e) (map (λ x. (u, x)) es) × (is_named e.name reached ≡ true)
unfolding reached_edges
kept_there reached t u e [] m = elim (Memᴰ.not-nil m) [ ]
kept_there reached t u e (x ∷ es) m = elim (Bool-cases (is_named x.name reached)) [
  | inr h ↦ let (n, k) = kept_there reached t u e es (rw h at m) in (Memᴰ.tail n, k)
  | inl h ↦ elim (Memᴰ.cases_cons (rw h at m)) [
    | inl p ↦
        (Memᴰ.head p, subst (λ (y : Bytes × Edge). is_named y.1.name reached ≡ true) (sym p) h)
    | inr l ↦ let (n, k) = kept_there reached t u e es l in (Memᴰ.tail n, k)
  ]
]

kept_back :
    (reached : List Bytes) (t u : Bytes) (e : Edge) (es : List Edge)
    → Memᴰ {A = Bytes × Edge} (t, e) (map (λ x. (u, x)) es)
    → is_named e.name reached ≡ true
    → Memᴰ {A = Bytes × Edge} (t, e) (map (λ x. (u, x)) (reached_edges reached es))
unfolding reached_edges
kept_back reached t u e [] m k = elim (Memᴰ.not-nil m) [ ]
kept_back reached t u e (x ∷ es) m k = elim (Memᴰ.cases_cons m) [
  | inl p ↦
      let k' = subst (λ (y : Bytes × Edge). is_named y.1.name reached ≡ true) p k in
      rw k' (Memᴰ.head p)
  | inr l ↦
      let n = kept_back reached t u e es l k in
      elim (Bool-cases (is_named x.name reached)) [ inl h ↦ rw h (Memᴰ.tail n) | inr h ↦ rw h n ]
]

restrict_reverse_iff :
    (reached : List Bytes) (m : Table (List Edge)) (t : Bytes) (e : Edge)
    → Memᴰ (t, e) (arrows (restrict_reverse reached m))
      ↔ (Memᴰ (t, e) (arrows m) × (is_named e.name reached ≡ true))
unfolding restrict_reverse arrows
restrict_reverse_iff reached [] t e = (λ h. elim (Memᴰ.not-nil h) [ ], λ h. h.0)
restrict_reverse_iff reached ((u, es) ∷ m) t e =
    let same = arrows-keep_target u (reached_edges reached es) (restrict_reverse reached m) in
    let (there, back) = restrict_reverse_iff reached m t e in
    (
      λ h.
          elim (Memᴰ.append_cases (map (λ x. (u, x)) (reached_edges reached es))
            (subst (Memᴰ (t, e)) same h)) [
              | inl n ↦
                  let (a, k) = kept_there reached t u e es n in (Memᴰ.append_left (arrows m) a, k)
              | inr n ↦ let (a, k) = there n in (Memᴰ.append_right (map (λ x. (u, x)) es) a, k)
            ],
      λ (h, k). subst (Memᴰ (t, e)) (sym same) (elim (Memᴰ.append_cases (map (λ x. (u, x)) es) h) [
        | inl n ↦ Memᴰ.append_left _ (kept_back reached t u e es n k)
        | inr n ↦ Memᴰ.append_right _ (back (n, k))
      ]),
    )

restrict_nodes_iff :
    (reached : List Bytes) (m : Table Node) (t : Bytes) (n : Node)
    → Memᴰ (t, n) (restrict_nodes reached m) ↔ (Memᴰ (t, n) m × (is_named t reached ≡ true))
unfolding restrict_nodes
restrict_nodes_iff reached [] t n = (λ h. elim (Memᴰ.not-nil h) [ ], λ h. h.0)
restrict_nodes_iff reached ((u, x) ∷ m) t n =
    let (there, back) = restrict_nodes_iff reached m t n in
    elim (Bool-cases (is_named u reached)) [
      | inl h ↦ rw h (
        λ k. elim (Memᴰ.cases_cons k) [
          | inl p ↦
              (Memᴰ.head p, subst (λ (y : Bytes × Node). is_named y.0 reached ≡ true) (sym p) h)
          | inr l ↦ let (a, b) = there l in (Memᴰ.tail a, b)
        ],
        λ (k, r). elim (Memᴰ.cases_cons k) [
          | inl p ↦ Memᴰ.head p
          | inr l ↦ Memᴰ.tail (back (l, r))
        ],
      )
      | inr h ↦ rw h (
        λ k. let (a, b) = there k in (Memᴰ.tail a, b),
        λ (k, r). elim (Memᴰ.cases_cons k) [
          | inl p ↦
              let r' = subst (λ (y : Bytes × Node). is_named y.0 reached ≡ true) p r in
              elim (clash h r') [ ]
          | inr l ↦ back (l, r)
        ],
      )
    ]
  where
    clash : {b : Bool} → b ≡ false → b ≡ true → ⊥
    clash h k = ground (arith, h, k)

names-length : (m : Table (List Edge)) → length (names_of m) ≡ length m
names-length [] = refl
names-length (x ∷ m) = ap suc (names-length m)

-- restrictWhyGraph ends on every graph, also with cycles. It keeps exactly the requirements of those packages that the
-- root reaches through requirements, the root included, and exactly the nodes of these packages.
pub restrict_why_graph_keeps :
    (g : Graph) (root : Bytes)
    → (g' : Graph) × (restrict_why_graph g root ≡ some g')
      × ((t : Bytes) (e : Edge)
          → Memᴰ (t, e) (arrows g'.reverse)
            ↔ (Memᴰ (t, e) (arrows g.reverse) × Reach g.reverse root e.name))
      × ((t : Bytes) (n : Node)
          → Memᴰ (t, n) g'.nodes ↔ (Memᴰ (t, n) g.nodes × Reach g.reverse root t))
unfolding restrict_why_graph restrict_or_none restrict_to
restrict_why_graph_keeps g root =
    let all = names_of g.reverse in
    let bound = unreached-length (root ∷ []) all in
    let long = names-length g.reverse in
    let (out, e, good) =
      reach_loop_lem g.reverse root (suc (length g.reverse)) (root ∷ [])
        (omega (arith, bound, long)) (is_named_here {v = root} [] refl)
        (λ v h. subst (Reach g.reverse root) (is_named_only v root h) start) in
    (
      restrict_to g out,
      ap (restrict_or_none g) e,
      λ t x.
          let (there, back) = restrict_reverse_iff out g.reverse t x in
          (
            λ m. let (n, k) = there m in (n, (good x.name).0 k),
            λ (m, k). back (m, (good x.name).1 k),
          ),
      λ t n.
          let (there, back) = restrict_nodes_iff out g.nodes t n in
          (λ m. let (l, k) = there m in (l, (good t).0 k), λ (m, k). back (m, (good t).1 k)),
    )
