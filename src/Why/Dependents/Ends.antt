-- ===== src/Why/Dependents/Ends.antt =====
-- internal/cli/why.go, recursiveWhy: the walk ends, and what it lists.
use mathlib.Core.Path.{subst}
use mathlib.Core.List.{Memᴰ}
use mathlib.Core.List.Memᴰ
use gomposer.Prelude.{
  ℕ, zero, suc, ◌+◌, ◌≤◌, ◌<◌, false, some, List, [], ◌∷◌, ◌≡◌, refl, ap, arith, Bool-cases, inl,
  inr, true, all, if◌then◌else◌, length, length-append,
}
use gomposer.Prelude.Bytes.{Bytes}
use gomposer.Strings.{eq}
use gomposer.Strings.Equality.{eq_refl}
use gomposer.Sort.{sort_by, insert_by}
use gomposer.Table.{Table, get}
use gomposer.Why.{Edge, Graph, is_named, edges_to}
use gomposer.Why.Load.{edge_less, sort_why_edges}
use gomposer.Why.Dependents.{
  Walk, edge_key, note_edge, note_name, note_edges, walk_loop, walk_start, all_edges, recursive_why,
  sorted_out,
}
use gomposer.Why.Dependents.Closure.{list_cases, Dependent, Inv-start, Inv-loop, listed}
use gomposer.Why.Dependents.Keys.{is_plain_edge, AreAlike, edge_key-AreAlike, all_at}

-- The edges whose names are not seen yet.
pub unseen : List Bytes → List Edge → ℕ
unseen seen [] = 0
unseen seen (e ∷ es) = let rest = unseen seen es in if is_named e.name seen then rest else suc rest

pub unseen-length : (seen : List Bytes) (es : List Edge) → unseen seen es ≤ length es
unfolding unseen
unseen-length seen [] = omega arith
unseen-length seen (e ∷ es) = ground (arith, unseen-length seen es)

unseen_fewer :
    (n : Bytes) (seen : List Bytes) (es : List Edge) → unseen (n ∷ seen) es ≤ unseen seen es
unfolding unseen is_named
unseen_fewer n seen [] = omega arith
unseen_fewer n seen (e ∷ es) = ground (arith, unseen_fewer n seen es)

pub unseen_drops :
    (e : Edge) (seen : List Bytes) (es : List Edge)
    → is_named e.name seen ≡ false
    → Memᴰ e es
    → suc (unseen (e.name ∷ seen) es) ≤ unseen seen es
unfolding unseen is_named
unseen_drops e seen [] h m = elim (Memᴰ.not-nil m) [ ]
unseen_drops e seen (f ∷ es) h m =
    let fewer = unseen_fewer e.name seen es in
    elim (Memᴰ.cases_cons m) [
      | inl p ↦
          subst (λ (x : Edge). suc (unseen (e.name ∷ seen) (x ∷ es)) ≤ unseen seen (x ∷ es)) p
            (rw (eq_refl e.name, h) (omega (arith, fewer)))
      | inr k ↦ ground (arith, unseen_drops e seen es h k)
    ]

-- What is left to do: the names that wait and those that may still come.
abbrev potential : List Edge → Walk → ℕ
potential all w = length w.queue + unseen w.seen_targets all

potential-note_edge :
    (all : List Edge) (e : Edge) (w : Walk) → potential all (note_edge e w) ≤ potential all w
unfolding note_edge
potential-note_edge all e w = elim (Bool-cases (is_named (edge_key e) w.seen_edges)) [
  | inl h ↦ rw h (omega arith)
  | inr h ↦ rw h (omega arith)
]

potential-note_name :
    (all : List Edge) (e : Edge) (w : Walk)
    → Memᴰ e all
    → potential all (note_name e w) ≤ potential all w
unfolding note_name
potential-note_name all e w m = elim (Bool-cases (is_named e.name w.seen_targets)) [
  | inl h ↦ rw h (omega arith)
  | inr h ↦
      let drops = unseen_drops e w.seen_targets all h m in
      rw (h, length-append w.queue (e.name ∷ [])) (omega (arith, drops))
]

potential-note_edges :
    (all es : List Edge) (w : Walk)
    → ((e : Edge) → Memᴰ e es → Memᴰ e all)
    → potential all (note_edges es w) ≤ potential all w
unfolding note_edges
potential-note_edges all [] w h = omega arith
potential-note_edges all (e ∷ es) w h =
    let rest =
      potential-note_edges all es (note_name e (note_edge e w)) (λ x m. h x (Memᴰ.tail m)) in
    let name = potential-note_name all e (note_edge e w) (h e (Memᴰ.head refl)) in
    let edge = potential-note_edge all e w in omega (arith, rest, name, edge)

pub edges_to-all_edges :
    (reverse : Table (List Edge)) (target : Bytes) (e : Edge)
    → Memᴰ e (edges_to reverse target)
    → Memᴰ e (all_edges reverse)
unfolding edges_to get all_edges
edges_to-all_edges [] target e m = m
edges_to-all_edges ((t, es) ∷ reverse) target e m = elim (Bool-cases (eq t target)) [
  | inl h ↦ Memᴰ.append_left (all_edges reverse) (rw h at m)
  | inr h ↦ Memᴰ.append_right es (edges_to-all_edges reverse target e (rw h at m))
]

walk_loop_ends :
    (reverse : Table (List Edge)) (fuel : ℕ) (w : Walk)
    → potential (all_edges reverse) w < fuel
    → (w' : Walk) × (walk_loop reverse fuel w ≡ some w')
unfolding walk_loop
walk_loop_ends reverse zero w h = ground (arith, h)
walk_loop_ends reverse (suc fuel) w h = elim (list_cases w.queue) [
  | inl q ↦ (w, simp (walk_loop, q) refl)
  | inr (c, queue, q) ↦
      let w0 : Walk = record w { queue = queue } in
      let less =
        potential-note_edges (all_edges reverse) (edges_to reverse c) w0
          (edges_to-all_edges reverse c) in
      let long = ap (λ (xs : List Bytes). length xs) q in
      let (w', e) =
        walk_loop_ends reverse fuel (note_edges (edges_to reverse c) w0)
          (omega (arith, less, long, h)) in
      (w', rw (walk_loop, q) e)
]

insert_by_member :
    (e f : Edge) (es : List Edge)
    → (Memᴰ f (insert_by edge_less e es) → Memᴰ f (e ∷ es))
      × (Memᴰ f (e ∷ es) → Memᴰ f (insert_by edge_less e es))
unfolding insert_by
insert_by_member e f [] = (λ m. m, λ m. m)
insert_by_member e f (g ∷ es) =
    let (there, back) = insert_by_member e f es in
    elim (Bool-cases (edge_less g e)) [
      | inr h ↦ rw h (λ m. m, λ m. m)
      | inl h ↦ rw h (
        λ m. elim (Memᴰ.cases_cons m) [
          | inl p ↦ Memᴰ.tail (Memᴰ.head p)
          | inr k ↦ elim (Memᴰ.cases_cons (there k)) [
            | inl p ↦ Memᴰ.head p
            | inr l ↦ Memᴰ.tail (Memᴰ.tail l)
          ]
        ],
        λ m. elim (Memᴰ.cases_cons m) [
          | inl p ↦ Memᴰ.tail (back (Memᴰ.head p))
          | inr k ↦ elim (Memᴰ.cases_cons k) [
            | inl p ↦ Memᴰ.head p
            | inr l ↦ Memᴰ.tail (back (Memᴰ.tail l))
          ]
        ],
      )
    ]

sort_member :
    (f : Edge) (es : List Edge)
    → (Memᴰ f (sort_why_edges es) → Memᴰ f es) × (Memᴰ f es → Memᴰ f (sort_why_edges es))
unfolding sort_why_edges sort_by
sort_member f [] = (λ m. m, λ m. m)
sort_member f (e ∷ es) =
    let (there, back) = sort_member f es in
    let (out, into) = insert_by_member e f (sort_why_edges es) in
    (
      λ m. elim (Memᴰ.cases_cons (out m)) [ inl p ↦ Memᴰ.head p | inr k ↦ Memᴰ.tail (there k) ],
      λ m. elim (Memᴰ.cases_cons m) [
        | inl p ↦ into (Memᴰ.head p)
        | inr k ↦ into (Memᴰ.tail (back k))
      ],
    )

-- On every graph in which no package of a requirement has a byte 0 in its name, also with cycles, recursiveWhy ends. It
-- lists only requirements of the package or of what requires it directly or through others, and of each of these
-- requirements it lists one with the same two packages and the same constraint.
pub recursive_why_lists :
    (g : Graph) (target : Bytes)
    → all is_plain_edge (all_edges g.reverse) ≡ true
    → (out : List Edge) × (recursive_why target g ≡ some out)
      × ((e : Edge)
          → Memᴰ e out
          → (u : Bytes) × Dependent g.reverse target u × Memᴰ e (edges_to g.reverse u))
      × ((u : Bytes) (e : Edge)
          → Dependent g.reverse target u
          → Memᴰ e (edges_to g.reverse u)
          → (f : Edge) × Memᴰ f out × AreAlike f e)
unfolding recursive_why sorted_out
recursive_why_lists g target plain =
    let fuel = suc (suc (length (all_edges g.reverse))) in
    let bound = unseen-length (target ∷ []) (all_edges g.reverse) in
    let (w, e) = walk_loop_ends g.reverse fuel (walk_start target) (omega (arith, bound)) in
    let (inv, q) =
      Inv-loop g.reverse target fuel (walk_start target) w (Inv-start g.reverse target) e in
    let plain_at : (u : Bytes) (x : Edge) → Memᴰ x (edges_to g.reverse u) → is_plain_edge x ≡ true =
      λ u x m. all_at (all_edges g.reverse) x plain (edges_to-all_edges g.reverse u x m) in
    (
      sort_why_edges w.out,
      ap sorted_out e,
      λ x m. inv.sound_out x ((sort_member x w.out).0 m),
      λ u x d m.
          let (f, n, p) = listed g.reverse target w inv q u x d m in
          let (u', d', m') = inv.sound_out f n in
          (
            f,
            (sort_member f w.out).1 n,
            edge_key-AreAlike f x (plain_at u' f m') (plain_at u x m) p,
          ),
    )
