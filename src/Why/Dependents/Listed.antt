-- ===== src/Why/Dependents/Listed.antt =====
-- internal/cli/why.go, recursiveWhy: what one round of the walk adds.
use mathlib.Core.List.{Memᴰ}
use mathlib.Core.List.Memᴰ
use gomposer.Prelude.{true, List, [], ◌∷◌, ◌++◌, ◌≡◌, ◌⊎◌, refl, sym, ap, Bool-cases, inl, inr}
use gomposer.Prelude.Bytes.{Bytes}
use gomposer.Why.Names.{is_named_here, is_named_later, is_named_cases}
use gomposer.Why.{Edge, is_named}
use gomposer.Why.Dependents.{Walk, edge_key, note_edge, note_name, note_edges}

-- From one state of the walk to a later one, where the edges `ks` are listed and the names of `ns` are queued, but for
-- those that are known.
pub record Extends (ks ns : List Edge) (w w' : Walk) : Type 0 where
  pub keeps_seen :
      (v : Bytes) → is_named v w.seen_targets ≡ true → is_named v w'.seen_targets ≡ true
  pub keeps_edges : (k : Bytes) → is_named k w.seen_edges ≡ true → is_named k w'.seen_edges ≡ true
  pub keeps_queue : (v : Bytes) → Memᴰ v w.queue → Memᴰ v w'.queue
  pub keeps_out : (e : Edge) → Memᴰ e w.out → Memᴰ e w'.out
  pub key_seen : (e : Edge) → Memᴰ e ks → is_named (edge_key e) w'.seen_edges ≡ true
  pub name_seen : (e : Edge) → Memᴰ e ns → is_named e.name w'.seen_targets ≡ true
  pub new_queued :
      (v : Bytes)
      → is_named v w'.seen_targets ≡ true
      → (is_named v w.seen_targets ≡ true)
        ⊎ (Memᴰ v w'.queue × (e : Edge) × Memᴰ e ns × (e.name ≡ v))
  pub new_out : (e : Edge) → Memᴰ e w'.out → Memᴰ e w.out ⊎ Memᴰ e ks
  pub new_edges :
      (k : Bytes)
      → is_named k w'.seen_edges ≡ true
      → (is_named k w.seen_edges ≡ true) ⊎ ((e : Edge) × Memᴰ e w'.out × (edge_key e ≡ k))
  pub queue_seen :
      (v : Bytes) → Memᴰ v w'.queue → Memᴰ v w.queue ⊎ (is_named v w'.seen_targets ≡ true)

Extends-same :
    (ks ns : List Edge) (w : Walk)
    → ((e : Edge) → Memᴰ e ks → is_named (edge_key e) w.seen_edges ≡ true)
    → ((e : Edge) → Memᴰ e ns → is_named e.name w.seen_targets ≡ true)
    → Extends ks ns w w
Extends-same ks ns w keyed named = record {
  keeps_seen = λ v h. h;
  keeps_edges = λ k h. h;
  keeps_queue = λ v h. h;
  keeps_out = λ e h. h;
  key_seen = keyed;
  name_seen = named;
  new_queued = λ v h. inl h;
  new_out = λ e h. inl h;
  new_edges = λ k h. inl h;
  queue_seen = λ v h. inl h;
}

nothing_in : {e : Edge} {B : Type 0} → Memᴰ e [] → B
nothing_in h = elim (Memᴰ.not-nil h) [ ]

Extends-trans :
    (ks ns ks' ns' : List Edge) (w w' w'' : Walk)
    → Extends ks ns w w'
    → Extends ks' ns' w' w''
    → Extends (ks ++ ks') (ns ++ ns') w w''
Extends-trans ks ns ks' ns' w w' w'' f g = record {
  keeps_seen = λ v h. g.keeps_seen v (f.keeps_seen v h);
  keeps_edges = λ k h. g.keeps_edges k (f.keeps_edges k h);
  keeps_queue = λ v h. g.keeps_queue v (f.keeps_queue v h);
  keeps_out = λ x h. g.keeps_out x (f.keeps_out x h);
  key_seen = λ x h. elim (Memᴰ.append_cases ks h) [
    | inl m ↦ g.keeps_edges (edge_key x) (f.key_seen x m)
    | inr m ↦ g.key_seen x m
  ];
  name_seen = λ x h. elim (Memᴰ.append_cases ns h) [
    | inl m ↦ g.keeps_seen x.name (f.name_seen x m)
    | inr m ↦ g.name_seen x m
  ];
  new_queued = λ v h. elim (g.new_queued v h) [
    | inr (q, x, m, p) ↦ inr (q, x, Memᴰ.append_right ns m, p)
    | inl k ↦ elim (f.new_queued v k) [
      | inl l ↦ inl l
      | inr (q, x, m, p) ↦ inr (g.keeps_queue v q, x, Memᴰ.append_left ns' m, p)
    ]
  ];
  new_out = λ x h. elim (g.new_out x h) [
    | inr m ↦ inr (Memᴰ.append_right ks m)
    | inl k ↦ elim (f.new_out x k) [ inl l ↦ inl l | inr m ↦ inr (Memᴰ.append_left ks' m) ]
  ];
  new_edges = λ k h. elim (g.new_edges k h) [
    | inr x ↦ inr x
    | inl l ↦ elim (f.new_edges k l) [ inl p ↦ inl p | inr (x, m, q) ↦ inr (x, g.keeps_out x m, q) ]
  ];
  queue_seen = λ v h. elim (g.queue_seen v h) [
    | inr k ↦ inr k
    | inl l ↦ elim (f.queue_seen v l) [ inl p ↦ inl p | inr q ↦ inr (g.keeps_seen v q) ]
  ];
}

only_member : (e x : Edge) → Memᴰ x (e ∷ []) → x ≡ e
only_member e x m = Memᴰ.eq_of_singleton m

Extends-note_edge : (e : Edge) (w : Walk) → Extends (e ∷ []) [] w (note_edge e w)
unfolding note_edge
Extends-note_edge e w = elim (Bool-cases (is_named (edge_key e) w.seen_edges)) [
  | inl h ↦
      rw h (Extends-same (e ∷ []) [] w (λ x m. rw (only_member e x m) h) (λ x m. nothing_in m))
  | inr h ↦ rw h (record {
    keeps_seen = λ v p. p;
    keeps_queue = λ v p. p;
    keeps_edges = λ k p. is_named_later k (edge_key e) w.seen_edges p;
    keeps_out = λ x p. Memᴰ.append_left (e ∷ []) p;
    key_seen = λ x m. is_named_here w.seen_edges (ap (λ y. edge_key y) (only_member e x m));
    name_seen = λ x m. nothing_in m;
    new_queued = λ v p. inl p;
    new_out = λ x p. Memᴰ.append_cases w.out p;
    new_edges = λ k p. elim (is_named_cases k (edge_key e) w.seen_edges p) [
      | inl q ↦ inr (e, Memᴰ.append_right w.out (Memᴰ.head refl), q)
      | inr q ↦ inl q
    ];
    queue_seen = λ v p. inl p;
  })
]

Extends-note_name : (e : Edge) (w : Walk) → Extends [] (e ∷ []) w (note_name e w)
unfolding note_name
Extends-note_name e w = elim (Bool-cases (is_named e.name w.seen_targets)) [
  | inl h ↦
      rw h (Extends-same [] (e ∷ []) w (λ x m. nothing_in m) (λ x m. rw (only_member e x m) h))
  | inr h ↦ rw h (record {
    keeps_edges = λ k p. p;
    keeps_out = λ x p. p;
    keeps_seen = λ v p. is_named_later v e.name w.seen_targets p;
    keeps_queue = λ v p. Memᴰ.append_left (e.name ∷ []) p;
    name_seen = λ x m. is_named_here w.seen_targets (ap (λ y. y.name) (only_member e x m));
    key_seen = λ x m. nothing_in m;
    new_out = λ x p. inl p;
    new_edges = λ k p. inl p;
    new_queued = λ v p. elim (is_named_cases v e.name w.seen_targets p) [
      | inl q ↦ inr (Memᴰ.append_right w.queue (Memᴰ.head (sym q)), e, Memᴰ.head refl, q)
      | inr q ↦ inl q
    ];
    queue_seen = λ v p. elim (Memᴰ.append_cases w.queue p) [
      | inl q ↦ inl q
      | inr q ↦ inr (is_named_here w.seen_targets (Memᴰ.eq_of_singleton q))
    ];
  })
]

pub Extends-note_edges : (es : List Edge) (w : Walk) → Extends es es w (note_edges es w)
unfolding note_edges
Extends-note_edges [] w = Extends-same [] [] w (λ x m. nothing_in m) (λ x m. nothing_in m)
Extends-note_edges (e ∷ es) w =
    let first =
      Extends-trans (e ∷ []) [] [] (e ∷ []) _ _ _ (Extends-note_edge e w)
        (Extends-note_name e (note_edge e w)) in
    Extends-trans (e ∷ []) (e ∷ []) es es _ _ _ first
      (Extends-note_edges es (note_name e (note_edge e w)))
