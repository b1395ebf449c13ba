-- ===== src/Why/Dependents/Closure.antt =====
-- internal/cli/why.go, recursiveWhy: the list is complete and right, and the walk ends.
use mathlib.Core.Path.{subst}
use mathlib.Core.Option.{some_inj}
use mathlib.Core.List.{Memᴰ}
use mathlib.Core.List.Memᴰ
use gomposer.Prelude.{ℕ, zero, suc, true, some, List, [], ◌∷◌, ◌≡◌, ◌⊎◌, refl, sym, arith, inl, inr}
use gomposer.Prelude.Bytes.{Bytes}
use gomposer.Table.{Table}
use gomposer.Why.Names.{unnamed, is_named_only, is_named_here}
use gomposer.Why.{Edge, is_named, edges_to}
use gomposer.Why.Dependents.{Walk, edge_key, note_edges, walk_loop, walk_start}
use gomposer.Why.Dependents.Listed.{Extends-note_edges}

pub list_cases {ℓ} :
    {A : Type ℓ} (xs : List A) → (xs ≡ []) ⊎ ((x : A) × (ys : List A) × (xs ≡ x ∷ ys))
list_cases [] = inl refl
list_cases (x ∷ ys) = inr (x, ys, refl)

module _ (reverse : Table (List Edge)) (target : Bytes) where
  -- The package itself, and what requires one of these.
  pub data Dependent : Bytes → Type 0 where
    here : Dependent target
    step : {u : Bytes} (e : Edge) → Dependent u → Memᴰ e (edges_to reverse u) → Dependent e.name

  abbrev Done : Walk → Bytes → Type 0
  Done w u =
      (e : Edge)
      → Memᴰ e (edges_to reverse u)
      → (is_named (edge_key e) w.seen_edges ≡ true) × (is_named e.name w.seen_targets ≡ true)

  pub record Inv (w : Walk) : Type 0 where
    source : is_named target w.seen_targets ≡ true
    queued : (v : Bytes) → Memᴰ v w.queue → is_named v w.seen_targets ≡ true
    sound : (v : Bytes) → is_named v w.seen_targets ≡ true → Dependent v
    pub sound_out :
        (e : Edge) → Memᴰ e w.out → (u : Bytes) × Dependent u × Memᴰ e (edges_to reverse u)
    keyed :
        (k : Bytes) → is_named k w.seen_edges ≡ true → (e : Edge) × Memᴰ e w.out × (edge_key e ≡ k)
    closed : (u : Bytes) → is_named u w.seen_targets ≡ true → Memᴰ u w.queue ⊎ Done w u

  pub Inv-start : Inv (walk_start target)
  Inv-start = record {
    source = is_named_here [] refl;
    queued = λ v m. is_named_here [] (Memᴰ.eq_of_singleton m);
    sound = λ v h. subst Dependent (is_named_only v target h) here;
    sound_out = λ e m. elim (Memᴰ.not-nil m) [ ];
    keyed = λ k h. elim (unnamed k h) [ ];
    closed = λ u h. inl (Memᴰ.head (sym (is_named_only u target h)));
  }

  Inv-round :
      (w : Walk) (current : Bytes) (queue : List Bytes)
      → w.queue ≡ current ∷ queue
      → Inv w
      → Inv (note_edges (edges_to reverse current) (record w { queue = queue }))
  Inv-round w current queue q h =
      let w0 : Walk = record w { queue = queue } in
      let es = edges_to reverse current in
      let g = Extends-note_edges es w0 in
      let waiting = λ (v : Bytes) (m : Memᴰ v queue). subst (Memᴰ v) (sym q) (Memᴰ.tail m) in
      let dep =
        h.sound current (h.queued current (subst (Memᴰ current) (sym q) (Memᴰ.head refl))) in
      record {
        source = g.keeps_seen target h.source;
        queued = λ v m. elim (g.queue_seen v m) [
          | inl old ↦ g.keeps_seen v (h.queued v (waiting v old))
          | inr new ↦ new
        ];
        sound = λ v s. elim (g.new_queued v s) [
          | inl old ↦ h.sound v old
          | inr (m, e, n, p) ↦ subst Dependent p (step e dep n)
        ];
        sound_out =
            λ e m. elim (g.new_out e m) [ inl old ↦ h.sound_out e old | inr n ↦ (current, dep, n) ];
        keyed = λ k s. elim (g.new_edges k s) [
          | inl old ↦ let (e, m, p) = h.keyed k old in (e, g.keeps_out e m, p)
          | inr new ↦ new
        ];
        closed = λ u s. elim (g.new_queued u s) [
          | inr (m, e, n, p) ↦ inl m
          | inl old ↦ elim (h.closed u old) [
            | inr done ↦ inr (λ e n.
                let (k, t) = done e n in (g.keeps_edges (edge_key e) k, g.keeps_seen e.name t))
            | inl m ↦ elim (Memᴰ.cases_cons (subst (Memᴰ u) q m)) [
              | inr l ↦ inl (g.keeps_queue u l)
              | inl p ↦ inr (λ e n.
                  let n' = subst (λ x. Memᴰ e (edges_to reverse x)) p n in
                  (g.key_seen e n', g.name_seen e n'))
            ]
          ]
        ];
      }

  pub Inv-loop :
      (fuel : ℕ) (w w' : Walk)
      → Inv w
      → walk_loop reverse fuel w ≡ some w'
      → Inv w' × (w'.queue ≡ [])
  unfolding walk_loop
  Inv-loop zero w w' h e = ground (arith, e)
  Inv-loop (suc fuel) w w' h e = elim (list_cases w.queue) [
    | inl q ↦
        let p = rw (walk_loop, q) at e in
        subst (λ (x : Walk). Inv x × (x.queue ≡ [])) (some_inj.0 p) (h, q)
    | inr (c, queue, q) ↦
        Inv-loop fuel (note_edges (edges_to reverse c) (record w { queue = queue })) w'
          (Inv-round w c queue q h) (rw (walk_loop, q) at e)
  ]

  -- Once the queue is empty, all dependents have been seen and all that requires them is listed.
  complete :
      (w : Walk)
      → Inv w
      → w.queue ≡ []
      → (u : Bytes) → Dependent u
      → is_named u w.seen_targets ≡ true
  complete w h q target here = h.source
  complete w h q v (step {u} e d m) = elim (h.closed u (complete w h q u d)) [
    | inl waiting ↦ elim (Memᴰ.not-nil (subst (Memᴰ u) q waiting)) [ ]
    | inr done ↦ (done e m).1
  ]

  pub listed :
      (w : Walk)
      → Inv w
      → w.queue ≡ []
      → (u : Bytes) (e : Edge) → Dependent u
      → Memᴰ e (edges_to reverse u)
      → (f : Edge) × Memᴰ f w.out × (edge_key f ≡ edge_key e)
  listed w h q u e d m = elim (h.closed u (complete w h q u d)) [
    | inl waiting ↦ elim (Memᴰ.not-nil (subst (Memᴰ u) q waiting)) [ ]
    | inr done ↦ h.keyed (edge_key e) (done e m).0
  ]
