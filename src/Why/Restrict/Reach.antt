-- ===== src/Why/Restrict/Reach.antt =====
-- internal/cli/why.go, restrictWhyGraph: what is reached.
use mathlib.Core.Path.{subst}
use mathlib.Core.List.{Memᴰ}
use mathlib.Core.List.Memᴰ
use gomposer.Prelude.{
  ℕ, zero, suc, ◌≤◌, ◌<◌, Bool, true, false, not, ◌&&◌, some, List, [], ◌∷◌, ◌++◌, ◌≡◌, refl, sym,
  ◌∙◌, arith, Bool-cases, inl, inr, if◌then◌else◌, map, length, &&-true,
}
use gomposer.Prelude.Bytes.{Bytes}
use gomposer.Strings.Equality.{eq_refl}
use gomposer.Table.{Table}
use gomposer.Why.{Edge, is_named}
use gomposer.Why.Names.{is_named_later, is_named_cases}
use gomposer.Why.Restrict.{reach_edge, reach_target, reach_pass, reach_loop}

-- The names of `all` that are not reached.
pub unreached : List Bytes → List Bytes → ℕ
unreached reached [] = 0
unreached reached (n ∷ all) =
    let rest = unreached reached all in if is_named n reached then rest else suc rest

pub unreached-length : (reached all : List Bytes) → unreached reached all ≤ length all
unfolding unreached
unreached-length reached [] = omega arith
unreached-length reached (n ∷ all) = ground (arith, unreached-length reached all)

unreached_fewer :
    (t : Bytes) (reached all : List Bytes) → unreached (t ∷ reached) all ≤ unreached reached all
unfolding unreached is_named
unreached_fewer t reached [] = omega arith
unreached_fewer t reached (n ∷ all) = ground (arith, unreached_fewer t reached all)

unreached_drops :
    (t : Bytes) (reached all : List Bytes)
    → is_named t reached ≡ false
    → Memᴰ t all
    → suc (unreached (t ∷ reached) all) ≤ unreached reached all
unfolding unreached is_named
unreached_drops t reached [] h m = elim (Memᴰ.not-nil m) [ ]
unreached_drops t reached (n ∷ all) h m =
    let fewer = unreached_fewer t reached all in
    elim (Memᴰ.cases_cons m) [
      | inl p ↦
          subst
            (λ (x : Bytes). suc (unreached (t ∷ reached) (x ∷ all)) ≤ unreached reached (x ∷ all)) p
            (rw (eq_refl t, h) (omega (arith, fewer)))
      | inr k ↦ ground (arith, unreached_drops t reached all h k)
    ]

-- From one state of a pass to a later one, behind the arrows `xs` from the name of an edge to a target; the targets are
-- among `all`.
record Later (all : List Bytes) (xs : List (Bytes × Edge)) (p q : List Bytes × Bool) : Type 1 where
  keeps : (v : Bytes) → is_named v p.0 ≡ true → is_named v q.0 ≡ true
  flag : p.1 ≡ true → q.1 ≡ true
  still :
      q.1 ≡ false
      → (q.0 ≡ p.0)
        × ((t : Bytes) (e : Edge)
            → Memᴰ (t, e) xs
            → is_named e.name p.0 ≡ true
            → is_named t p.0 ≡ true)
  sound :
      (P : Bytes → Type 0)
      → ((v : Bytes) → is_named v p.0 ≡ true → P v)
      → ((t : Bytes) (e : Edge) → Memᴰ (t, e) xs → P e.name → P t)
      → (v : Bytes) → is_named v q.0 ≡ true
      → P v
  fewer : unreached q.0 all ≤ unreached p.0 all
  drops : p.1 ≡ false → q.1 ≡ true → suc (unreached q.0 all) ≤ unreached p.0 all

no_flag : {b : Bool} → b ≡ false → b ≡ true → ⊥
no_flag h k = ground (arith, h, k)

Later-none : (all : List Bytes) (p : List Bytes × Bool) → Later all [] p p
Later-none all p = record {
  keeps = λ v h. h;
  flag = λ h. h;
  still = λ h. (refl, λ t e m k. elim (Memᴰ.not-nil m) [ ]);
  sound = λ P h k v m. h v m;
  fewer = omega arith;
  drops = λ h k. elim (no_flag h k) [ ];
}

unflagged : {b c : Bool} → (b ≡ true → c ≡ true) → c ≡ false → b ≡ false
unflagged {b = true} f h = elim (no_flag h (f refl)) [ ]
unflagged {b = false} f h = refl

Later-trans :
    (all : List Bytes) (xs ys : List (Bytes × Edge)) (p q r : List Bytes × Bool)
    → Later all xs p q
    → Later all ys q r
    → Later all (xs ++ ys) p r
Later-trans all xs ys p q r f g = record {
  keeps = λ v h. g.keeps v (f.keeps v h);
  flag = λ h. g.flag (f.flag h);
  still = λ h.
      let (same', closed') = g.still h in
      let (same, closed) = f.still (unflagged g.flag h) in
      (
        same' ∙ same,
        λ t e m k. elim (Memᴰ.append_cases xs m) [
          | inl n ↦ closed t e n k
          | inr n ↦
              subst (λ x. is_named t x ≡ true) same
                (closed' t e n (subst (λ x. is_named e.name x ≡ true) (sym same) k))
        ],
      );
  sound = λ P h k v m.
      g.sound P (f.sound P h (λ t e n. k t e (Memᴰ.append_left ys n)))
        (λ t e n. k t e (Memᴰ.append_right xs n)) v m;
  fewer = let a = f.fewer in let b = g.fewer in omega (arith, a, b);
  drops = λ h k. elim (Bool-cases q.1) [
    | inl c ↦ let a = f.drops h c in let b = g.fewer in omega (arith, a, b)
    | inr c ↦ let a = f.fewer in let b = g.drops c k in omega (arith, a, b)
  ];
}

Later-edge :
    (all : List Bytes) (t : Bytes) (e : Edge) (p : List Bytes × Bool)
    → Memᴰ t all
    → Later all ((t, e) ∷ []) p (reach_edge t e p)
unfolding reach_edge
Later-edge all t e (reached, changed) m =
    elim (Bool-cases (is_named e.name reached && not (is_named t reached))) [
      | inl h ↦
          let (from, new) = &&-true (is_named e.name reached) (not (is_named t reached)) h in
          let new' = not-true new in
          rw h (record {
            keeps = λ v k. is_named_later v t reached k;
            flag = λ k. refl;
            still = λ k. elim (no_flag k refl) [ ];
            sound = λ P s k v n. elim (is_named_cases v t reached n) [
              | inl q ↦ subst P q (k t e (Memᴰ.head refl) (s e.name from))
              | inr q ↦ s v q
            ];
            fewer = unreached_fewer t reached all;
            drops = λ k l. unreached_drops t reached all new' m;
          })
      | inr h ↦ rw h (record {
        keeps = λ v k. k;
        flag = λ k. k;
        fewer = omega arith;
        drops = λ k l. elim (no_flag k l) [ ];
        still = λ k. (
          refl,
          λ t' e' n l.
              let q = Memᴰ.eq_of_singleton n in
              let from = subst (λ (x : Bytes × Edge). is_named x.1.name reached ≡ true) q l in
              subst (λ (x : Bytes × Edge). is_named x.0 reached ≡ true) (sym q) (settled from h),
        );
        sound = λ P s k v n. s v n;
      })
    ]
  where
    not-true : {b : Bool} → not b ≡ true → b ≡ false
    not-true {b = true} h = ground (arith, h)
    not-true {b = false} h = refl

    settled : {a b : Bool} → a ≡ true → (a && not b) ≡ false → b ≡ true
    settled {a} {b} h k = ground (arith, h, k)

-- The edges with the names they lead to, which is where the graph keeps them.
unfoldable pub arrows : Table (List Edge) → List (Bytes × Edge)
arrows [] = []
arrows ((t, es) ∷ m) = map (λ e. (t, e)) es ++ arrows m

Later-target :
    (all : List Bytes) (t : Bytes) (es : List Edge) (p : List Bytes × Bool)
    → Memᴰ t all
    → Later all (map (λ e. (t, e)) es) p (reach_target es t p)
unfolding reach_target
Later-target all t [] p m = Later-none all p
Later-target all t (e ∷ es) p m =
    Later-trans all ((t, e) ∷ []) (map (λ e. (t, e)) es) p (reach_edge t e p)
      (reach_target es t (reach_edge t e p)) (Later-edge all t e p m)
      (Later-target all t es (reach_edge t e p) m)

abbrev pub names_of : Table (List Edge) → List Bytes
names_of m = map (λ x. x.0) m

Later-pass :
    (all : List Bytes) (m : Table (List Edge)) (p : List Bytes × Bool)
    → ((t : Bytes) → Memᴰ t (names_of m) → Memᴰ t all)
    → Later all (arrows m) p (reach_pass m p)
unfolding reach_pass arrows
Later-pass all [] p h = Later-none all p
Later-pass all ((t, es) ∷ m) p h =
    Later-trans all (map (λ e. (t, e)) es) (arrows m) p (reach_target es t p)
      (reach_pass m (reach_target es t p)) (Later-target all t es p (h t (Memᴰ.head refl)))
      (Later-pass all m (reach_target es t p) (λ u n. h u (Memᴰ.tail n)))

module _ (reverse : Table (List Edge)) (root : Bytes) where
  -- The root, and what one of these requires.
  pub data Reach : Bytes → Type 0 where
    start : Reach root
    along : {t : Bytes} (e : Edge) → Reach e.name → Memᴰ (t, e) (arrows reverse) → Reach t

  abbrev pub Good : List Bytes → Type 0
  Good reached =
      (v : Bytes) → (is_named v reached ≡ true → Reach v) × (Reach v → is_named v reached ≡ true)

  closed_complete :
      (reached : List Bytes)
      → is_named root reached ≡ true
      → ((t : Bytes) (e : Edge)
          → Memᴰ (t, e) (arrows reverse)
          → is_named e.name reached ≡ true
          → is_named t reached ≡ true)
      → (v : Bytes) → Reach v
      → is_named v reached ≡ true
  closed_complete reached h k _ start = h
  closed_complete reached h k v (along e r m) = k v e m (closed_complete reached h k e.name r)

  pub reach_loop_lem :
      (fuel : ℕ) (reached : List Bytes)
      → unreached reached (names_of reverse) < fuel
      → is_named root reached ≡ true
      → ((v : Bytes) → is_named v reached ≡ true → Reach v)
      → (out : List Bytes) × (reach_loop reverse fuel reached ≡ some out) × Good out
  unfolding reach_loop
  reach_loop_lem zero reached h r s = ground (arith, h)
  reach_loop_lem (suc fuel) reached h r s =
      let pass = reach_pass reverse (reached, false) in
      let l = Later-pass (names_of reverse) reverse (reached, false) (λ t m. m) in
      let sound = l.sound Reach s (λ t e m k. along e k m) in
      elim (Bool-cases pass.1) [
        | inl c ↦
            let less = l.drops refl c in
            let (out, e, good) =
              reach_loop_lem fuel pass.0 (omega (arith, h, less)) (l.keeps root r) sound in
            (out, rw c e, good)
        | inr c ↦
            let (same, closed) = l.still c in
            (
              pass.0,
              rw c refl,
              λ v. (sound v, λ k. l.keeps v (closed_complete reached r closed v k)),
            )
      ]
