-- ===== src/Resolver/Propagation.antt =====
-- internal/resolver/propagate.go: unit propagation and choices of versions.
use mathlib.Core.Path.{subst}
use gomposer.Prelude.{
  ℕ, zero, suc, Bool, true, false, not, Option, none, some, List, [], ◌∷◌, ◌≡◌, refl, arith, inl,
  inr, get_elem?, all, if◌then◌else◌, ◌&&◌, Bool-cases, ap, &&-true,
}
use gomposer.Prelude.Bytes.{Bytes}
use gomposer.Strings.{eq}
use gomposer.Strings.Equality.{eq_iff}
use gomposer.Constraint.Version.{Version}
use gomposer.Resolver.Term.{
  Term, term_satisfies, inverse, same_sign, same_text, Relation, disjoint, subset, overlapping,
}
use gomposer.Resolver.Incompatibility.{Incompatibility, terms}
use gomposer.Resolver.Solution.{
  Assignment, decision, derivation, PartialSolution, derive, relation_when, relation_to_derivations,
  relation_of,
}
use gomposer.Resolver.Propagate.{
  Status, no_change, derived, conflicting, Round, steady, fired, clash, classify_incompatibility,
  fire, round_of, propagate_once, propagate_loop, mentions_package, Propagated, after_round,
  propagate,
}
use gomposer.Resolver.Meaning.{
  Choice, holds, holds-inverse, violates, All, All-append, FromText, same_term_eq, inverse-FromText,
}
use gomposer.Resolver.Classify.{AllSubset, OnlyOpen, classify_incompatibility_iff}

-- The derived term of an assignment has the property.
abbrev pub OnTerm {ℓ} : (Term → Type ℓ) → Assignment → Type ℓ
OnTerm P (decision p v n) = Unit
OnTerm P (derivation t ic n) = P t

-- The choice takes every decided version, and every derived term holds of it.
pub record Agrees (σ : Choice) (ps : PartialSolution) : Type 0 where
  pub decided : (p : Bytes) (v : Version) → ps.decisions p ≡ some v → σ p ≡ some v
  pub derived : All (OnTerm (λ t. holds σ t ≡ true)) ps.assignments

-- Every derived constraint is read off its text.
abbrev pub SolutionFromText : PartialSolution → Type 0
SolutionFromText ps = All (OnTerm FromText) ps.assignments

abbrev pub AllFromText : List Incompatibility → Type 0
AllFromText = All (λ ic. All FromText (terms ic))

abbrev pub Avoids : Choice → List Incompatibility → Type 0
Avoids σ = All (λ ic. violates σ ic ≡ false)

module _ (d t : Term) (fd : FromText d) (ft : FromText t) (p : d.pkg ≡ t.pkg) where
  equal_term : d.constraint.original ≡ t.constraint.original → d.positive ≡ t.positive → d ≡ t
  equal_term o s = same_term_eq d t fd ft p s o

  inverse_term :
      d.constraint.original ≡ t.constraint.original → d.positive ≡ not t.positive → d ≡ inverse t
  unfolding inverse
  inverse_term o s = same_term_eq d (inverse t) fd (inverse-FromText t ft) p s o

module _ (σ : Choice) where
  -- What a derivation with the same text says of a term.
  same_text-holds :
      (d t : Term)
      → FromText d
      → FromText t
      → eq d.pkg t.pkg ≡ true
      → same_text d t ≡ true
      → holds σ d ≡ true
      → holds σ t ≡ same_sign d.positive t.positive
  unfolding same_text
  same_text-holds d t fd ft p s h =
      let pkgs = (eq_iff d.pkg t.pkg).0 p in
      let texts = (eq_iff d.constraint.original t.constraint.original).0 s in
      let same =
        λ (e : d.positive ≡ t.positive). ap (holds σ) (equal_term d t fd ft pkgs texts e) in
      let other =
        λ (e : d.positive ≡ not t.positive). ap (holds σ) (inverse_term d t fd ft pkgs texts e) in
      ground (arith, holds-inverse σ t, same, other)

  -- The verdict `subset` says that the term holds, and `disjoint` that it does not.
  abbrev Verdict : Relation → Term → Type 0
  Verdict disjoint t = holds σ t ≡ false
  Verdict subset t = holds σ t ≡ true
  Verdict overlapping t = Unit

  Verdict-of_sign :
      (b : Bool) (t : Term) → holds σ t ≡ b → Verdict (if b then subset else disjoint) t
  Verdict-of_sign true t h = h
  Verdict-of_sign false t h = h

  relation_to_derivations_sound :
      (xs : List Assignment) (t : Term)
      → FromText t
      → All (OnTerm FromText) xs
      → All (OnTerm (λ u. holds σ u ≡ true)) xs
      → Verdict (relation_to_derivations xs t) t
  unfolding relation_to_derivations
  relation_to_derivations_sound [] t ft fx h = tt
  relation_to_derivations_sound (decision p v n ∷ xs) t ft (_, fx) (_, h) =
      relation_to_derivations_sound xs t ft fx h
  relation_to_derivations_sound (derivation d ic n ∷ xs) t ft (fd, fx) (hd, h) =
      let ih = relation_to_derivations_sound xs t ft fx h in
      elim (Bool-cases (eq d.pkg t.pkg && same_text d t)) [
        | inr e ↦ rw e ih
        | inl e ↦
            let (p, s) = &&-true (eq d.pkg t.pkg) (same_text d t) e in
            rw e (
              Verdict-of_sign (same_sign d.positive t.positive) t
                (same_text-holds d t fd ft p s hd))
      ]

  relation_when_sound :
      (o : Option Version) (xs : List Assignment) (t : Term)
      → ((v : Version) → o ≡ some v → σ t.pkg ≡ some v)
      → Verdict (relation_to_derivations xs t) t
      → Verdict (relation_when o xs t) t
  unfolding holds
  relation_when_sound none xs t k h = h
  relation_when_sound (some v) xs t k h =
      Verdict-of_sign (term_satisfies t v) t (rw (k v refl, holds))

  pub relation_of_sound :
      (ps : PartialSolution) (t : Term)
      → SolutionFromText ps
      → Agrees σ ps
      → FromText t
      → Verdict (relation_of ps t) t
  unfolding relation_of
  relation_of_sound ps t fs g ft =
      relation_when_sound (ps.decisions t.pkg) ps.assignments t (g.decided t.pkg)
        (relation_to_derivations_sound ps.assignments t ft fs g.derived)

  -- All implied terms hold.
  AllSubset-holds :
      (ps : PartialSolution) (ts : List Term)
      → SolutionFromText ps
      → Agrees σ ps
      → All FromText ts
      → AllSubset ps ts
      → all (holds σ) ts ≡ true
  AllSubset-holds ps [] fs g ft h = refl
  AllSubset-holds ps (t ∷ ts) fs g (ft, fts) (h, hs) =
      let v : holds σ t ≡ true = subst (λ r. Verdict r t) h (relation_of_sound ps t fs g ft) in
      rw v (AllSubset-holds ps ts fs g fts hs)

  -- Where all the other terms hold, the open one cannot.
  OnlyOpen-fails :
      (ps : PartialSolution) (k : ℕ) (ts : List Term) (t : Term)
      → SolutionFromText ps
      → Agrees σ ps
      → All FromText ts
      → OnlyOpen ps k ts
      → get_elem? ts k ≡ some t
      → all (holds σ) ts ≡ false
      → (holds σ t ≡ false) × FromText t
  OnlyOpen-fails ps k [] t fs g ft h e n = absurd h
  OnlyOpen-fails ps zero (u ∷ ts) t fs g (fu, fts) (h, hs) e n =
      let same : u ≡ t = cc in
      let k = AllSubset-holds ps ts fs g fts hs in
      (ground (arith, ap (holds σ) same, k, n), subst FromText same fu)
  OnlyOpen-fails ps (suc k) (u ∷ ts) t fs g (fu, fts) (h, hs) e n =
      let v : holds σ u ≡ true = subst (λ r. Verdict r u) h (relation_of_sound ps u fs g fu) in
      OnlyOpen-fails ps k ts t fs g fts hs e (ground (arith, v, n))

  derive-Agrees :
      (ps : PartialSolution) (t : Term) (ic : Incompatibility)
      → Agrees σ ps
      → holds σ t ≡ true
      → Agrees σ (derive ps t ic)
  unfolding derive
  derive-Agrees ps t ic g h = record {
    decided = g.decided;
    derived = All-append _ ps.assignments (derivation t ic ps.level ∷ []) g.derived (h, tt);
  }

  derive-FromText :
      (ps : PartialSolution) (t : Term) (ic : Incompatibility)
      → SolutionFromText ps
      → FromText t
      → SolutionFromText (derive ps t ic)
  unfolding derive
  derive-FromText ps t ic fs ft =
      All-append _ ps.assignments (derivation t ic ps.level ∷ []) fs (ft, tt)

  -- A round that fires keeps the choice, and no round clashes.
  abbrev RoundKeeps : Round → Type 0
  RoundKeeps steady = Unit
  RoundKeeps (fired ps ic) = SolutionFromText ps × Agrees σ ps
  RoundKeeps (clash ic) = ⊥

  fire_keeps :
      (ps : PartialSolution) (ic : Incompatibility) (k : ℕ) (o : Option Term)
      → get_elem? (terms ic) k ≡ o
      → SolutionFromText ps
      → Agrees σ ps
      → All FromText (terms ic)
      → violates σ ic ≡ false
      → OnlyOpen ps k (terms ic)
      → RoundKeeps (fire ps ic o)
  unfolding violates
  fire_keeps ps ic k none e fs g ft n h = tt
  fire_keeps ps ic k (some t) e fs g ft n h =
      let (ht, fromt) = OnlyOpen-fails ps k (terms ic) t fs g ft h e n in
      (
        derive-FromText ps (inverse t) ic fs (inverse-FromText t fromt),
        derive-Agrees ps (inverse t) ic g (rw (holds-inverse σ t, ht)),
      )

  round_keeps :
      (ps : PartialSolution) (ic : Incompatibility) (later : Round) (st : Status)
      → classify_incompatibility ps ic ≡ st
      → SolutionFromText ps
      → Agrees σ ps
      → All FromText (terms ic)
      → violates σ ic ≡ false
      → RoundKeeps later
      → RoundKeeps (round_of ps ic st later)
  unfolding violates
  round_keeps ps ic later no_change e fs g ft n h = h
  round_keeps ps ic later (derived k) e fs g ft n h =
      fire_keeps ps ic k (get_elem? (terms ic) k) refl fs g ft n
        (((classify_incompatibility_iff ps ic).1 k).0 e)
  round_keeps ps ic later conflicting e fs g ft n h =
      let hold =
        AllSubset-holds ps (terms ic) fs g ft ((classify_incompatibility_iff ps ic).0.0 e) in
      cc

  propagate_once_keeps :
      (ps : PartialSolution) (ics : List Incompatibility) (pkg : Bytes)
      → SolutionFromText ps
      → Agrees σ ps
      → AllFromText ics
      → Avoids σ ics
      → RoundKeeps (propagate_once ps ics pkg)
  unfolding propagate_once
  propagate_once_keeps ps [] pkg fs g ft n = tt
  propagate_once_keeps ps (ic ∷ ics) pkg fs g (ft, fts) (n, ns) =
      let ih = propagate_once_keeps ps ics pkg fs g fts ns in
      elim (Bool-cases (mentions_package ic pkg)) [
        | inl e ↦ rw e (round_keeps ps ic _ (classify_incompatibility ps ic) refl fs g ft n ih)
        | inr e ↦ rw e ih
      ]

  -- A result of `propagate` that keeps the choice: no conflict, and a partial solution that agrees.
  abbrev pub LoopKeeps : Propagated → Type 0
  LoopKeeps none = Unit
  LoopKeeps (some (ps, none)) = SolutionFromText ps × Agrees σ ps
  LoopKeeps (some (ps, some ic)) = ⊥

  after_round_keeps :
      (ps : PartialSolution) (pkg : Bytes) (work seen : List Bytes)
      (next : PartialSolution → List Bytes → List Bytes → Propagated)
      → ((ps' : PartialSolution) (w s : List Bytes)
          → SolutionFromText ps'
          → Agrees σ ps'
          → LoopKeeps (next ps' w s))
      → SolutionFromText ps
      → Agrees σ ps
      → (r : Round) → RoundKeeps r
      → LoopKeeps (after_round r ps pkg work seen next)
  after_round_keeps ps pkg work seen next ih fs g steady k = ih ps work seen fs g
  after_round_keeps ps pkg work seen next ih fs g (fired ps' ic) k = ih ps' _ _ k.0 k.1
  after_round_keeps ps pkg work seen next ih fs g (clash ic) k = absurd k

  propagate_loop_keeps :
      (f : ℕ) (ps : PartialSolution) (ics : List Incompatibility) (work seen : List Bytes)
      → SolutionFromText ps
      → Agrees σ ps
      → AllFromText ics
      → Avoids σ ics
      → LoopKeeps (propagate_loop f ps ics work seen)
  unfolding propagate_loop
  propagate_loop_keeps f ps ics [] seen fs g ft n = (fs, g)
  propagate_loop_keeps zero ps ics (pkg ∷ work) seen fs g ft n = tt
  propagate_loop_keeps (suc f) ps ics (pkg ∷ work) seen fs g ft n =
      after_round_keeps ps pkg work seen (λ ps' w s. propagate_loop f ps' ics w s)
        (λ ps' w s fs' g'. propagate_loop_keeps f ps' ics w s fs' g' ft n) fs g
        (propagate_once ps ics pkg) (propagate_once_keeps ps ics pkg fs g ft n)

  -- Where every constraint is what Parse makes of its text, propagation loses no solution: a choice that agrees with the partial solution and violates no
  -- incompatibility agrees with what is derived, and a conflict is answered only if there is no such choice.
  pub propagate_keeps :
      (ps : PartialSolution) (ics : List Incompatibility) (seed : Bytes)
      → SolutionFromText ps
      → Agrees σ ps
      → AllFromText ics
      → Avoids σ ics
      → LoopKeeps (propagate ps ics seed)
  unfolding propagate
  propagate_keeps ps ics seed = propagate_loop_keeps _ ps ics (seed ∷ []) (seed ∷ [])
