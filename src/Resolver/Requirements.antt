-- ===== src/Resolver/Requirements.antt =====
-- internal/resolver/solve.go: the assignments of level 0 through the main loop.
use mathlib.Core.Path.{subst}
use mathlib.Core.List.{append_assoc}
use gomposer.Prelude.{
  All, ℕ, zero, suc, ◌+◌, true, Option, none, some, List, [], ◌∷◌, ◌++◌, ◌≡◌, refl, ap, sym, ◌∙◌,
  arith, leb, Bool-cases, inl, inr,
}
use gomposer.Prelude.Bytes.{Bytes}
use gomposer.Resolver.Term.{inverse}
use gomposer.Resolver.Incompatibility.{Incompatibility, is_failure}
use gomposer.Resolver.Solution.{
  Assignment, decision, derivation, level_of, PartialSolution, decide_version, derive, keep_levels,
  backtrack,
}
use gomposer.Resolver.Propagate.{Propagated, propagate}
use gomposer.Resolver.Conflict.{conflict_resolution}
use gomposer.Resolver.Versions.{VersionLister}
use gomposer.Resolver.Decide.{
  undecided_packages, Decided, all_done, made, no_candidates, lookup_error, out_of_range, decide,
}
use gomposer.Resolver.Solve.{
  Outcome, solved, Next, after_resolution, after_decide, after_propagate, step, seed_of, solve_loop,
}
use gomposer.Resolver.Firing.{Firing}
use gomposer.Resolver.Termination.{OnPropagated, propagate_induction}
use gomposer.Resolver.Walk.{IsSound, decide_version-IsSound, backtrack-IsSound, Firing-IsSound}
use gomposer.Resolver.Choosing.{OnDecided, decide_fits}

-- The assignments begin with these.
abbrev pub Begins : List Assignment → PartialSolution → Type 0
Begins rs ps = (rest : List Assignment) × (ps.assignments ≡ rs ++ rest)

-- What the loop keeps: a sound partial solution that begins with the derivations of the roots.
pub record Kept (rs : List Assignment) (ps : PartialSolution) : Type 0 where
  pub sound : IsSound ps
  pub begins : Begins rs ps

abbrev pub AtZero : List Assignment → Type 0
AtZero = All (λ a. level_of a ≡ 0)

Begins_snoc :
    (rs xs : List Assignment) (a : Assignment)
    → (rest : List Assignment) × (xs ≡ rs ++ rest)
    → (rest : List Assignment) × (xs ++ a ∷ [] ≡ rs ++ rest)
Begins_snoc rs xs a (rest, e) = (rest ++ a ∷ [], rw (e, append_assoc))

keep_levels-Begins :
    (n : ℕ) (rs rest : List Assignment)
    → AtZero rs
    → keep_levels n (rs ++ rest) ≡ rs ++ keep_levels n rest
unfolding keep_levels
keep_levels-Begins n [] rest h = refl
keep_levels-Begins n (a ∷ rs) rest (h, hs) =
    let low : leb (level_of a) n ≡ true = ground arith in
    rw low (ap (λ t. a ∷ t) (keep_levels-Begins n rs rest hs))

module _ (rs : List Assignment) (zeros : AtZero rs) where
  Firing-Kept :
      (ps ps' : PartialSolution) (ic : Incompatibility)
      → Firing ps ps' ic
      → Kept rs ps
      → Kept rs ps'
  Firing-Kept ps ps' ic f k = record {
    sound = Firing-IsSound ps ps' ic f k.sound;
    begins = subst (Begins rs) (sym f.derives) (
        unfold derive in
        Begins_snoc rs ps.assignments (derivation (inverse f.fact) ic ps.level) k.begins);
  }

  backtrack-Kept : (ps : PartialSolution) (n : ℕ) → Kept rs ps → Kept rs (backtrack ps n)
  unfolding backtrack
  backtrack-Kept ps n k = record {
    sound = backtrack-IsSound ps n k.sound;
    begins = (
      keep_levels n k.begins.0,
      ap (keep_levels n) k.begins.1 ∙ keep_levels-Begins n rs k.begins.0 zeros,
    );
  }

  -- A solution is such a partial solution, and leaves nothing undecided.
  abbrev pub OutcomeKept : Outcome → Type 0
  OutcomeKept (solved ps vl) = Kept rs ps × (undecided_packages ps ≡ [])
  OutcomeKept _ = Unit

  abbrev pub NextKept : Next → Type 0
  NextKept next =
      (ps : PartialSolution) (ics : List Incompatibility) (vl : VersionLister) (seed : Bytes)
      → Kept rs ps
      → OutcomeKept (next ps ics vl seed)

  decide_version-Kept :
      (ps ps' : PartialSolution) (p : Bytes) (new : List Incompatibility)
      → Kept rs ps
      → OnDecided ps (made p ps' new)
      → Kept rs ps'
  decide_version-Kept ps ps' p new k (v, e, h, f) = record {
    sound = subst IsSound (sym e) (decide_version-IsSound ps p v k.sound h f);
    begins = subst (Begins rs) (sym e) (
        unfold decide_version in
        Begins_snoc rs ps.assignments (decision p v (ps.level + 1)) k.begins);
  }

  after_decide-Kept :
      (ps : PartialSolution) (ics : List Incompatibility) (r : VersionLister × Decided)
      (next : Next)
      → Kept rs ps
      → OnDecided ps r.1
      → NextKept next
      → OutcomeKept (after_decide ps ics r next)
  after_decide-Kept ps ics (vl, lookup_error e) next k h n = tt
  after_decide-Kept ps ics (vl, out_of_range) next k h n = tt
  after_decide-Kept ps ics (vl, all_done) next k h n = (k, h)
  after_decide-Kept ps ics (vl, made p ps' new) next k h n =
      n ps' _ vl p (decide_version-Kept ps ps' p new k h)
  after_decide-Kept ps ics (vl, no_candidates p ic) next k h n = n ps _ vl p k

  after_resolution-Kept :
      (ps : PartialSolution) (ics : List Incompatibility) (vl : VersionLister)
      (o : Option (Incompatibility × ℕ)) (next : Next)
      → Kept rs ps
      → NextKept next
      → OutcomeKept (after_resolution ps ics vl o next)
  after_resolution-Kept ps ics vl none next k n = tt
  after_resolution-Kept ps ics vl (some (ic, target)) next k n = elim (Bool-cases (is_failure ic)) [
    | inl e ↦ rw e tt
    | inr e ↦ rw e (n (backtrack ps target) _ vl _ (backtrack-Kept ps target k))
  ]

  after_propagate-Kept :
      (fuel : ℕ) (ics : List Incompatibility) (vl : VersionLister) (r : Propagated) (next : Next)
      → OnPropagated (Kept rs) r
      → NextKept next
      → OutcomeKept (after_propagate fuel ics vl r next)
  after_propagate-Kept fuel ics vl none next k n = tt
  after_propagate-Kept fuel ics vl (some (ps, some ic)) next k n =
      after_resolution-Kept ps ics vl (conflict_resolution fuel ps ic) next k n
  after_propagate-Kept fuel ics vl (some (ps, none)) next k n =
      after_decide-Kept ps ics (decide ps vl) next k (decide_fits ps vl) n

  step-Kept :
      (fuel : ℕ) (ps : PartialSolution) (ics : List Incompatibility) (vl : VersionLister)
      (seed : Bytes) (next : Next)
      → Kept rs ps
      → NextKept next
      → OutcomeKept (step fuel ps ics vl seed next)
  step-Kept fuel ps ics vl [] next k n =
      after_decide-Kept ps ics (decide ps vl) next k (decide_fits ps vl) n
  step-Kept fuel ps ics vl (c ∷ seed) next k n =
      after_propagate-Kept fuel ics vl (propagate ps ics (c ∷ seed)) next
        (propagate_induction (Kept rs) Firing-Kept ps ics (c ∷ seed) k) n

  pub solve_loop-Kept : (fuel steps : ℕ) → NextKept (solve_loop fuel steps)
  unfolding solve_loop
  solve_loop-Kept fuel zero ps ics vl seed k = tt
  solve_loop-Kept fuel (suc steps) ps ics vl seed k =
      step-Kept fuel ps ics vl (seed_of ics seed) _ k (solve_loop-Kept fuel steps)
