-- ===== src/Resolver/Classify.antt =====
-- internal/resolver/propagate.go: the answers of classifyIncompatibility.
use gomposer.Prelude.{
  ℕ, zero, suc, ◌+◌, ◌≤◌, true, false, some, List, [], ◌∷◌, ◌≡◌, ◌≢◌, refl, arith, ◌↔◌, get_elem?,
}
use native.Mathlib.Nat.{zero-add}
use gomposer.Resolver.Term.{Term, subset, overlapping}
use gomposer.Resolver.Incompatibility.{Incompatibility, terms}
use gomposer.Resolver.Solution.{PartialSolution, relation_of}
use gomposer.Resolver.Propagate.{
  no_change, derived, conflicting, classify_loop, classify_incompatibility,
}
use gomposer.Resolver.Meaning.{All}

module _ (ps : PartialSolution) where
  -- Every term is implied by the partial solution.
  abbrev pub AllSubset : List Term → Type 0
  AllSubset = All (λ t. relation_of ps t ≡ subset)

  -- The term at this index is open, and all the others are implied.
  abbrev pub OnlyOpen : ℕ → List Term → Type 0
  OnlyOpen i [] = ⊥
  OnlyOpen zero (t ∷ ts) = (relation_of ps t ≡ overlapping) × AllSubset ts
  OnlyOpen (suc i) (t ∷ ts) = (relation_of ps t ≡ subset) × OnlyOpen i ts

  -- Two open terms or more: nothing follows.
  many_open :
      (i c last : ℕ) (ts : List Term) → classify_loop ps i false (suc (suc c)) last ts ≡ no_change
  unfolding classify_loop
  many_open i c last [] = ground arith
  many_open i c last (t ∷ ts) =
      ground (arith, many_open (i + 1) c last ts, many_open (i + 1) (suc c) i ts)

  one_open_derived :
      (i last k : ℕ) (ts : List Term)
      → (classify_loop ps i false 1 last ts ≡ derived k) ↔ ((k ≡ last) × AllSubset ts)
  unfolding classify_loop
  one_open_derived i last k [] = ground arith
  one_open_derived i last k (t ∷ ts) =
      ground (arith, one_open_derived (i + 1) last k ts, many_open (i + 1) 0 i ts)

  one_open_conflicting :
      (i last : ℕ) (ts : List Term) → classify_loop ps i false 1 last ts ≢ conflicting
  unfolding classify_loop
  one_open_conflicting i last [] = ground arith
  one_open_conflicting i last (t ∷ ts) =
      ground (arith, one_open_conflicting (i + 1) last ts, many_open (i + 1) 0 i ts)

  none_open_conflicting :
      (i : ℕ) (ts : List Term) → (classify_loop ps i true 0 0 ts ≡ conflicting) ↔ AllSubset ts
  unfolding classify_loop
  none_open_conflicting i [] = ground arith
  none_open_conflicting i (t ∷ ts) =
      ground (arith, none_open_conflicting (i + 1) ts, one_open_conflicting (i + 1) i ts)

  derived-le : (i k : ℕ) (ts : List Term) → classify_loop ps i true 0 0 ts ≡ derived k → i ≤ k
  unfolding classify_loop
  derived-le i k [] h = ground arith
  derived-le i k (t ∷ ts) h =
      ground (arith, derived-le (i + 1) k ts, one_open_derived (i + 1) i k ts)

  none_open_derived :
      (i k : ℕ) (ts : List Term)
      → (classify_loop ps i true 0 0 ts ≡ derived (i + k)) ↔ OnlyOpen k ts
  unfolding classify_loop
  none_open_derived i k [] = ground arith
  none_open_derived i zero (t ∷ ts) =
      ground (arith, one_open_derived (i + 1) i (i + 0) ts, derived-le (i + 1) (i + 0) ts)
  none_open_derived i (suc k) (t ∷ ts) =
      ground (arith, none_open_derived (i + 1) k ts, one_open_derived (i + 1) i (i + suc k) ts)

  classify_by_loop :
      (ic : Incompatibility)
      → classify_incompatibility ps ic ≡ classify_loop ps 0 true 0 0 (terms ic)
  classify_by_loop ic = unfold classify_incompatibility in refl

  -- The answer is a conflict exactly if the partial solution implies every term, and it is a derivation
  -- at an index exactly if the term there is open and all the others are implied.
  pub classify_incompatibility_iff :
      (ic : Incompatibility)
      → ((classify_incompatibility ps ic ≡ conflicting) ↔ AllSubset (terms ic))
        × ((k : ℕ) → (classify_incompatibility ps ic ≡ derived k) ↔ OnlyOpen k (terms ic))
  classify_incompatibility_iff ic =
      rw (classify_by_loop ic)
        (none_open_conflicting 0 (terms ic), λ k. rw zero-add at (none_open_derived 0 k (terms ic)))

  -- An index that is answered lies in the list, and has the open term.
  pub OnlyOpen-get_elem? :
      (k : ℕ) (ts : List Term)
      → OnlyOpen k ts
      → (t : Term) × (get_elem? ts k ≡ some t) × (relation_of ps t ≡ overlapping)
  OnlyOpen-get_elem? k [] h = absurd h
  OnlyOpen-get_elem? zero (t ∷ ts) (h, hs) = (t, refl, h)
  OnlyOpen-get_elem? (suc k) (t ∷ ts) (h, hs) = OnlyOpen-get_elem? k ts hs
