-- ===== src/Resolver/Propagate.antt =====
-- internal/resolver/propagate.go: unit propagation.
use gomposer.Prelude.{
  ℕ, zero, suc, ◌+◌, Bool, true, false, Option, none, some, List, [], ◌∷◌, ◌++◌, ◌==◌,
  if◌then◌else◌, any, get_elem?, length,
}
use gomposer.Prelude.Bytes.{Bytes}
use gomposer.Strings.{eq}
use gomposer.Resolver.Term.{Term, inverse, disjoint, subset, overlapping}
use gomposer.Resolver.Incompatibility.{Incompatibility, terms}
use gomposer.Resolver.Solution.{PartialSolution, derive, relation_of}

-- The three results of classifyIncompatibility; `derived` has the index of the open term.
pub data Status : Type 0 where
  no_change : Status
  derived : ℕ → Status
  conflicting : Status

abbrev status_at_end : Bool → ℕ → ℕ → Status
status_at_end all_subset count last =
    if all_subset then conflicting else if count == 1 then derived last else no_change

-- The loop over the terms: `i` is the index, then allSubset, overlapCount and overlapIdx.
unfoldable pub classify_loop : PartialSolution → ℕ → Bool → ℕ → ℕ → List Term → Status
classify_loop ps i all_subset count last [] = status_at_end all_subset count last
classify_loop ps i all_subset count last (t ∷ ts) = elim (relation_of ps t) [
  | disjoint ↦ no_change
  | overlapping ↦ classify_loop ps (i + 1) false (count + 1) i ts
  | subset ↦ classify_loop ps (i + 1) all_subset count last ts
]

unfoldable pub classify_incompatibility : PartialSolution → Incompatibility → Status
unfolding classify_loop
classify_incompatibility ps ic = classify_loop ps 0 true 0 0 (terms ic)

unfoldable pub mentions_package : Incompatibility → Bytes → Bool
mentions_package ic pkg = any (λ t. eq t.pkg pkg) (terms ic)

-- What one call of propagateOnce does: `fired` has the new partial solution and the cause.
pub data Round : Type 0 where
  steady : Round
  fired : PartialSolution → Incompatibility → Round
  clash : Incompatibility → Round

-- `ps.Derive(ic.Terms[idx].Inverse(), ic)`; an index out of range would be a panic.
abbrev pub fire : PartialSolution → Incompatibility → Option Term → Round
fire ps ic none = steady
fire ps ic (some t) = fired (derive ps (inverse t) ic) ic

abbrev pub round_of : PartialSolution → Incompatibility → Status → Round → Round
round_of ps ic conflicting later = clash ic
round_of ps ic (derived i) later = fire ps ic (get_elem? (terms ic) i)
round_of ps ic no_change later = later

unfoldable pub propagate_once : PartialSolution → List Incompatibility → Bytes → Round
propagate_once ps [] pkg = steady
propagate_once ps (ic ∷ ics) pkg =
    let later = propagate_once ps ics pkg in
    if mentions_package ic pkg then round_of ps ic (classify_incompatibility ps ic) later else later

unfoldable pub is_member : Bytes → List Bytes → Bool
is_member p ps = any (λ q. eq q p) ps

-- The packages of the terms that are not seen yet, each once: those to queue.
unfoldable pub unseen : List Bytes → List Term → List Bytes
unseen seen [] = []
unseen seen (t ∷ ts) =
    let old = unseen seen ts in
    let new = unseen (t.pkg ∷ seen) ts in if is_member t.pkg seen then old else t.pkg ∷ new

-- The partial solution in the end, with the conflict if there is one. `none` belongs to the
-- model: the fuel ran out.
abbrev pub Propagated : Type 0
Propagated = Option (PartialSolution × Option Incompatibility)

-- How the loops of propagate go on after a round: the package stays at the head of the worklist as
-- long as rounds fire, and what is not seen yet is queued behind.
abbrev pub after_round :
    Round
    → PartialSolution
    → Bytes
    → List Bytes
    → List Bytes
    → (PartialSolution → List Bytes → List Bytes → Propagated)
    → Propagated
after_round (clash ic) ps pkg work seen next = some (ps, some ic)
after_round steady ps pkg work seen next = next ps work seen
after_round (fired ps' ic) ps pkg work seen next =
    next ps' (pkg ∷ (work ++ unseen seen (terms ic))) (unseen seen (terms ic) ++ seen)

unfoldable pub propagate_loop :
    ℕ → PartialSolution → List Incompatibility → List Bytes → List Bytes → Propagated
propagate_loop f ps ics [] seen = some (ps, none)
propagate_loop zero ps ics (pkg ∷ work) seen = none
propagate_loop (suc f) ps ics (pkg ∷ work) seen =
    after_round (propagate_once ps ics pkg) ps pkg work seen
      (λ ps' work' seen'. propagate_loop f ps' ics work' seen')

-- All terms of the incompatibilities.
abbrev pub all_terms : List Incompatibility → List Term
all_terms [] = []
all_terms (ic ∷ ics) = terms ic ++ all_terms ics

-- propagate, with fuel for a round that fires at each term and for each package once.
unfoldable pub propagate : PartialSolution → List Incompatibility → Bytes → Propagated
propagate ps ics seed =
    propagate_loop (length (all_terms ics) + length (all_terms ics) + 1) ps ics (seed ∷ [])
      (seed ∷ [])
