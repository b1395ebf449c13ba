-- ===== src/Resolver/Fresh.antt =====
-- What is settled where nothing is undecided, and the partial solution that internal/resolver/solve.go starts from.
use mathlib.Core.List.{append_assoc, append-nil}
use gomposer.Prelude.{
  All, true, none, some, List, [], ◌∷◌, ◌++◌, ◌≡◌, refl, ap, sym, ◌∙◌, arith, Bool-cases,
  Option-cases, inl, inr,
}
use gomposer.Prelude.Bytes.{Bytes}
use gomposer.Constraint.Version.{Version}
use gomposer.Resolver.Term.{Term, term_satisfies, inverse}
use gomposer.Resolver.Incompatibility.{Incompatibility, terms}
use gomposer.Resolver.Solution.{
  Assignment, decision, derivation, Decisions, no_decisions, PartialSolution, new_partial_solution,
  derive, rebuild,
}
use gomposer.Resolver.Propagate.{is_member}
use gomposer.Resolver.Decide.{undecided_from, undecided_packages}
use gomposer.Resolver.Solve.{derive_second, derive_roots}
use gomposer.Resolver.Walk.{IsSound, Respects, derived_terms, Walk-Respects, derive-IsSound}
use gomposer.Resolver.Requirements.{AtZero}

abbrev pub OnTerm : (Term → Type 0) → Assignment → Type 0
OnTerm P (decision p v n) = Unit
OnTerm P (derivation t ic n) = P t

derived_terms-All :
    (P : Term → Type 0) (ts : List Term) (xs : List Assignment)
    → All P (derived_terms ts xs)
    → All P ts × All (OnTerm P) xs
derived_terms-All P ts [] h = (h, tt)
derived_terms-All P ts (decision p v n ∷ xs) h =
    let (a, b) = derived_terms-All P ts xs h in (a, (tt, b))
derived_terms-All P ts (derivation t ic n ∷ xs) h =
    let (a, b) = derived_terms-All P (t ∷ ts) xs h in (a.1, (a.0, b))

-- Where no package is listed, each positive derived term is about a decided one.
nothing_undecided :
    (d : Decisions) (xs : List Assignment)
    → undecided_from d [] xs ≡ []
    → All (OnTerm (λ t. t.positive ≡ true → (v : Version) × (d t.pkg ≡ some v))) xs
unfolding undecided_from is_member
nothing_undecided d [] h = tt
nothing_undecided d (decision p v n ∷ xs) h = (tt, nothing_undecided d xs h)
nothing_undecided d (derivation t ic n ∷ xs) h = elim (Option-cases (d t.pkg)) [
  | inr (v, e) ↦ ((λ s. (v, e)), nothing_undecided d xs (ground (arith, h, e)))
  | inl e ↦ elim (Bool-cases t.positive) [
    | inl s ↦ absurd (ground (arith, h, e, s))
    | inr s ↦ ((λ s'. absurd (ground arith)), nothing_undecided d xs (ground (arith, h, e, s)))
  ]
]

-- A version is decided of the package, and it satisfies the term.
abbrev pub Settled : Decisions → Term → Type 0
Settled d t = t.positive ≡ true → (v : Version) × (d t.pkg ≡ some v) × (term_satisfies t v ≡ true)

pub both :
    (d : Decisions) (xs : List Assignment)
    → All (OnTerm (λ t. t.positive ≡ true → (v : Version) × (d t.pkg ≡ some v))) xs
    → All (OnTerm (λ t. (v : Version) → d t.pkg ≡ some v → term_satisfies t v ≡ true)) xs
    → All (OnTerm (Settled d)) xs
both d [] h k = tt
both d (decision p v n ∷ xs) (h, hs) (k, ks) = (tt, both d xs hs ks)
both d (derivation t ic n ∷ xs) (h, hs) (k, ks) =
    ((λ s. let (v, e) = h s in (v, e, k v e)), both d xs hs ks)

Respects-path :
    (d e : Decisions) (ts : List Term) → ((p : Bytes) → d p ≡ e p) → Respects e ts → Respects d ts
Respects-path d e [] h r = tt
Respects-path d e (t ∷ ts) h (r, rs) = ((λ v k. r v (sym (h t.pkg) ∙ k)), Respects-path d e ts h rs)

pub all_settled :
    (ps : PartialSolution)
    → IsSound ps
    → undecided_packages ps ≡ []
    → All (OnTerm (Settled ps.decisions)) ps.assignments
unfolding undecided_packages
all_settled ps s h =
    let r = Walk-Respects no_decisions [] ps.assignments s.walk tt in
    let r' = Respects-path ps.decisions _ (derived_terms [] ps.assignments) s.decided r in
    both ps.decisions ps.assignments (nothing_undecided ps.decisions ps.assignments h)
      (derived_terms-All _ [] ps.assignments r').1

pub All-append_left {ℓ κ} :
    {A : Type ℓ} (P : A → Type κ) (xs ys : List A) → All P (xs ++ ys) → All P xs
All-append_left P [] ys h = tt
All-append_left P (x ∷ xs) ys (p, h) = (p, All-append_left P xs ys h)

-- The derivations that stand for incompatibilities of two terms.
abbrev pub second_derivation : Incompatibility → List Term → List Assignment
second_derivation ic (r ∷ t ∷ []) = derivation (inverse t) ic 0 ∷ []
second_derivation ic _ = []

unfoldable pub root_derivations : List Incompatibility → List Assignment
root_derivations [] = []
root_derivations (ic ∷ ics) = second_derivation ic (terms ic) ++ root_derivations ics

second-AtZero : (ic : Incompatibility) (ts : List Term) → AtZero (second_derivation ic ts)
second-AtZero ic [] = tt
second-AtZero ic (r ∷ []) = tt
second-AtZero ic (r ∷ t ∷ []) = (refl, tt)
second-AtZero ic (r ∷ t ∷ u ∷ ts) = tt

All-append_both {ℓ κ} :
    {A : Type ℓ} (P : A → Type κ) (xs ys : List A) → All P xs → All P ys → All P (xs ++ ys)
All-append_both P [] ys h k = k
All-append_both P (x ∷ xs) ys (p, h) k = (p, All-append_both P xs ys h k)

pub root_derivations-AtZero : (ics : List Incompatibility) → AtZero (root_derivations ics)
unfolding root_derivations
root_derivations-AtZero [] = tt
root_derivations-AtZero (ic ∷ ics) =
    All-append_both _ (second_derivation ic (terms ic)) (root_derivations ics)
      (second-AtZero ic (terms ic)) (root_derivations-AtZero ics)

-- What deriving the roots keeps: nothing is decided, at level 0.
pub record Fresh (ps : PartialSolution) : Type 0 where
  pub sound : IsSound ps
  pub undecided : (p : Bytes) → ps.decisions p ≡ none
  pub ground_level : ps.level ≡ 0

derive_second-Fresh :
    (ps : PartialSolution) (ic : Incompatibility) (ts : List Term)
    → Fresh ps
    → Fresh (derive_second ps ic ts)
      × ((derive_second ps ic ts).assignments ≡ ps.assignments ++ second_derivation ic ts)
derive_second-Fresh ps ic [] f = (f, sym (append-nil ps.assignments))
derive_second-Fresh ps ic (r ∷ []) f = (f, sym (append-nil ps.assignments))
derive_second-Fresh ps ic (r ∷ t ∷ []) f =
    let s = derive-IsSound ps (inverse t) ic f.sound (f.undecided (inverse t).pkg) in
    (
      record {
        sound = s;
        undecided = unfold derive in f.undecided;
        ground_level = unfold derive in f.ground_level;
      },
      unfold derive in ap (λ n. ps.assignments ++ derivation (inverse t) ic n ∷ []) f.ground_level,
    )
derive_second-Fresh ps ic (r ∷ t ∷ u ∷ ts) f = (f, sym (append-nil ps.assignments))

pub derive_roots-Fresh :
    (ps : PartialSolution) (ics : List Incompatibility)
    → Fresh ps
    → Fresh (derive_roots ps ics)
      × ((derive_roots ps ics).assignments ≡ ps.assignments ++ root_derivations ics)
unfolding derive_roots root_derivations
derive_roots-Fresh ps [] f = (f, sym (append-nil ps.assignments))
derive_roots-Fresh ps (ic ∷ ics) f =
    let (g, e) = derive_second-Fresh ps ic (terms ic) f in
    let (h, k) = derive_roots-Fresh (derive_second ps ic (terms ic)) ics g in
    (
      h,
      k
          ∙ ap (λ xs. xs ++ root_derivations ics) e
          ∙ append_assoc ps.assignments (second_derivation ic (terms ic)) (root_derivations ics),
    )

pub start-Fresh : Fresh new_partial_solution
unfolding rebuild
start-Fresh = record {
  sound = record { walk = tt; decided = λ p. refl };
  undecided = λ p. refl;
  ground_level = refl;
}
