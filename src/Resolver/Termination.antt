-- ===== src/Resolver/Termination.antt =====
-- internal/resolver/propagate.go: the rounds of unit propagation, counted.
use mathlib.Core.Path.{subst}
use gomposer.Prelude.{
  ℕ, zero, suc, ◌+◌, ◌≤◌, Bool, true, false, not, none, some, List, [], ◌∷◌, ◌++◌, ◌≡◌, ◌≢◌, arith,
  inl, inr, any-append, ◌||◌, Bool-cases, sym, length, length-append,
}
use gomposer.Prelude.Bytes.{Bytes}
use gomposer.Strings.{eq}
use gomposer.Strings.Equality.{eq_refl}
use gomposer.Resolver.Term.{Term}
use gomposer.Resolver.Incompatibility.{Incompatibility, terms}
use gomposer.Resolver.Solution.{PartialSolution}
use gomposer.Resolver.Propagate.{
  Round, steady, fired, clash, propagate_once, propagate_loop, is_member, unseen, Propagated,
  after_round, all_terms, propagate,
}
use gomposer.Resolver.Firing.{
  count_if, count_if-le, count_if-le-length, open_term, Among, Firing, RoundFires,
  propagate_once_fires, count-Among, Firing-count,
}

-- The packages of these terms are yet to be queued.
abbrev new_term : List Bytes → Term → Bool
new_term seen t = not (is_member t.pkg seen)

is_member_self : (p : Bytes) (xs : List Bytes) → is_member p (p ∷ xs) ≡ true
unfolding is_member
is_member_self p xs = rw (eq_refl p)

new_term_later :
    (q : Bytes) (seen : List Bytes) (t : Term)
    → new_term (q ∷ seen) t ≡ true
    → new_term seen t ≡ true
unfolding is_member
new_term_later q seen t h = ground arith

unseen-length :
    (seen : List Bytes) (ts : List Term) → length (unseen seen ts) ≤ count_if (new_term seen) ts
unfolding unseen
unseen-length seen [] = omega arith
unseen-length seen (t ∷ ts) = ground (
  arith,
  unseen-length seen ts,
  unseen-length (t.pkg ∷ seen) ts,
  count_if-le (new_term (t.pkg ∷ seen)) (new_term seen) ts (new_term_later t.pkg seen),
)

-- The package is neither queued for these terms nor seen before.
abbrev missed : List Bytes → List Bytes → Term → Bool
missed queued seen t = not (is_member t.pkg queued || is_member t.pkg seen)

missed_later :
    (p : Bytes) (queued seen : List Bytes) (t : Term)
    → missed (p ∷ queued) seen t ≡ true
    → missed queued (p ∷ seen) t ≡ true
unfolding is_member
missed_later p queued seen t h = ground arith

unseen_old :
    (seen : List Bytes) (t : Term) (ts : List Term)
    → is_member t.pkg seen ≡ true
    → unseen seen (t ∷ ts) ≡ unseen seen ts
unfolding unseen
unseen_old seen t ts h = rw h

unseen_new :
    (seen : List Bytes) (t : Term) (ts : List Term)
    → is_member t.pkg seen ≡ false
    → unseen seen (t ∷ ts) ≡ t.pkg ∷ unseen (t.pkg ∷ seen) ts
unfolding unseen
unseen_new seen t ts h = rw h

unseen_covers :
    (seen : List Bytes) (ts : List Term) → count_if (missed (unseen seen ts) seen) ts ≤ 0
unseen_covers seen [] = omega arith
unseen_covers seen (t ∷ ts) =
    let covered = λ (queued : List Bytes). count_if (missed queued seen) (t ∷ ts) ≤ 0 in
    elim (Bool-cases (is_member t.pkg seen)) [
      | inl e ↦
          subst covered (sym (unseen_old seen t ts e)) (ground (arith, unseen_covers seen ts, e))
      | inr e ↦
          let rest = unseen (t.pkg ∷ seen) ts in
          subst covered (sym (unseen_new seen t ts e)) (
            ground (
              arith,
              unseen_covers (t.pkg ∷ seen) ts,
              is_member_self t.pkg rest,
              count_if-le (missed (t.pkg ∷ rest) seen) (missed rest (t.pkg ∷ seen)) ts
                  (missed_later t.pkg rest seen),
            ))
    ]

is_member-append :
    (p : Bytes) (xs ys : List Bytes) → is_member p (xs ++ ys) ≡ (is_member p xs || is_member p ys)
unfolding is_member
is_member-append p xs ys = any-append (λ q. eq q p) xs ys

-- What is queued is paid for by terms that are new no more.
unseen_count :
    (seen : List Bytes) (ic : Incompatibility) (ics : List Incompatibility)
    → Among ic ics
    → count_if (new_term (unseen seen (terms ic) ++ seen)) (all_terms ics)
        + length (unseen seen (terms ic))
      ≤ count_if (new_term seen) (all_terms ics)
unseen_count seen ic ics a =
    count-Among (new_term (unseen seen (terms ic) ++ seen)) (new_term seen)
      (length (unseen seen (terms ic))) ic ics
      (λ t h. ground (arith, is_member-append t.pkg (unseen seen (terms ic)) seen)) a
      (omega (
        arith,
        unseen-length seen (terms ic),
        unseen_covers seen (terms ic),
        count_if-le (new_term (unseen seen (terms ic) ++ seen))
            (missed (unseen seen (terms ic)) seen) (terms ic)
            (λ t h. ground (arith, is_member-append t.pkg (unseen seen (terms ic)) seen)),
      ))

-- What the fuel has to cover: the open terms, the worklist, and what may be queued yet.
abbrev load : PartialSolution → List Incompatibility → List Bytes → List Bytes → ℕ
load ps ics work seen =
    count_if (open_term ps) (all_terms ics) + length work + count_if (new_term seen) (all_terms ics)

after_round-some :
    (f : ℕ) (ps : PartialSolution) (ics : List Incompatibility) (pkg : Bytes)
    (work seen : List Bytes)
    → ((ps' : PartialSolution) (ics : List Incompatibility) (w s : List Bytes)
        → load ps' ics w s ≤ f
        → propagate_loop f ps' ics w s ≢ none)
    → load ps ics (pkg ∷ work) seen ≤ suc f
    → (r : Round) → RoundFires ps ics r
    → after_round r ps pkg work seen (λ ps' w s. propagate_loop f ps' ics w s) ≢ none
after_round-some f ps ics pkg work seen ih h steady k = ih ps ics work seen (omega arith)
after_round-some f ps ics pkg work seen ih h (clash ic) k = ground arith
after_round-some f ps ics pkg work seen ih h (fired ps' ic) (a, k) =
    ih ps' ics (pkg ∷ (work ++ unseen seen (terms ic))) (unseen seen (terms ic) ++ seen) (
      omega (
        arith,
        Firing-count ps ps' ic ics a k,
        unseen_count seen ic ics a,
        length-append work (unseen seen (terms ic)),
      ))

-- The loop ends with an answer, where the fuel covers the load.
propagate_loop-some :
    (f : ℕ) (ps : PartialSolution) (ics : List Incompatibility) (work seen : List Bytes)
    → load ps ics work seen ≤ f
    → propagate_loop f ps ics work seen ≢ none
unfolding propagate_loop
propagate_loop-some f ps ics [] seen h = ground arith
propagate_loop-some zero ps ics (pkg ∷ work) seen h = absurd (omega arith)
propagate_loop-some (suc f) ps ics (pkg ∷ work) seen h =
    after_round-some f ps ics pkg work seen (propagate_loop-some f) h (propagate_once ps ics pkg)
      (propagate_once_fires ps ics pkg)

-- propagate ends with a partial solution, and perhaps a conflict: the worklist runs empty, whatever the
-- incompatibilities are.
pub propagate-some :
    (ps : PartialSolution) (ics : List Incompatibility) (seed : Bytes)
    → propagate ps ics seed ≢ none
unfolding propagate
propagate-some ps ics seed = propagate_loop-some _ ps ics (seed ∷ []) (seed ∷ []) (
    omega (
      arith,
      count_if-le-length (open_term ps) (all_terms ics),
      count_if-le-length (new_term (seed ∷ [])) (all_terms ics),
    ))

-- What holds of a partial solution, and is kept by every firing, holds of the one in the end.
abbrev pub OnPropagated : (PartialSolution → Type 0) → Propagated → Type 0
OnPropagated P none = Unit
OnPropagated P (some (ps, r)) = P ps

module _ (P : PartialSolution → Type 0)
    (keeps : (ps ps' : PartialSolution) (ic : Incompatibility)
      → Firing ps ps' ic
      → P ps
      → P ps') where
  after_round_induction :
      (f : ℕ) (ps : PartialSolution) (ics : List Incompatibility) (pkg : Bytes)
      (work seen : List Bytes)
      → ((ps' : PartialSolution) (ics : List Incompatibility) (w s : List Bytes)
          → P ps'
          → OnPropagated P (propagate_loop f ps' ics w s))
      → P ps
      → (r : Round) → RoundFires ps ics r
      → OnPropagated P (after_round r ps pkg work seen (λ ps' w s. propagate_loop f ps' ics w s))
  after_round_induction f ps ics pkg work seen ih h steady k = ih ps ics work seen h
  after_round_induction f ps ics pkg work seen ih h (clash ic) k = h
  after_round_induction f ps ics pkg work seen ih h (fired ps' ic) k =
      ih ps' ics _ _ (keeps ps ps' ic k.1 h)

  propagate_loop_induction :
      (f : ℕ) (ps : PartialSolution) (ics : List Incompatibility) (work seen : List Bytes)
      → P ps
      → OnPropagated P (propagate_loop f ps ics work seen)
  unfolding propagate_loop
  propagate_loop_induction f ps ics [] seen h = h
  propagate_loop_induction zero ps ics (pkg ∷ work) seen h = tt
  propagate_loop_induction (suc f) ps ics (pkg ∷ work) seen h =
      after_round_induction f ps ics pkg work seen (propagate_loop_induction f) h
        (propagate_once ps ics pkg) (propagate_once_fires ps ics pkg)

  pub propagate_induction :
      (ps : PartialSolution) (ics : List Incompatibility) (seed : Bytes)
      → P ps
      → OnPropagated P (propagate ps ics seed)
  unfolding propagate
  propagate_induction ps ics seed = propagate_loop_induction _ ps ics (seed ∷ []) (seed ∷ [])
