-- ===== src/Resolver/Firing.antt =====
-- internal/resolver/propagate.go: what a firing round does to the count of open terms.
use gomposer.Prelude.{
  ℕ, zero, suc, ◌+◌, ◌≤◌, ◌<◌, Bool, true, false, Option, none, some, List, [], ◌∷◌, ◌++◌, ◌≡◌,
  refl, arith, ◌⊎◌, inl, inr, get_elem?, if◌then◌else◌, Bool-cases, Option-cases, ap, length,
}
use gomposer.Prelude.Bytes.{Bytes}
use gomposer.Strings.Equality.{eq_refl}
use gomposer.Resolver.Term.{Term, inverse, same_text, Relation, overlapping}
use gomposer.Resolver.Incompatibility.{Incompatibility, terms}
use gomposer.Resolver.Solution.{
  Assignment, decision, derivation, PartialSolution, derive, relation_to_derivations, relation_of,
}
use gomposer.Resolver.Propagate.{
  Status, no_change, derived, conflicting, Round, steady, fired, clash, classify_incompatibility,
  fire, round_of, propagate_once, mentions_package, all_terms,
}
use gomposer.Resolver.Classify.{OnlyOpen, classify_incompatibility_iff, OnlyOpen-get_elem?}

abbrev pub count_if : (Term → Bool) → List Term → ℕ
count_if p [] = 0
count_if p (t ∷ ts) = (if p t then 1 else 0) + count_if p ts

pub count_if-append :
    (p : Term → Bool) (ts us : List Term) → count_if p (ts ++ us) ≡ count_if p ts + count_if p us
count_if-append p [] us = omega arith
count_if-append p (t ∷ ts) us = ground (arith, count_if-append p ts us)

pub count_if-le :
    (p q : Term → Bool) (ts : List Term)
    → ((t : Term) → p t ≡ true → q t ≡ true)
    → count_if p ts ≤ count_if q ts
count_if-le p q [] h = omega arith
count_if-le p q (t ∷ ts) h = ground (arith, h t, count_if-le p q ts h)

pub count_if-le-length : (p : Term → Bool) (ts : List Term) → count_if p ts ≤ length ts
count_if-le-length p [] = omega arith
count_if-le-length p (t ∷ ts) = ground (arith, count_if-le-length p ts)

-- One element that counts no more makes the count smaller.
pub count_if-lt :
    (p q : Term → Bool) (ts : List Term) (k : ℕ) (u : Term)
    → ((t : Term) → p t ≡ true → q t ≡ true)
    → get_elem? ts k ≡ some u
    → p u ≡ false
    → q u ≡ true
    → count_if p ts < count_if q ts
count_if-lt p q [] k u h e f g = ground arith
count_if-lt p q (t ∷ ts) zero u h e f g =
    let same : t ≡ u = cc in ground (arith, ap p same, ap q same, count_if-le p q ts h)
count_if-lt p q (t ∷ ts) (suc k) u h e f g = ground (arith, h t, count_if-lt p q ts k u h e f g)

abbrev pub is_overlapping : Relation → Bool
is_overlapping overlapping = true
is_overlapping _ = false

-- The partial solution decides nothing of the term.
abbrev pub open_term : PartialSolution → Term → Bool
open_term ps t = is_overlapping (relation_of ps t)

pub derivations_open :
    (xs : List Assignment) (a : Assignment) (t : Term)
    → is_overlapping (relation_to_derivations (xs ++ a ∷ []) t) ≡ true
    → is_overlapping (relation_to_derivations xs t) ≡ true
unfolding relation_to_derivations
derivations_open [] a t h = refl
derivations_open (decision p v n ∷ xs) a t h = derivations_open xs a t h
derivations_open (derivation d ic n ∷ xs) a t h = ground (arith, derivations_open xs a t)

pub derive_open :
    (ps : PartialSolution) (d : Term) (ic : Incompatibility) (t : Term)
    → open_term (derive ps d ic) t ≡ true
    → open_term ps t ≡ true
unfolding derive relation_of
derive_open ps d ic t h = elim (Option-cases (ps.decisions t.pkg)) [
  | inl e ↦ rw e (derivations_open ps.assignments (derivation d ic ps.level) t (rw e at h))
  | inr (v, e) ↦ rw e (rw e at h)
]

-- A term is settled by a derivation of its own text.
pub derivations_settled :
    (xs : List Assignment) (t : Term) (ic : Incompatibility) (n : ℕ)
    → is_overlapping (relation_to_derivations (xs ++ derivation (inverse t) ic n ∷ []) t) ≡ false
unfolding relation_to_derivations same_text inverse
derivations_settled [] t ic n = ground (arith, eq_refl t.pkg, eq_refl t.constraint.original)
derivations_settled (decision p v m ∷ xs) t ic n = derivations_settled xs t ic n
derivations_settled (derivation d c m ∷ xs) t ic n = ground (arith, derivations_settled xs t ic n)

pub derive_settled :
    (ps : PartialSolution) (t : Term) (ic : Incompatibility)
    → open_term (derive ps (inverse t) ic) t ≡ false
unfolding derive relation_of
derive_settled ps t ic = elim (Option-cases (ps.decisions t.pkg)) [
  | inl e ↦ rw e (derivations_settled ps.assignments t ic ps.level)
  | inr (v, e) ↦ rw e (ground arith)
]

abbrev pub Among : Incompatibility → List Incompatibility → Type 0
Among ic [] = ⊥
Among ic (x ∷ xs) = (x ≡ ic) ⊎ Among ic xs

-- What a round that fires has done.
pub record Firing (ps ps' : PartialSolution) (ic : Incompatibility) : Type 0 where
  pub index : ℕ
  pub fact : Term
  pub at_index : get_elem? (terms ic) index ≡ some fact
  pub was_open : open_term ps fact ≡ true
  pub derives : ps' ≡ derive ps (inverse fact) ic

abbrev pub RoundFires : PartialSolution → List Incompatibility → Round → Type 0
RoundFires ps ics steady = Unit
RoundFires ps ics (fired ps' ic) = Among ic ics × Firing ps ps' ic
RoundFires ps ics (clash ic) = Unit

pub fire_fires :
    (ps : PartialSolution) (ics : List Incompatibility) (ic : Incompatibility) (k : ℕ)
    (o : Option Term)
    → get_elem? (terms ic) k ≡ o
    → OnlyOpen ps k (terms ic)
    → RoundFires ps (ic ∷ ics) (fire ps ic o)
fire_fires ps ics ic k none e h = tt
fire_fires ps ics ic k (some t) e h =
    let (u, eu, o) = OnlyOpen-get_elem? ps k (terms ic) h in
    let same : u ≡ t = cc in
    (
      inl refl,
      record { index = k; fact = t; at_index = e; was_open = rw (← same, o); derives = refl },
    )

pub RoundFires-later :
    (ps : PartialSolution) (ic : Incompatibility) (ics : List Incompatibility) (r : Round)
    → RoundFires ps ics r
    → RoundFires ps (ic ∷ ics) r
RoundFires-later ps ic ics steady h = tt
RoundFires-later ps ic ics (fired ps' c) (a, f) = (inr a, f)
RoundFires-later ps ic ics (clash c) h = tt

pub round_fires :
    (ps : PartialSolution) (ics : List Incompatibility) (ic : Incompatibility) (later : Round)
    (st : Status)
    → classify_incompatibility ps ic ≡ st
    → RoundFires ps ics later
    → RoundFires ps (ic ∷ ics) (round_of ps ic st later)
round_fires ps ics ic later no_change e h = RoundFires-later ps ic ics later h
round_fires ps ics ic later (derived k) e h =
    fire_fires ps ics ic k (get_elem? (terms ic) k) refl
      (((classify_incompatibility_iff ps ic).1 k).0 e)
round_fires ps ics ic later conflicting e h = tt

pub propagate_once_fires :
    (ps : PartialSolution) (ics : List Incompatibility) (pkg : Bytes)
    → RoundFires ps ics (propagate_once ps ics pkg)
unfolding propagate_once
propagate_once_fires ps [] pkg = tt
propagate_once_fires ps (ic ∷ ics) pkg =
    let ih = propagate_once_fires ps ics pkg in
    elim (Bool-cases (mentions_package ic pkg)) [
      | inl e ↦ rw e (round_fires ps ics ic _ (classify_incompatibility ps ic) refl ih)
      | inr e ↦ rw e (RoundFires-later ps ic ics _ ih)
    ]

-- The count over all terms, from a strict or a weak difference in one incompatibility.
pub count-Among :
    (p q : Term → Bool) (m : ℕ) (ic : Incompatibility) (ics : List Incompatibility)
    → ((t : Term) → p t ≡ true → q t ≡ true)
    → Among ic ics
    → count_if p (terms ic) + m ≤ count_if q (terms ic)
    → count_if p (all_terms ics) + m ≤ count_if q (all_terms ics)
count-Among p q m ic [] h a l = absurd a
count-Among p q m ic (x ∷ xs) h (inl e) l = omega (
  arith,
  count_if-append p (terms x) (all_terms xs),
  count_if-append q (terms x) (all_terms xs),
  count_if-le p q (all_terms xs) h,
  rw (← e) at l,
)
count-Among p q m ic (x ∷ xs) h (inr a) l = omega (
  arith,
  count_if-append p (terms x) (all_terms xs),
  count_if-append q (terms x) (all_terms xs),
  count_if-le p q (terms x) h,
  count-Among p q m ic xs h a l,
)

pub Firing-count :
    (ps ps' : PartialSolution) (ic : Incompatibility) (ics : List Incompatibility)
    → Among ic ics
    → Firing ps ps' ic
    → count_if (open_term ps') (all_terms ics) + 1 ≤ count_if (open_term ps) (all_terms ics)
Firing-count ps ps' ic ics a f = rw f.derives (
    count-Among _ _ 1 ic ics (derive_open ps (inverse f.fact) ic) a (
      omega (
        arith,
        count_if-lt _ _ (terms ic) f.index f.fact (derive_open ps (inverse f.fact) ic) f.at_index
            (derive_settled ps f.fact ic) f.was_open,
      )))
