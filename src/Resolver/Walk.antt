-- ===== src/Resolver/Walk.antt =====
-- internal/resolver/assignment.go: decisions against the terms derived before them.
use gomposer.Prelude.{
  ℕ, ◌+◌, true, none, some, List, [], ◌∷◌, ◌++◌, ◌≡◌, refl, ap, sym, ◌∙◌, arith, all, leb, &&-true,
  Bool-cases, inl, inr,
}
use gomposer.Prelude.Bytes.{Bytes}
use gomposer.Strings.{eq}
use gomposer.Strings.Equality.{eq_iff}
use gomposer.Constraint.Version.{Version}
use gomposer.Resolver.Term.{Term, term_satisfies, inverse}
use gomposer.Resolver.Incompatibility.{Incompatibility}
use gomposer.Resolver.Solution.{
  Assignment, decision, derivation, Decisions, no_decisions, set_decision, PartialSolution,
  decide_version, derive, keep_levels, rebuild, backtrack, relation_of,
}
use gomposer.Resolver.Decide.{terms_about}
use gomposer.Resolver.Meaning.{All}
use gomposer.Resolver.Levels.{rebuild-append}
use gomposer.Resolver.Firing.{Firing, open_term}

-- The version satisfies those of the terms that are about the package.
abbrev pub Fits : Bytes → Version → List Term → Type 0
Fits p v = All (λ t. t.pkg ≡ p → term_satisfies t v ≡ true)

-- Read from the left, with what is decided and derived so far: nothing is decided twice or derived
-- of a decided package, and each decision fits what is derived.
abbrev pub Walk : Decisions → List Term → List Assignment → Type 0
Walk d ts [] = Unit
Walk d ts (decision p v n ∷ xs) = (d p ≡ none) × Fits p v ts × Walk (set_decision p v d) ts xs
Walk d ts (derivation t ic n ∷ xs) = (d t.pkg ≡ none) × Walk d (t ∷ ts) xs

-- The derived terms, the later first.
abbrev pub derived_terms : List Term → List Assignment → List Term
derived_terms ts [] = ts
derived_terms ts (decision p v n ∷ xs) = derived_terms ts xs
derived_terms ts (derivation t ic n ∷ xs) = derived_terms (t ∷ ts) xs

-- Every term on a decided package is satisfied by its version.
abbrev pub Respects : Decisions → List Term → Type 0
Respects d = All (λ t. (v : Version) → d t.pkg ≡ some v → term_satisfies t v ≡ true)

Respects-decision :
    (d : Decisions) (p : Bytes) (v : Version) (ts : List Term)
    → Fits p v ts
    → Respects d ts
    → Respects (set_decision p v d) ts
Respects-decision d p v [] f r = tt
Respects-decision d p v (t ∷ ts) (f, fs) (r, rs) = (
  (λ w e. ground (arith, eq_iff p t.pkg, f, r w, e, ap (term_satisfies t))),
  Respects-decision d p v ts fs rs,
)

Respects-undecided :
    (d : Decisions) (t : Term) (ts : List Term)
    → d t.pkg ≡ none
    → Respects d ts
    → Respects d (t ∷ ts)
Respects-undecided d t ts h r = ((λ v e. ground arith), r)

pub Walk-Respects :
    (d : Decisions) (ts : List Term) (xs : List Assignment)
    → Walk d ts xs
    → Respects d ts
    → Respects (rebuild d xs) (derived_terms ts xs)
unfolding rebuild
Walk-Respects d ts [] w r = r
Walk-Respects d ts (decision p v n ∷ xs) (h, f, w) r =
    Walk-Respects (set_decision p v d) ts xs w (Respects-decision d p v ts f r)
Walk-Respects d ts (derivation t ic n ∷ xs) (h, w) r =
    Walk-Respects d (t ∷ ts) xs w (Respects-undecided d t ts h r)

Walk-decision :
    (d : Decisions) (ts : List Term) (xs : List Assignment) (p : Bytes) (v : Version) (n : ℕ)
    → Walk d ts xs
    → rebuild d xs p ≡ none
    → Fits p v (derived_terms ts xs)
    → Walk d ts (xs ++ decision p v n ∷ [])
unfolding rebuild
Walk-decision d ts [] p v n w h f = (h, f, tt)
Walk-decision d ts (decision q u m ∷ xs) p v n (a, b, w) h f =
    (a, b, Walk-decision (set_decision q u d) ts xs p v n w h f)
Walk-decision d ts (derivation t ic m ∷ xs) p v n (a, w) h f =
    (a, Walk-decision d (t ∷ ts) xs p v n w h f)

Walk-derivation :
    (d : Decisions) (ts : List Term) (xs : List Assignment) (t : Term) (ic : Incompatibility)
    (n : ℕ)
    → Walk d ts xs
    → rebuild d xs t.pkg ≡ none
    → Walk d ts (xs ++ derivation t ic n ∷ [])
unfolding rebuild
Walk-derivation d ts [] t ic n w h = (h, tt)
Walk-derivation d ts (decision q u m ∷ xs) t ic n (a, b, w) h =
    (a, b, Walk-derivation (set_decision q u d) ts xs t ic n w h)
Walk-derivation d ts (derivation u c m ∷ xs) t ic n (a, w) h =
    (a, Walk-derivation d (u ∷ ts) xs t ic n w h)

Walk-keep_levels :
    (d : Decisions) (ts : List Term) (n : ℕ) (xs : List Assignment)
    → Walk d ts xs
    → Walk d ts (keep_levels n xs)
unfolding keep_levels
Walk-keep_levels d ts n [] w = tt
Walk-keep_levels d ts n (decision p v m ∷ xs) (a, b, w) = elim (Bool-cases (leb m n)) [
  | inl e ↦ rw e (a, b, Walk-keep_levels (set_decision p v d) ts n xs w)
  | inr e ↦ rw e tt
]
Walk-keep_levels d ts n (derivation t ic m ∷ xs) (a, w) = elim (Bool-cases (leb m n)) [
  | inl e ↦ rw e (a, Walk-keep_levels d (t ∷ ts) n xs w)
  | inr e ↦ rw e tt
]

-- The partial solution is built by such a walk, and its map holds its decisions.
pub record IsSound (ps : PartialSolution) : Type 0 where
  pub walk : Walk no_decisions [] ps.assignments
  pub decided : (p : Bytes) → ps.decisions p ≡ rebuild no_decisions ps.assignments p

pub decide_version-IsSound :
    (ps : PartialSolution) (p : Bytes) (v : Version)
    → IsSound ps
    → ps.decisions p ≡ none
    → Fits p v (derived_terms [] ps.assignments)
    → IsSound (decide_version ps p v)
unfolding decide_version
decide_version-IsSound ps p v s h f =
    let a = decision p v (ps.level + 1) in
    record {
      walk =
          Walk-decision no_decisions [] ps.assignments p v (ps.level + 1) s.walk
            (sym (s.decided p) ∙ h) f;
      decided =
          λ q. rw (rebuild-append no_decisions ps.assignments a) (ground (arith, s.decided q));
    }

pub derive-IsSound :
    (ps : PartialSolution) (t : Term) (ic : Incompatibility)
    → IsSound ps
    → ps.decisions t.pkg ≡ none
    → IsSound (derive ps t ic)
unfolding derive
derive-IsSound ps t ic s h = record {
  walk =
      Walk-derivation no_decisions [] ps.assignments t ic ps.level s.walk
        (sym (s.decided t.pkg) ∙ h);
  decided =
      λ q. rw (rebuild-append no_decisions ps.assignments (derivation t ic ps.level)) (s.decided q);
}

pub backtrack-IsSound : (ps : PartialSolution) (n : ℕ) → IsSound ps → IsSound (backtrack ps n)
unfolding backtrack
backtrack-IsSound ps n s = record {
  walk = Walk-keep_levels no_decisions [] n ps.assignments s.walk;
  decided = λ p. refl;
}

-- An open term is about a package that is not decided.
open_undecided :
    (ps : PartialSolution) (t : Term) → open_term ps t ≡ true → ps.decisions t.pkg ≡ none
unfolding relation_of
open_undecided ps t h = ground arith

inverse_pkg : (t : Term) → (inverse t).pkg ≡ t.pkg
inverse_pkg t = unfold inverse in refl

pub Firing-IsSound :
    (ps ps' : PartialSolution) (ic : Incompatibility) → Firing ps ps' ic → IsSound ps → IsSound ps'
Firing-IsSound ps ps' ic f s = rw f.derives (
    derive-IsSound ps (inverse f.fact) ic s
      (ap ps.decisions (inverse_pkg f.fact) ∙ open_undecided ps f.fact f.was_open))

-- What `decide` checks of a version, all the terms on its package, is what a decision has to fit.
pub terms_about-Fits :
    (p : Bytes) (v : Version) (ts : List Term) (xs : List Assignment)
    → Fits p v ts
    → all (λ t. term_satisfies t v) (terms_about p xs) ≡ true
    → Fits p v (derived_terms ts xs)
unfolding terms_about
terms_about-Fits p v ts [] f h = f
terms_about-Fits p v ts (decision q u n ∷ xs) f h = terms_about-Fits p v ts xs f h
terms_about-Fits p v ts (derivation t ic n ∷ xs) f h = elim (Bool-cases (eq t.pkg p)) [
  | inl e ↦
      let (a, b) =
        &&-true (term_satisfies t v) (all (λ t. term_satisfies t v) (terms_about p xs))
          (rw e at h) in
      terms_about-Fits p v (t ∷ ts) xs ((λ same. a), f) b
  | inr e ↦
      terms_about-Fits p v (t ∷ ts) xs ((λ same. ground (arith, e, same, eq_iff t.pkg p)), f)
        (rw e at h)
]
