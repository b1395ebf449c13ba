-- ===== src/Resolver/Resolution.antt =====
-- internal/resolver/conflict.go: resolveIncompatibilities and choices of versions.
use gomposer.Prelude.{
  ℕ, true, false, List, [], ◌∷◌, ◌++◌, ◌≡◌, refl, arith, all, all-append, any, if◌then◌else◌,
  Bool-cases, inl, inr, ◌⊎◌, &&-true,
}
use gomposer.Prelude.Bytes.{Bytes}
use gomposer.Strings.{eq}
use gomposer.Strings.Equality.{eq_iff}
use gomposer.Resolver.Term.{Term, inverse, same_text}
use gomposer.Resolver.Incompatibility.{Incompatibility, incompatibility, Cause, terms}
use gomposer.Resolver.Solution.{derivation}
use gomposer.Resolver.Conflict.{
  same_term, append_dedup, merge_others, resolve_incompatibilities, assignment_satisfies_any_term,
}
use gomposer.Resolver.Meaning.{
  Choice, holds, holds-inverse, violates, All, All-append, FromText, same_term_eq,
}

same_term_sound : (t u : Term) → FromText t → FromText u → same_term t u ≡ true → t ≡ u
unfolding same_text
same_term_sound t u ft fu h = ground (
  arith,
  same_term_eq t u ft fu,
  eq_iff t.pkg u.pkg,
  eq_iff t.constraint.original u.constraint.original,
)

inverse_pkg : (t : Term) → (inverse t).pkg ≡ t.pkg
inverse_pkg t = unfold inverse in refl

module _ (σ : Choice) where
  found_holds :
      (ts : List Term) (t : Term)
      → FromText t
      → All FromText ts
      → any (λ u. same_term u t) ts ≡ true
      → all (holds σ) ts ≡ true
      → holds σ t ≡ true
  found_holds [] t ft fts h k = ground arith
  found_holds (u ∷ ts) t ft (fu, fts) h k =
      let (hu, hts) = &&-true (holds σ u) (all (holds σ) ts) k in
      elim (Bool-cases (same_term u t)) [
        | inl e ↦ rw (same_term_sound u t fu ft e) at hu
        | inr e ↦ found_holds ts t ft fts (rw e at h) hts
      ]

  append_dedup-holds :
      (ts : List Term) (t : Term)
      → FromText t
      → All FromText ts
      → all (holds σ) (append_dedup ts t) ≡ true
      → (all (holds σ) ts ≡ true) × (holds σ t ≡ true)
  unfolding append_dedup
  append_dedup-holds ts t ft fts h = elim (Bool-cases (any (λ u. same_term u t) ts)) [
    | inl e ↦ let k : all (holds σ) ts ≡ true = rw e at h in (k, found_holds ts t ft fts e k)
    | inr e ↦ let k = all-append (holds σ) ts (t ∷ []) in ground (arith, h, e, k)
  ]

  append_dedup-FromText :
      (ts : List Term) (t : Term) → FromText t → All FromText ts → All FromText (append_dedup ts t)
  unfolding append_dedup
  append_dedup-FromText ts t ft fts = elim (Bool-cases (any (λ u. same_term u t) ts)) [
    | inl e ↦ rw e fts
    | inr e ↦ rw e (All-append FromText ts (t ∷ []) fts (ft, tt))
  ]

  pub merge_others-FromText :
      (p : Bytes) (merged ts : List Term)
      → All FromText merged
      → All FromText ts
      → All FromText (merge_others p merged ts)
  unfolding merge_others
  merge_others-FromText p merged [] fm ft = fm
  merge_others-FromText p merged (t ∷ ts) fm (ft, fts) = elim (Bool-cases (eq t.pkg p)) [
    | inl e ↦ rw e (merge_others-FromText p merged ts fm fts)
    | inr e ↦ rw e (
        merge_others-FromText p (append_dedup merged t) ts (append_dedup-FromText merged t ft fm)
          fts)
  ]

  -- Every term about another package than `p` holds.
  abbrev OthersHold : Bytes → List Term → Type 0
  OthersHold p = All (λ t. eq t.pkg p ≡ false → holds σ t ≡ true)

  merge_others-holds :
      (p : Bytes) (merged ts : List Term)
      → All FromText merged
      → All FromText ts
      → all (holds σ) (merge_others p merged ts) ≡ true
      → (all (holds σ) merged ≡ true) × OthersHold p ts
  unfolding merge_others
  merge_others-holds p merged [] fm ft h = (h, tt)
  merge_others-holds p merged (t ∷ ts) fm (ft, fts) h = elim (Bool-cases (eq t.pkg p)) [
    | inl e ↦ let (a, b) = merge_others-holds p merged ts fm fts (rw e at h) in (a, (λ k. cc, b))
    | inr e ↦
        let (a, b) =
          merge_others-holds p (append_dedup merged t) ts (append_dedup-FromText merged t ft fm) fts
            (rw e at h) in
        let (c, d) = append_dedup-holds merged t ft fm a in (c, (λ k. d, b))
  ]

  -- The terms about the package of `a` hold wherever `a` does.
  abbrev pub FollowFrom : Term → List Term → Type 0
  FollowFrom a = All (λ t. eq t.pkg a.pkg ≡ true → holds σ a ≡ true → holds σ t ≡ true)

  -- The terms about the package of `a` hold wherever `a` does not.
  abbrev pub OpposeTo : Term → List Term → Type 0
  OpposeTo a = All (λ t. eq t.pkg a.pkg ≡ true → holds σ a ≡ false → holds σ t ≡ true)

  all_hold :
      (p : Bytes) (ts : List Term)
      → OthersHold p ts
      → All (λ t. eq t.pkg p ≡ true → holds σ t ≡ true) ts
      → all (holds σ) ts ≡ true
  all_hold p [] h k = refl
  all_hold p (t ∷ ts) (h, hs) (k, ks) = elim (Bool-cases (eq t.pkg p)) [
    | inl e ↦ rw (k e) (all_hold p ts hs ks)
    | inr e ↦ rw (h e) (all_hold p ts hs ks)
  ]

  given {ℓ} :
      (P : Type ℓ) (Q R : Term → Type 0) (ts : List Term)
      → P
      → All (λ t. Q t → P → R t) ts
      → All (λ t. Q t → R t) ts
  given P Q R [] p h = tt
  given P Q R (t ∷ ts) p (h, hs) = ((λ q. h q p), given P Q R ts p hs)

  -- Where every constraint is what Parse makes of its text, the resolved incompatibility forbids only what one of its parents forbids: where the terms of
  -- the first parent about the package of `a` follow from `a`, and those of the second parent from its denial.
  pub resolve_incompatibilities_sound :
      (current cause : Incompatibility) (a : Term)
      → All FromText (terms current)
      → All FromText (terms cause)
      → FollowFrom a (terms current)
      → OpposeTo a (terms cause)
      → violates σ (resolve_incompatibilities current cause a) ≡ true
      → (violates σ current ≡ true) ⊎ (violates σ cause ≡ true)
  unfolding resolve_incompatibilities violates
  resolve_incompatibilities_sound current cause a fc fk follow oppose h =
      let fm = merge_others-FromText a.pkg [] (terms current) tt fc in
      let (kept, others) =
        merge_others-holds a.pkg (merge_others a.pkg [] (terms current)) (terms cause) fm fk h in
      let (_, mine) = merge_others-holds a.pkg [] (terms current) tt fc kept in
      elim (Bool-cases (holds σ a)) [
        | inl e ↦ inl (all_hold a.pkg (terms current) mine (given _ _ _ (terms current) e follow))
        | inr e ↦ inr (all_hold a.pkg (terms cause) others (given _ _ _ (terms cause) e oppose))
      ]

  merge_others_keep :
      (p : Bytes) (merged ts : List Term)
      → all (holds σ) merged ≡ true
      → OthersHold p ts
      → all (holds σ) (merge_others p merged ts) ≡ true
  unfolding merge_others append_dedup
  merge_others_keep p merged [] h k = h
  merge_others_keep p merged (t ∷ ts) h (k, ks) = elim (Bool-cases (eq t.pkg p)) [
    | inl e ↦ rw e (merge_others_keep p merged ts h ks)
    | inr e ↦ rw e (
        merge_others_keep p (if any (λ u. same_term u t) merged then merged else merged ++ t ∷ [])
          ts (ground (arith, k e, all-append (holds σ) merged (t ∷ []))) ks)
  ]

  all-OthersHold : (p : Bytes) (ts : List Term) → all (holds σ) ts ≡ true → OthersHold p ts
  all-OthersHold p [] h = tt
  all-OthersHold p (t ∷ ts) h =
      let (k, ks) = &&-true (holds σ t) (all (holds σ) ts) h in ((λ e. k), all-OthersHold p ts ks)

  -- Where the derived term `a` holds and the term `t` of the same package does not, the walk still takes
  -- the derivation for one that satisfies `t`. Then neither parent is violated, though all their other terms hold, and
  -- the resolved incompatibility is.
  pub resolve_incompatibilities_unsound :
      (a t : Term) (ts us : List Term) (c k : Cause) (reason : Incompatibility) (n : ℕ)
      → t.pkg ≡ a.pkg
      → holds σ a ≡ true
      → holds σ t ≡ false
      → all (holds σ) ts ≡ true
      → all (holds σ) us ≡ true
      → (assignment_satisfies_any_term (derivation a reason n) (t ∷ ts) ≡ true)
        × (violates σ (incompatibility (t ∷ ts) c) ≡ false)
        × (violates σ (incompatibility (inverse a ∷ us) k) ≡ false)
        × (violates σ (
              resolve_incompatibilities
                (incompatibility (t ∷ ts) c)
                (incompatibility (inverse a ∷ us) k)
                a)
            ≡ true)
  unfolding resolve_incompatibilities violates assignment_satisfies_any_term
  resolve_incompatibilities_unsound a t ts us c k reason n e ha ht hts hus =
      let dropped : eq t.pkg a.pkg ≡ true = (eq_iff t.pkg a.pkg).1 e in
      (
        rw dropped,
        rw ht,
        rw (holds-inverse σ a, ha),
        merge_others_keep a.pkg (merge_others a.pkg [] (t ∷ ts)) (inverse a ∷ us)
            (merge_others_keep a.pkg [] (t ∷ ts) refl
              ((λ apart. ground (arith, dropped, apart)), all-OthersHold a.pkg ts hts))
            (
              (λ apart. ground (arith, eq_iff a.pkg a.pkg, inverse_pkg a, apart)),
              all-OthersHold a.pkg us hus,
            ),
      )
