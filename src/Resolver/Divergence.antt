-- ===== src/Resolver/Divergence.antt =====
-- internal/resolver/conflict.go: the rounds of conflictResolution.
use gomposer.Prelude.{ℕ, zero, suc, true, false, none, some, [], ◌∷◌, ◌≡◌, refl}
use gomposer.Strings.{eq}
use gomposer.Resolver.Term.{Term}
use gomposer.Resolver.Incompatibility.{incompatibility, Cause, conflict, is_failure}
use gomposer.Resolver.Solution.{PartialSolution, derivation}
use gomposer.Resolver.Conflict.{last_satisfier, resolve_incompatibilities, conflict_resolution}

-- One step with a cause of two terms, of which the first is about another package.
resolve_pair :
    (t other own d : Term) (c k : Cause)
    → eq t.pkg d.pkg ≡ true
    → eq other.pkg d.pkg ≡ false
    → eq own.pkg d.pkg ≡ true
    → resolve_incompatibilities
        (incompatibility (t ∷ []) c)
        (incompatibility (other ∷ own ∷ []) k)
        d
      ≡ incompatibility
          (other ∷ [])
          (conflict (incompatibility (t ∷ []) c) (incompatibility (other ∷ own ∷ []) k))
unfolding resolve_incompatibilities
resolve_pair t other own d c k h e f = rw (h, e, f)

resolution_step :
    (fuel : ℕ) (ps : PartialSolution) (t other own d : Term) (c k : Cause) (n : ℕ)
    → last_satisfier ps.assignments (t ∷ [])
      ≡ some (derivation d (incompatibility (other ∷ own ∷ []) k) n)
    → eq t.pkg d.pkg ≡ true
    → eq other.pkg d.pkg ≡ false
    → eq own.pkg d.pkg ≡ true
    → ((c' : Cause) → conflict_resolution fuel ps (incompatibility (other ∷ []) c') ≡ none)
    → conflict_resolution (suc fuel) ps (incompatibility (t ∷ []) c) ≡ none
unfolding conflict_resolution is_failure
resolution_step fuel ps t other own d c k n l h e f ih =
    rw (conflict_resolution, is_failure, l, resolve_pair t other own d c k h e f) (ih _)

module _ (ps : PartialSolution) (t u own_t own_u d e : Term) (k j : Cause) (n m : ℕ)
    (last_t : last_satisfier ps.assignments (t ∷ [])
      ≡ some (derivation d (incompatibility (u ∷ own_t ∷ []) k) n))
    (last_u : last_satisfier ps.assignments (u ∷ [])
      ≡ some (derivation e (incompatibility (t ∷ own_u ∷ []) j) m))
    (t_is_d : eq t.pkg d.pkg ≡ true) (own_t_is_d : eq own_t.pkg d.pkg ≡ true)
    (u_is_not_d : eq u.pkg d.pkg ≡ false) (u_is_e : eq u.pkg e.pkg ≡ true)
    (own_u_is_e : eq own_u.pkg e.pkg ≡ true) (t_is_not_e : eq t.pkg e.pkg ≡ false) where
  runs_out :
      (fuel : ℕ)
      → ((c : Cause) → conflict_resolution fuel ps (incompatibility (t ∷ []) c) ≡ none)
        × ((c : Cause) → conflict_resolution fuel ps (incompatibility (u ∷ []) c) ≡ none)
  unfolding conflict_resolution
  runs_out zero = ((λ c. refl), (λ c. refl))
  runs_out (suc fuel) =
      let (a, b) = runs_out fuel in
      (
        (λ c. resolution_step fuel ps t u own_t d c k n last_t t_is_d u_is_not_d own_t_is_d b),
        (λ c. resolution_step fuel ps u t own_u e c j m last_u u_is_e t_is_not_e own_u_is_e a),
      )

  -- Two packages, each with a term whose last satisfier is a derivation from the other's term: conflict
  -- resolution goes from one to the other, and no number of rounds is enough.
  pub conflict_resolution_diverges :
      (fuel : ℕ) (c : Cause) → conflict_resolution fuel ps (incompatibility (t ∷ []) c) ≡ none
  conflict_resolution_diverges fuel c = (runs_out fuel).0 c
