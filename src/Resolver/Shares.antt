-- ===== src/Resolver/Shares.antt =====
-- internal/resolver/solve.go: the two shares of the result, for production and for development.
use gomposer.Prelude.{
  ℕ, zero, suc, Bool, true, false, some, List, [], ◌∷◌, ◌++◌, ◌≡◌, arith, All, Bool-cases, inl, inr,
}
use gomposer.Prelude.Bytes.{Bytes}
use gomposer.Constraint.Version.{Version}
use gomposer.Resolver.Solution.{PartialSolution}
use gomposer.Resolver.Propagate.{is_member}
use gomposer.Resolver.Versions.{VersionLister, Versions}
use gomposer.Resolver.Decide.{is_decided}
use gomposer.Resolver.Result.{ResolvedPackage, Result, unreached, dependees, walk_prod}

module _ (dev_only : Bytes → Bool) where
  abbrev pub IsShare : Bool → List ResolvedPackage → Type 0
  IsShare b = All (λ rp. dev_only rp.name ≡ b)

  abbrev AreShares : VersionLister × Result → Type 0
  AreShares (vl, r) = IsShare false r.packages × IsShare true r.packages_dev

is_member-append :
    (p : Bytes) (new ps : List Bytes) → is_member p ps ≡ true → is_member p (new ++ ps) ≡ true
unfolding is_member
is_member-append p [] ps h = h
is_member-append p (q ∷ new) ps h = ground (arith, is_member-append p new ps h)

-- What is reached stays reached, in what the walk of computeDevOnlySet ends with.
pub walk_prod_keeps :
    (f : ℕ) (ps : PartialSolution) (reached work out : List Bytes) (p : Bytes)
    → walk_prod f ps reached work ≡ some out
    → is_member p reached ≡ true
    → is_member p out ≡ true
unfolding walk_prod
walk_prod_keeps f ps reached [] out p h k = ground arith
walk_prod_keeps zero ps reached (cur ∷ work) out p h k = ground arith
walk_prod_keeps (suc f) ps reached (cur ∷ work) out p h k =
    let new = unreached reached (dependees cur ps.assignments) in
    elim (Bool-cases (is_decided ps.decisions cur)) [
      | inl e ↦
          walk_prod_keeps f ps (new ++ reached) (work ++ new) out p (rw e at h)
            (is_member-append p new reached k)
      | inr e ↦ walk_prod_keeps f ps reached work out p (rw e at h) k
    ]
