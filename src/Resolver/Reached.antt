-- ===== src/Resolver/Reached.antt =====
-- internal/resolver/solve.go, computeDevOnlySet: the walk ends, and what it reaches.
use gomposer.Prelude.{true, List, ◌≡◌, ◌⊎◌}
use gomposer.Prelude.Bytes.{Bytes}
use gomposer.Resolver.Solution.{PartialSolution}
use gomposer.Resolver.Propagate.{is_member}
use gomposer.Resolver.Decide.{is_decided}
use gomposer.Resolver.Result.{dependees}

module _ (ps : PartialSolution) (required : List Bytes) where
  -- The requirements, and what a decided package of these leads to by a derivation of a dependency of it.
  pub data ProdReached : Bytes → Type 0 where
    by_requirement : {p : Bytes} → is_member p required ≡ true → ProdReached p
    by_dependency :
        {u p : Bytes}
        → ProdReached u
        → is_decided ps.decisions u ≡ true
        → is_member p (dependees u ps.assignments) ≡ true
        → ProdReached p

  record Inv (reached work : List Bytes) : Type 0 where
    covers : (p : Bytes) → is_member p required ≡ true → is_member p reached ≡ true
    sound : (p : Bytes) → is_member p reached ≡ true → ProdReached p
    queued : (p : Bytes) → is_member p work ≡ true → is_member p reached ≡ true
    closed :
        (u : Bytes)
        → is_member u reached ≡ true
        → (is_member u work ≡ true)
          ⊎ (is_decided ps.decisions u ≡ true
              → (p : Bytes) → is_member p (dependees u ps.assignments) ≡ true
              → is_member p reached ≡ true)
