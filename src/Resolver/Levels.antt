-- ===== src/Resolver/Levels.antt =====
-- internal/resolver/assignment.go: the levels and the decisions of a partial solution.
use gomposer.Prelude.{
  ℕ, ◌+◌, ◌≤◌, ◌<◌, Bool, List, [], ◌∷◌, ◌++◌, ◌≡◌, refl, arith, leb, if◌then◌else◌, ap, sym,
  Bool-cases, inl, inr,
}
use gomposer.Prelude.Bytes.{Bytes}
use gomposer.Constraint.Version.{Version}
use gomposer.Resolver.Term.{Term}
use gomposer.Resolver.Incompatibility.{Incompatibility}
use gomposer.Resolver.Solution.{
  Assignment, decision, derivation, level_of, Decisions, no_decisions, note_decision,
  PartialSolution, new_partial_solution, decide_version, derive, keep_levels, rebuild, backtrack,
}
use gomposer.Resolver.Meaning.{All, All-append}

-- The levels never fall from one assignment to the next.
abbrev pub Rising : List Assignment → Type 0
Rising [] = Unit
Rising (a ∷ xs) = All (λ b. level_of a ≤ level_of b) xs × Rising xs

-- Levels rise up to the current one, and the map holds the decisions among the assignments.
pub record IsValid (ps : PartialSolution) : Type 0 where
  pub rising : Rising ps.assignments
  pub bounded : All (λ a. level_of a ≤ ps.level) ps.assignments
  pub decided : (p : Bytes) → ps.decisions p ≡ rebuild no_decisions ps.assignments p

abbrev pub keep_if : (Assignment → Bool) → List Assignment → List Assignment
keep_if p [] = []
keep_if p (a ∷ xs) = if p a then a ∷ keep_if p xs else keep_if p xs

pub rebuild-append :
    (d : Decisions) (xs : List Assignment) (a : Assignment)
    → rebuild d (xs ++ a ∷ []) ≡ note_decision (rebuild d xs) a
unfolding rebuild
rebuild-append d [] a = refl
rebuild-append d (x ∷ xs) a = rebuild-append (note_decision d x) xs a

Rising-append :
    (xs : List Assignment) (a : Assignment)
    → Rising xs
    → All (λ b. level_of b ≤ level_of a) xs
    → Rising (xs ++ a ∷ [])
Rising-append [] a r h = (tt, tt)
Rising-append (x ∷ xs) a (r, rs) (h, hs) =
    (All-append _ xs (a ∷ []) r (h, tt), Rising-append xs a rs hs)

All-le_trans :
    (m n : ℕ) (xs : List Assignment)
    → m ≤ n
    → All (λ a. level_of a ≤ m) xs
    → All (λ a. level_of a ≤ n) xs
All-le_trans m n [] h k = tt
All-le_trans m n (x ∷ xs) h (k, ks) = (omega arith, All-le_trans m n xs h ks)

pub new-IsValid : IsValid new_partial_solution
unfolding rebuild
new-IsValid = record { rising = tt; bounded = tt; decided = λ p. refl }

pub decide_version-IsValid :
    (ps : PartialSolution) (p : Bytes) (v : Version) → IsValid ps → IsValid (decide_version ps p v)
unfolding decide_version
decide_version-IsValid ps p v i =
    let up = All-le_trans ps.level (ps.level + 1) ps.assignments (omega arith) i.bounded in
    record {
      rising = Rising-append ps.assignments (decision p v (ps.level + 1)) i.rising up;
      bounded = All-append _ ps.assignments (decision p v (ps.level + 1) ∷ []) up (omega arith);
      decided = λ q.
          rw (rebuild-append no_decisions ps.assignments (decision p v (ps.level + 1)))
            (ground (arith, i.decided q));
    }

pub derive-IsValid :
    (ps : PartialSolution) (t : Term) (ic : Incompatibility) → IsValid ps → IsValid (derive ps t ic)
unfolding derive
derive-IsValid ps t ic i = record {
  rising = Rising-append ps.assignments (derivation t ic ps.level) i.rising i.bounded;
  bounded = All-append _ ps.assignments (derivation t ic ps.level ∷ []) i.bounded (omega arith);
  decided =
      λ q. rw (rebuild-append no_decisions ps.assignments (derivation t ic ps.level)) (i.decided q);
}

All-keep_levels {ℓ} :
    (P : Assignment → Type ℓ) (n : ℕ) (xs : List Assignment) → All P xs → All P (keep_levels n xs)
unfolding keep_levels
All-keep_levels P n [] h = tt
All-keep_levels P n (x ∷ xs) (h, hs) = elim (Bool-cases (leb (level_of x) n)) [
  | inl e ↦ rw e (h, All-keep_levels P n xs hs)
  | inr e ↦ rw e tt
]

keep_levels-Rising : (n : ℕ) (xs : List Assignment) → Rising xs → Rising (keep_levels n xs)
unfolding keep_levels
keep_levels-Rising n [] r = tt
keep_levels-Rising n (x ∷ xs) (r, rs) = elim (Bool-cases (leb (level_of x) n)) [
  | inl e ↦ rw e (All-keep_levels _ n xs r, keep_levels-Rising n xs rs)
  | inr e ↦ rw e tt
]

keep_levels_bounded : (n : ℕ) (xs : List Assignment) → All (λ a. level_of a ≤ n) (keep_levels n xs)
unfolding keep_levels
keep_levels_bounded n [] = tt
keep_levels_bounded n (x ∷ xs) = elim (Bool-cases (leb (level_of x) n)) [
  | inl e ↦ rw e (ground arith, keep_levels_bounded n xs)
  | inr e ↦ rw e tt
]

keep_none :
    (m n : ℕ) (xs : List Assignment)
    → n < m
    → All (λ b. m ≤ level_of b) xs
    → keep_if (λ a. leb (level_of a) n) xs ≡ []
keep_none m n [] h k = refl
keep_none m n (x ∷ xs) h (k, ks) = ground (arith, keep_none m n xs h ks)

keep_levels_all :
    (n : ℕ) (xs : List Assignment)
    → Rising xs
    → keep_levels n xs ≡ keep_if (λ a. leb (level_of a) n) xs
unfolding keep_levels
keep_levels_all n [] r = refl
keep_levels_all n (x ∷ xs) (r, rs) = elim (Bool-cases (leb (level_of x) n)) [
  | inl e ↦ rw e (ap (λ t. x ∷ t) (keep_levels_all n xs rs))
  | inr e ↦ rw e (sym (keep_none (level_of x) n xs (ground arith) r))
]

pub backtrack-IsValid : (ps : PartialSolution) (n : ℕ) → IsValid ps → IsValid (backtrack ps n)
unfolding backtrack
backtrack-IsValid ps n i = record {
  rising = keep_levels-Rising n ps.assignments i.rising;
  bounded = keep_levels_bounded n ps.assignments;
  decided = λ p. refl;
}

-- On a valid partial solution Backtrack, which stops at the first assignment above the target, keeps exactly the assignments
-- that are not above it, and afterwards the map holds the decisions among those.
pub backtrack_keeps :
    (ps : PartialSolution) (n : ℕ)
    → IsValid ps
    → ((backtrack ps n).assignments ≡ keep_if (λ a. leb (level_of a) n) ps.assignments)
      × ((p : Bytes)
          → (backtrack ps n).decisions p
            ≡ rebuild no_decisions (keep_if (λ a. leb (level_of a) n) ps.assignments) p)
unfolding backtrack
backtrack_keeps ps n i =
    let e = keep_levels_all n ps.assignments i.rising in
    (e, λ p. ap (λ xs. rebuild no_decisions xs p) e)

-- The partial solutions that the operations build from the empty one.
pub data Reached : PartialSolution → Type 0 where
  start : Reached new_partial_solution
  decided :
      {ps : PartialSolution} (p : Bytes) (v : Version)
      → Reached ps
      → Reached (decide_version ps p v)
  derived :
      {ps : PartialSolution} (t : Term) (ic : Incompatibility)
      → Reached ps
      → Reached (derive ps t ic)
  backtracked : {ps : PartialSolution} (n : ℕ) → Reached ps → Reached (backtrack ps n)

-- Every partial solution that Decide, Derive and Backtrack build is valid: its levels rise up to the current
-- level, and its map agrees with its decisions.
pub Reached-IsValid : {ps : PartialSolution} → Reached ps → IsValid ps
Reached-IsValid start = new-IsValid
Reached-IsValid (decided {ps} p v r) = decide_version-IsValid ps p v (Reached-IsValid r)
Reached-IsValid (derived {ps} t ic r) = derive-IsValid ps t ic (Reached-IsValid r)
Reached-IsValid (backtracked {ps} n r) = backtrack-IsValid ps n (Reached-IsValid r)
