-- ===== src/Resolver/Answer.antt =====
-- internal/resolver/solve.go: the requirements of the manifest in the solution.
use mathlib.Core.Path.{subst}
use mathlib.Core.List.{append_assoc, append-nil}
use gomposer.Prelude.{
  ◌⊎◌, All, ℕ, Bool, true, false, some, List, [], ◌∷◌, ◌++◌, ◌≡◌, refl, sym, ◌∙◌, arith, Bool-cases,
  inl, inr,
}
use gomposer.Prelude.Bytes.{Bytes}
use gomposer.Sort.{Entries, keys, entry, sort_strings, bytes_less}
use gomposer.Sort.Laws.{sort_by-All}
use gomposer.Constraint.Version.{Version}
use gomposer.Constraint.Term.{satisfies}
use gomposer.Resolver.Term.{term_satisfies, inverse}
use gomposer.Resolver.Incompatibility.{Incompatibility, terms}
use gomposer.Resolver.Solution.{Assignment, PartialSolution, new_partial_solution}
use gomposer.Resolver.Versions.{VersionLister}
use gomposer.Resolver.Decide.{is_platform_package, constraint_of, undecided_packages}
use gomposer.Resolver.Solve.{
  Manifest, Input, lister_of, root_incompat, root_incompats, build_root_incompatibilities,
  derive_roots, solved, solve,
}
use gomposer.Resolver.Requirements.{Kept, OutcomeKept, solve_loop-Kept}
use gomposer.Resolver.Fresh.{
  OnTerm, Settled, all_settled, All-append_left, second_derivation, root_derivations,
  root_derivations-AtZero, derive_roots-Fresh, start-Fresh,
}

-- A version is decided of the package, and it satisfies the requirement.
abbrev pub Meets : PartialSolution → Bytes → Bytes → Type 0
Meets ps name raw =
    (v : Version) × (ps.decisions name ≡ some v) × (satisfies (constraint_of raw) v ≡ true)

-- The requirement is met, or it is one on the platform.
abbrev pub MeetsOrPlatform : PartialSolution → Entries → Bytes → Type 0
MeetsOrPlatform ps m name = (is_platform_package name ≡ true) ⊎ Meets ps name (entry m name)

abbrev pub MeetsAll : PartialSolution → Entries → Type 0
MeetsAll ps m = All (MeetsOrPlatform ps m) (keys m)

All-split {ℓ κ} :
    {A : Type ℓ} (P : A → Type κ) (xs ys : List A) → All P (xs ++ ys) → All P xs × All P ys
All-split P [] ys h = (tt, h)
All-split P (x ∷ xs) ys (p, h) = let (a, b) = All-split P xs ys h in ((p, a), b)

split_roots :
    (P : Assignment → Type 0) (ic : Incompatibility) (ics : List Incompatibility)
    → All P (root_derivations (ic ∷ ics))
    → All P (second_derivation ic (terms ic)) × All P (root_derivations ics)
unfolding root_derivations
split_roots P ic ics h = All-split P (second_derivation ic (terms ic)) (root_derivations ics) h

root_settled :
    (ps : PartialSolution) (name raw : Bytes)
    → All
        (OnTerm (Settled ps.decisions))
        (second_derivation (root_incompat name raw) (terms (root_incompat name raw)))
    → Meets ps name raw
unfolding root_incompat inverse term_satisfies
root_settled ps name raw (h, _) = h refl

roots_settled :
    (ps : PartialSolution) (m : Entries) (names : List Bytes)
    → All (OnTerm (Settled ps.decisions)) (root_derivations (root_incompats m names))
    → All (MeetsOrPlatform ps m) names
unfolding root_incompats
roots_settled ps m [] h = tt
roots_settled ps m (name ∷ names) h = elim (Bool-cases (is_platform_package name)) [
  | inl e ↦ (inl e, roots_settled ps m names (rw e at h))
  | inr e ↦
      let k : All (OnTerm (Settled ps.decisions))
          (root_derivations (root_incompat name (entry m name) ∷ root_incompats m names)) =
        rw e at h in
      let (a, b) = split_roots _ (root_incompat name (entry m name)) (root_incompats m names) k in
      (inr (root_settled ps name (entry m name) a), roots_settled ps m names b)
]

root_derivations-append :
    (ics jcs : List Incompatibility)
    → root_derivations (ics ++ jcs) ≡ root_derivations ics ++ root_derivations jcs
unfolding root_derivations
root_derivations-append [] jcs = refl
root_derivations-append (ic ∷ ics) jcs = rw (root_derivations-append ics jcs) (
    sym (
      append_assoc (second_derivation ic (terms ic)) (root_derivations ics) (root_derivations jcs)))

keys_settled :
    (ps : PartialSolution) (m : Entries)
    → All
        (OnTerm (Settled ps.decisions))
        (root_derivations (root_incompats m (sort_strings (keys m))))
    → MeetsAll ps m
keys_settled ps m h =
    unfold sort_strings in
    sort_by-All _ bytes_less (keys m)
      (unfold sort_strings in roots_settled ps m (sort_strings (keys m)) h)

solved_settled :
    (fuel limit : ℕ) (i : Input) (ps : PartialSolution) (vl : VersionLister)
    → solve fuel limit i ≡ solved ps vl
    → All
        (OnTerm (Settled ps.decisions))
        (root_derivations (build_root_incompatibilities i.manifest i.include_dev))
unfolding solve
solved_settled fuel limit i ps vl h =
    let ics = build_root_incompatibilities i.manifest i.include_dev in
    let rs = root_derivations ics in
    let (f, e) = derive_roots-Fresh new_partial_solution ics start-Fresh in
    let kept =
      solve_loop-Kept rs (root_derivations-AtZero ics) fuel limit
        (derive_roots new_partial_solution ics) ics (lister_of i) []
        (record { sound = f.sound; begins = ([], e ∙ sym (append-nil rs)) }) in
    let (k, none_left) : Kept rs ps × (undecided_packages ps ≡ []) =
      subst (OutcomeKept rs (root_derivations-AtZero ics)) h kept in
    All-append_left _ rs k.begins.0
      (subst (All (OnTerm (Settled ps.decisions))) k.begins.1 (all_settled ps k.sound none_left))

build_split :
    (ps : PartialSolution) (m : Manifest) (include_dev : Bool)
    → All
        (OnTerm (Settled ps.decisions))
        (root_derivations (build_root_incompatibilities m include_dev))
    → All
        (OnTerm (Settled ps.decisions))
        (root_derivations (root_incompats m.requires (sort_strings (keys m.requires))))
      × (include_dev ≡ true
          → All (OnTerm (Settled ps.decisions)) (
              root_derivations
                (root_incompats m.requires_dev (sort_strings (keys m.requires_dev)))))
unfolding build_root_incompatibilities
build_split ps m true h =
    let prod = root_incompats m.requires (sort_strings (keys m.requires)) in
    let devs = root_incompats m.requires_dev (sort_strings (keys m.requires_dev)) in
    let (a, b) =
      All-split _ (root_derivations prod) (root_derivations devs)
        (subst (All (OnTerm (Settled ps.decisions))) (root_derivations-append prod devs) h) in
    (a, λ e. b)
build_split ps m false h =
    let prod = root_incompats m.requires (sort_strings (keys m.requires)) in
    let (a, b) =
      All-split _ (root_derivations prod) (root_derivations [])
        (subst (All (OnTerm (Settled ps.decisions))) (root_derivations-append prod []) h) in
    (a, λ e. absurd (ground arith))

-- Where Solve returns a solution, each requirement of the manifest has a decided version that satisfies it, and so has
-- each development requirement where these are included. Requirements on the platform are left aside.
pub solve_requirements :
    (fuel limit : ℕ) (i : Input) (ps : PartialSolution) (vl : VersionLister)
    → solve fuel limit i ≡ solved ps vl
    → MeetsAll ps i.manifest.requires
      × ((i.include_dev ≡ false) ⊎ MeetsAll ps i.manifest.requires_dev)
solve_requirements fuel limit i ps vl h =
    let m = i.manifest in
    let (a, b) = build_split ps m i.include_dev (solved_settled fuel limit i ps vl h) in
    (
      keys_settled ps m.requires a,
      elim (Bool-cases i.include_dev) [
        | inl d ↦ inr (keys_settled ps m.requires_dev (b d))
        | inr d ↦ inl d
      ],
    )
