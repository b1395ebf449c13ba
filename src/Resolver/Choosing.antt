-- ===== src/Resolver/Choosing.antt =====
-- internal/resolver/decide.go: the answers of decide.
use gomposer.Prelude.{
  All, true, not, ◌&&◌, none, List, [], ◌∷◌, ◌≡◌, refl, arith, all, Bool-cases, inl, inr,
}
use gomposer.Prelude.Bytes.{Bytes}
use gomposer.Sort.{sort_by, sort_strings, bytes_less}
use gomposer.Sort.Laws.{All-sort_by}
use gomposer.Constraint.Version.{Version}
use gomposer.Resolver.Term.{term_satisfies}
use gomposer.Resolver.Solution.{
  Assignment, decision, derivation, Decisions, PartialSolution, decide_version,
}
use gomposer.Resolver.Propagate.{is_member}
use gomposer.Resolver.Versions.{
  ListedVersion, VersionLister, Versions, listed, package_not_found, error, versions,
}
use gomposer.Resolver.Decide.{
  is_decided, undecided_from, undecided_packages, terms_about, keep_satisfying,
  filter_by_active_constraints, Candidate, Gathered, gathered, missing, broken, gather_one,
  add_candidate, gather, fewer, Decided, all_done, made, pick, choose, decide_gathered,
  decide_among, decide,
}
use gomposer.Resolver.Walk.{Fits, derived_terms, terms_about-Fits}

module _ (ps : PartialSolution) where
  -- Nothing is decided of the package, and each version satisfies all that is derived on it.
  abbrev Viable : Bytes → ListedVersion → Type 0
  Viable p v = all (λ t. term_satisfies t v.parsed) (terms_about p ps.assignments) ≡ true

  abbrev IsCandidate : Candidate → Type 0
  IsCandidate c = (ps.decisions c.pkg ≡ none) × All (Viable c.pkg) c.choices

  keep_satisfying-Viable :
      (p : Bytes) (vs : List ListedVersion)
      → All (Viable p) (keep_satisfying (terms_about p ps.assignments) vs)
  unfolding keep_satisfying
  keep_satisfying-Viable p [] = tt
  keep_satisfying-Viable p (v ∷ vs) =
      elim (Bool-cases (all (λ t. term_satisfies t v.parsed) (terms_about p ps.assignments))) [
        | inl e ↦ rw e (e, keep_satisfying-Viable p vs)
        | inr e ↦ rw e (keep_satisfying-Viable p vs)
      ]

  abbrev OnGathered : VersionLister × Gathered → Type 0
  OnGathered (vl, gathered cs) = All IsCandidate cs
  OnGathered (vl, missing p) = Unit
  OnGathered (vl, broken e) = Unit

  add_candidate-IsCandidate :
      (c : Candidate) (g : VersionLister × Gathered)
      → IsCandidate c
      → OnGathered g
      → OnGathered (add_candidate c g)
  add_candidate-IsCandidate c (vl, gathered cs) h k = (h, k)
  add_candidate-IsCandidate c (vl, missing p) h k = tt
  add_candidate-IsCandidate c (vl, broken e) h k = tt

  filter-Viable :
      (p : Bytes) (vs : List ListedVersion) → All (Viable p) (filter_by_active_constraints ps p vs)
  filter-Viable p vs = unfold filter_by_active_constraints in keep_satisfying-Viable p vs

  gather_one-IsCandidate :
      (p : Bytes) (vs : VersionLister × Versions) (later : VersionLister → VersionLister × Gathered)
      → ps.decisions p ≡ none
      → ((vl : VersionLister) → OnGathered (later vl))
      → OnGathered (gather_one ps p vs later)
  gather_one-IsCandidate p (vl, package_not_found) later h k = tt
  gather_one-IsCandidate p (vl, error e) later h k = tt
  gather_one-IsCandidate p (vl, listed vs) later h k =
      add_candidate-IsCandidate _ (later vl) (h, filter-Viable p vs) (k vl)

  gather-IsCandidate :
      (vl : VersionLister) (pkgs : List Bytes)
      → All (λ p. ps.decisions p ≡ none) pkgs
      → OnGathered (gather ps vl pkgs)
  unfolding gather
  gather-IsCandidate vl [] h = tt
  gather-IsCandidate vl (p ∷ pkgs) (h, hs) =
      gather_one-IsCandidate p (versions vl p) _ h (λ vl'. gather-IsCandidate vl' pkgs hs)

  -- A decision is made of a package that was undecided, for a version that fits all that is derived.
  abbrev pub OnDecided : Decided → Type 0
  OnDecided (made p ps' new) =
      (v : Version) × (ps' ≡ decide_version ps p v)
      × (ps.decisions p ≡ none)
      × Fits p v (derived_terms [] ps.assignments)
  OnDecided all_done = undecided_packages ps ≡ []
  OnDecided _ = Unit

  pick_fits :
      (c : Candidate) (vs : List ListedVersion)
      → ps.decisions c.pkg ≡ none
      → All (Viable c.pkg) vs
      → OnDecided (pick ps c vs)
  pick_fits c [] h k = tt
  pick_fits c (v ∷ vs) h (k, ks) =
      (v.parsed, refl, h, terms_about-Fits c.pkg v.parsed [] ps.assignments tt k)

  choose_fits : (cs : List Candidate) → All IsCandidate cs → OnDecided (choose ps cs)
  unfolding choose
  choose_fits [] h = tt
  choose_fits (c ∷ cs) ((h, k), hs) = pick_fits c c.choices h k

  gathered_fits : (g : VersionLister × Gathered) → OnGathered g → OnDecided (decide_gathered ps g).1
  gathered_fits (vl, gathered cs) h =
      choose_fits (sort_by fewer cs) (All-sort_by IsCandidate fewer cs h)
  gathered_fits (vl, missing p) h = tt
  gathered_fits (vl, broken e) h = tt

  undecided_from-none :
      (d : Decisions) (seen : List Bytes) (xs : List Assignment)
      → All (λ p. d p ≡ none) (undecided_from d seen xs)
  unfolding undecided_from
  undecided_from-none d seen [] = tt
  undecided_from-none d seen (decision p v n ∷ xs) = undecided_from-none d seen xs
  undecided_from-none d seen (derivation t ic n ∷ xs) =
      elim (Bool-cases (t.positive && not (is_decided d t.pkg) && not (is_member t.pkg seen))) [
        | inl e ↦ rw e (ground arith, undecided_from-none d (t.pkg ∷ seen) xs)
        | inr e ↦ rw e (undecided_from-none d seen xs)
      ]

  undecided_packages-none : All (λ p. ps.decisions p ≡ none) (undecided_packages ps)
  undecided_packages-none =
      unfold undecided_packages in undecided_from-none ps.decisions [] ps.assignments

  sorted_undecided :
      (pkgs : List Bytes)
      → All (λ p. ps.decisions p ≡ none) pkgs
      → All (λ p. ps.decisions p ≡ none) (sort_strings pkgs)
  sorted_undecided pkgs h = unfold sort_strings in All-sort_by _ bytes_less pkgs h

  among_fits :
      (vl : VersionLister) (pkgs : List Bytes)
      → undecided_packages ps ≡ pkgs
      → All (λ p. ps.decisions p ≡ none) pkgs
      → OnDecided (decide_among ps vl pkgs).1
  among_fits vl [] e h = e
  among_fits vl (p ∷ pkgs) e h =
      gathered_fits (gather ps vl (sort_strings (p ∷ pkgs)))
        (gather-IsCandidate vl (sort_strings (p ∷ pkgs)) (sorted_undecided (p ∷ pkgs) h))

  -- decide takes an undecided package, and a version that satisfies every term that is derived on it; that nothing
  -- is left to decide it answers only where no package is undecided.
  pub decide_fits : (vl : VersionLister) → OnDecided (decide ps vl).1
  unfolding decide
  decide_fits vl = among_fits vl (undecided_packages ps) refl (undecided_packages-none)
