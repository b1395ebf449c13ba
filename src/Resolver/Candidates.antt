-- ===== src/Resolver/Candidates.antt =====
-- internal/resolver/versions.go: the candidate versions and the lister's cache.
use gomposer.Prelude.{
  All, ◌↔◌, true, false, Option, none, some, List, [], ◌∷◌, ◌≡◌, ◌≢◌, refl, arith, Bool-cases, inl,
  inr, ◌≤◌, ◌⊎◌, ap,
}
use gomposer.Prelude.Bytes.{Bytes}
use gomposer.Strings.Equality.{eq_refl}
use gomposer.Sort.{sort_by}
use gomposer.Sort.Laws.{sort_by_nil, All-sort_by, IsSorted, sort_by-IsSorted}
use gomposer.Constraint.Version.{Version, Result, ok, err, rank, is_dev, parse_version}
use gomposer.Constraint.Order.{compare_versions-IsOrder}
use gomposer.Resolver.Versions.{
  stability_floor, PackageVersion, ListedVersion, Lookup, found, failed, VersionLister, admits,
  version_installable, listed_of, parse_rows, newer, keep_installable, non_empty_or, candidates,
  is_not_found_err, error, look_up, answer, versions,
}

-- The version is as stable as the package's floor, or it is of a branch that is allowed for the package.
abbrev pub Fits : VersionLister → Bytes → Version → Type 0
Fits vl pkg v =
    (rank (stability_floor vl pkg) ≤ rank v.stability)
    ⊎ ((is_dev v.stability ≡ true) × (vl.allow_dev pkg v.branch ≡ true))

-- The version is what its row parses to, and it fits.
abbrev pub IsAdmitted : VersionLister → Bytes → ListedVersion → Type 0
IsAdmitted vl pkg v = (parse_version v.package_version.version ≡ ok v.parsed) × Fits vl pkg v.parsed

-- The row parses to no version that fits.
abbrev pub IsRejected : VersionLister → Bytes → PackageVersion → Type 0
IsRejected vl pkg rv = (v : Version) → parse_version rv.version ≡ ok v → ¬ Fits vl pkg v

admits_iff :
    (vl : VersionLister) (pkg : Bytes) (v : Version) → (admits vl pkg v ≡ true) ↔ Fits vl pkg v
unfolding admits
admits_iff vl pkg v = ground arith

abbrev version_of : Version → Result Version → Version
version_of d (ok v) = v
version_of d (err e) = d

listed_of-nil :
    (vl : VersionLister) (pkg : Bytes) (rv : PackageVersion) (r : Result Version)
    (later : List ListedVersion)
    → (listed_of vl pkg rv r later ≡ [])
      ↔ (((v : Version) → r ≡ ok v → ¬ Fits vl pkg v) × (later ≡ []))
listed_of-nil vl pkg rv (err e) later =
    (λ n. (λ v p f. let absurd = p in ground (arith, absurd), n), λ n. n.1)
listed_of-nil vl pkg rv (ok v) later = elim (Bool-cases (admits vl pkg v)) [
  | inl e ↦ rw e (λ n. ground (arith, n), λ n. absurd (n.0 v refl ((admits_iff vl pkg v).0 e)))
  | inr e ↦ rw e (
    λ n. (
      λ w p f.
          let same = ap (version_of v) p in
          let k = (admits_iff vl pkg w).1 f in let no = rw same at e in ground (arith, k, no),
      n,
    ),
    λ n. n.1,
  )
]

parse_rows-nil :
    (vl : VersionLister) (pkg : Bytes) (rows : List PackageVersion)
    → (parse_rows vl pkg rows ≡ []) ↔ All (IsRejected vl pkg) rows
unfolding parse_rows
parse_rows-nil vl pkg [] = (λ n. tt, λ n. refl)
parse_rows-nil vl pkg (rv ∷ rows) =
    let here = listed_of-nil vl pkg rv (parse_version rv.version) (parse_rows vl pkg rows) in
    let later = parse_rows-nil vl pkg rows in
    (λ n. let (a, b) = here.0 n in (a, later.0 b), λ n. here.1 (n.0, later.1 n.1))

newer-asym : (a b : ListedVersion) → newer b a ≡ true → newer a b ≡ false
unfolding newer
newer-asym a b h = ground (arith, (compare_versions-IsOrder).swapped a.parsed b.parsed)

newer_trans : (a b c : ListedVersion) → newer b a ≡ false → newer c b ≡ false → newer c a ≡ false
unfolding newer
newer_trans a b c h k =
    let o = compare_versions-IsOrder in
    ground (
      arith,
      o.swapped a.parsed b.parsed,
      o.swapped b.parsed c.parsed,
      o.swapped a.parsed c.parsed,
      o.lt_trans c.parsed b.parsed a.parsed,
      o.eq_left c.parsed b.parsed a.parsed,
      o.eq_left a.parsed b.parsed c.parsed,
    )

listed_of-IsAdmitted :
    (vl : VersionLister) (pkg : Bytes) (rv : PackageVersion) (r : Result Version)
    (later : List ListedVersion)
    → parse_version rv.version ≡ r
    → All (IsAdmitted vl pkg) later
    → All (IsAdmitted vl pkg) (listed_of vl pkg rv r later)
listed_of-IsAdmitted vl pkg rv (err e) later h k = k
listed_of-IsAdmitted vl pkg rv (ok v) later h k = elim (Bool-cases (admits vl pkg v)) [
  | inl e ↦ rw e ((h, (admits_iff vl pkg v).0 e), k)
  | inr e ↦ rw e k
]

parse_rows-IsAdmitted :
    (vl : VersionLister) (pkg : Bytes) (rows : List PackageVersion)
    → All (IsAdmitted vl pkg) (parse_rows vl pkg rows)
unfolding parse_rows
parse_rows-IsAdmitted vl pkg [] = tt
parse_rows-IsAdmitted vl pkg (rv ∷ rows) =
    listed_of-IsAdmitted vl pkg rv (parse_version rv.version) (parse_rows vl pkg rows) refl
      (parse_rows-IsAdmitted vl pkg rows)

All-keep_installable {ℓ} :
    (P : ListedVersion → Type ℓ) (vl : VersionLister) (vs : List ListedVersion)
    → All P vs
    → All P (keep_installable vl vs)
unfolding keep_installable
All-keep_installable P vl [] h = tt
All-keep_installable P vl (v ∷ vs) (h, hs) =
    elim (Bool-cases (version_installable vl v.package_version)) [
      | inl e ↦ rw e (h, All-keep_installable P vl vs hs)
      | inr e ↦ rw e (All-keep_installable P vl vs hs)
    ]

keep_installable-IsSorted :
    (vl : VersionLister) (vs : List ListedVersion)
    → IsSorted newer vs
    → IsSorted newer (keep_installable vl vs)
unfolding keep_installable
keep_installable-IsSorted vl [] h = tt
keep_installable-IsSorted vl (v ∷ vs) (h, hs) =
    elim (Bool-cases (version_installable vl v.package_version)) [
      | inl e ↦ rw e (All-keep_installable _ vl vs h, keep_installable-IsSorted vl vs hs)
      | inr e ↦ rw e (keep_installable-IsSorted vl vs hs)
    ]

non_empty_or_lem {ℓ} :
    (P : List ListedVersion → Type ℓ) (vs raw : List ListedVersion)
    → P vs
    → P raw
    → P (non_empty_or vs raw)
non_empty_or_lem P [] raw h k = k
non_empty_or_lem P (v ∷ vs) raw h k = h

kept_nil :
    (vl : VersionLister) (raw : List ListedVersion)
    → (non_empty_or (keep_installable vl raw) raw ≡ []) ↔ (raw ≡ [])
unfolding keep_installable
kept_nil vl [] = ((λ h. h), (λ h. h))
kept_nil vl (v ∷ vs) = ground arith

abbrev IsListing : VersionLister → Bytes → List ListedVersion → Type 0
IsListing vl pkg vs = All (IsAdmitted vl pkg) vs × IsSorted newer vs

-- Whatever the registry lists, each candidate is what its row parses to, and it is as stable as the floor of its package
-- or of a branch that is allowed; no candidate is followed by a newer one; and there is none exactly if no row parses to
-- such a version: the platform filter does not take the last candidates away.
pub candidates_lem :
    (vl : VersionLister) (pkg : Bytes) (rows : List PackageVersion)
    → All (IsAdmitted vl pkg) (candidates vl pkg rows)
      × IsSorted newer (candidates vl pkg rows)
      × ((candidates vl pkg rows ≡ []) ↔ All (IsRejected vl pkg) rows)
unfolding candidates
candidates_lem vl pkg rows =
    let raw = sort_by newer (parse_rows vl pkg rows) in
    let good : IsListing vl pkg raw = (
      All-sort_by _ newer (parse_rows vl pkg rows) (parse_rows-IsAdmitted vl pkg rows),
      sort_by-IsSorted newer newer-asym newer_trans (parse_rows vl pkg rows),
    ) in
    let kept : IsListing vl pkg (keep_installable vl raw) =
      (All-keep_installable _ vl raw good.0, keep_installable-IsSorted vl raw good.1) in
    let n = sort_by_nil newer (parse_rows vl pkg rows) in
    let p = parse_rows-nil vl pkg rows in
    elim (Bool-cases vl.strict) [
      | inr e ↦ simp e (good.0, good.1, (λ h. p.0 (n.0 h), λ h. n.1 (p.1 h)))
      | inl e ↦
          let k = kept_nil vl raw in
          let nil_iff : (non_empty_or (keep_installable vl raw) raw ≡ [])
              ↔ All (IsRejected vl pkg) rows =
            ((λ h. p.0 (n.0 (k.0 h))), (λ h. k.1 (n.1 (p.1 h)))) in
          let (a, b) =
            non_empty_or_lem (IsListing vl pkg) (keep_installable vl raw) raw kept good in
          simp e (a, b, nil_iff)
    ]

answer_kept :
    (vl : VersionLister) (pkg : Bytes) (source : Bytes → Lookup) (l : Lookup)
    → vl.cache pkg ≡ none
    → ((chain : List Bytes) → (answer vl pkg l).1 ≢ error chain)
    → (versions (record (answer vl pkg l).0 { source = source }) pkg).1 ≡ (answer vl pkg l).1
unfolding versions
answer_kept vl pkg source (found rows) e h = rw (eq_refl pkg) refl
answer_kept vl pkg source (failed chain) e h = elim (Bool-cases (is_not_found_err chain)) [
  | inl m ↦ simp (m, e, eq_refl pkg) refl
  | inr m ↦ absurd (h chain (rw m refl))
]

look_up_kept :
    (vl : VersionLister) (pkg : Bytes) (source : Bytes → Lookup) (o : Option (List ListedVersion))
    → vl.cache pkg ≡ o
    → ((chain : List Bytes) → (look_up vl pkg o).1 ≢ error chain)
    → (versions (record (look_up vl pkg o).0 { source = source }) pkg).1 ≡ (look_up vl pkg o).1
unfolding versions
look_up_kept vl pkg source (some vs) e h = simp e refl
look_up_kept vl pkg source none e h = elim (Bool-cases (vl.not_found pkg)) [
  | inl m ↦ simp (m, e) refl
  | inr m ↦ simp m (answer_kept vl pkg source (vl.source pkg) e (λ chain q. h chain (rw m q)))
]

-- What was listed, or not found, and did not fail otherwise, is not asked of the registry again: another registry would get the same answer.
versions_cached :
    (vl : VersionLister) (pkg : Bytes) (source : Bytes → Lookup)
    → ((chain : List Bytes) → (versions vl pkg).1 ≢ error chain)
    → (versions (record (versions vl pkg).0 { source = source }) pkg).1 ≡ (versions vl pkg).1
unfolding versions
versions_cached vl pkg source h = look_up_kept vl pkg source (vl.cache pkg) refl h
