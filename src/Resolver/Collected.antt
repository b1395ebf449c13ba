-- ===== src/Resolver/Collected.antt =====
-- internal/resolver/solve.go, buildResult: each decided package is listed, and nothing else.
use gomposer.Prelude.{
  ℕ, Bool, true, false, some, List, [], ◌∷◌, ◌≡◌, refl, arith, All, All-append, Bool-cases, inl,
  inr, ◌⊎◌, Option, none, sym, ◌∙◌,
}
use mathlib.Core.Path.{subst}
use mathlib.Core.List.{Memᴰ}
use mathlib.Core.List.Memᴰ
use gomposer.Strings.Equality.{eq_iff}
use gomposer.Prelude.Bytes.{Bytes}
use gomposer.Strings.{eq}
use gomposer.Constraint.Version.{Version}
use gomposer.Resolver.Solution.{Assignment, decision, derivation}
use gomposer.Resolver.Versions.{
  VersionLister, Versions, listed, package_not_found, error, versions, ListedVersion, answer,
  look_up, Lookup, found, failed, is_not_found_err,
}
use gomposer.Resolver.Solve.{root_package}
use gomposer.Resolver.Result.{ResolvedPackage, Result, resolved, add_resolved, row_of, collect}

-- The rows of a decided package are known to the lister.
abbrev pub IsListedBy : VersionLister → Assignment → Type 0
IsListedBy vl (decision p v n) =
    (eq p root_package ≡ true) ⊎ ((rows : List ListedVersion) × (vl.cache p ≡ some rows))
IsListedBy vl (derivation t ic n) = Unit

abbrev pub share : Bool → Result → List ResolvedPackage
share true r = r.packages_dev
share false r = r.packages

-- A decided package that is not the root is in its share, with the version decided and the row of this version.
abbrev pub IsShown : VersionLister → (Bytes → Bool) → Result → Assignment → Type 0
IsShown vl dev_only r (decision p v n) =
    (eq p root_package ≡ true)
    ⊎ ((rows : List ListedVersion) × (vl.cache p ≡ some rows)
        × Memᴰ (record { name = p; version = v; row = row_of rows v }) (share (dev_only p) r))
IsShown vl dev_only r (derivation t ic n) = Unit

-- A listed package is a decided one.
abbrev pub IsDecidedBy : List Assignment → ResolvedPackage → Type 0
IsDecidedBy xs rp = (n : ℕ) × Memᴰ (decision rp.name rp.version n) xs

abbrev Includes : VersionLister → VersionLister → Type 0
Includes vl vl' =
    (p : Bytes) (rows : List ListedVersion) → vl.cache p ≡ some rows → vl'.cache p ≡ some rows

versions-Includes : (vl : VersionLister) (p : Bytes) → Includes vl (versions vl p).0
unfolding versions
versions-Includes vl p = go (vl.cache p) refl
  where
    answered : (l : Lookup) → vl.cache p ≡ none → Includes vl (answer vl p l).0
    answered (found rows) e q rows' k = elim (Bool-cases (eq p q)) [
      | inl s ↦
          let same = (eq_iff p q).0 s in
          let absurd = sym e ∙ (rw (sym same) at k) in ground (arith, absurd)
      | inr s ↦ rw s k
    ]
    answered (failed chain) e q rows' k = elim (Bool-cases (is_not_found_err chain)) [
      | inl s ↦ rw s k
      | inr s ↦ rw s k
    ]

    go : (o : Option (List ListedVersion)) → vl.cache p ≡ o → Includes vl (look_up vl p o).0
    go (some vs) e q rows k = k
    go none e q rows k = elim (Bool-cases (vl.not_found p)) [
      | inl s ↦ rw s k
      | inr s ↦ rw s (answered (vl.source p) e q rows k)
    ]

module _ (vl : VersionLister) (dev_only : Bytes → Bool) where
  share-add_resolved :
      (b c : Bool) (rps : List ResolvedPackage) (r : VersionLister × Result) (rp : ResolvedPackage)
      → Memᴰ rp (share b r.1)
      → Memᴰ rp (share b (add_resolved c rps r).1)
  share-add_resolved true true rps r rp m = Memᴰ.append_right rps m
  share-add_resolved true false rps r rp m = m
  share-add_resolved false true rps r rp m = m
  share-add_resolved false false rps r rp m = Memᴰ.append_right rps m

  share_added :
      (b : Bool) (rps : List ResolvedPackage) (r : VersionLister × Result) (rp : ResolvedPackage)
      → Memᴰ rp rps
      → Memᴰ rp (share b (add_resolved b rps r).1)
  share_added true rps (vl', r) rp m = Memᴰ.append_left r.packages_dev m
  share_added false rps (vl', r) rp m = Memᴰ.append_left r.packages m

  pub IsShown-mono :
      (r s : Result) (xs : List Assignment)
      → ((b : Bool) (rp : ResolvedPackage) → Memᴰ rp (share b r) → Memᴰ rp (share b s))
      → All (IsShown vl dev_only r) xs
      → All (IsShown vl dev_only s) xs
  IsShown-mono r s [] h a = tt
  IsShown-mono r s (derivation t ic n ∷ xs) h (p, a) = (tt, IsShown-mono r s xs h a)
  IsShown-mono r s (decision p v n ∷ xs) h (inl e, a) = (inl e, IsShown-mono r s xs h a)
  IsShown-mono r s (decision p v n ∷ xs) h (inr (rows, c, m), a) =
      (inr (rows, c, h (dev_only p) _ m), IsShown-mono r s xs h a)

  collect_root :
      (vl' : VersionLister) (p : Bytes) (v : Version) (n : ℕ) (xs : List Assignment)
      → eq p root_package ≡ true
      → collect dev_only vl' xs ≡ collect dev_only vl' (decision p v n ∷ xs)
  unfolding collect
  collect_root vl' p v n xs e = rw e refl

  collect_other :
      (vl' : VersionLister) (p : Bytes) (v : Version) (n : ℕ) (xs : List Assignment)
      → eq p root_package ≡ false
      → add_resolved
          (dev_only p)
          (resolved p v (versions vl' p).1)
          (collect dev_only (versions vl' p).0 xs)
        ≡ collect dev_only vl' (decision p v n ∷ xs)
  unfolding collect
  collect_other vl' p v n xs e = rw e refl

  abbrev AllShown : List Assignment → VersionLister × Result → Type 0
  AllShown xs r = All (IsShown vl dev_only r.1) xs

  pub collect-IsShown :
      (vl' : VersionLister) (xs : List Assignment)
      → Includes vl vl'
      → All (IsListedBy vl) xs
      → All (IsShown vl dev_only (collect dev_only vl' xs).1) xs
  unfolding collect versions
  collect-IsShown vl' [] i h = tt
  collect-IsShown vl' (derivation t ic n ∷ xs) i (u, h) = (tt, collect-IsShown vl' xs i h)
  collect-IsShown vl' (decision p v n ∷ xs) i (l, h) = elim (Bool-cases (eq p root_package)) [
    | inl e ↦
        subst (AllShown (decision p v n ∷ xs)) (collect_root vl' p v n xs e)
          (inl e, collect-IsShown vl' xs i h)
    | inr e ↦
        let next = collect dev_only (versions vl' p).0 xs in
        let rps = resolved p v (versions vl' p).1 in
        let later : All (IsShown vl dev_only (add_resolved (dev_only p) rps next).1) xs =
          IsShown-mono next.1 (add_resolved (dev_only p) rps next).1 xs
            (λ b rp. share-add_resolved b (dev_only p) rps next rp)
            (collect-IsShown (versions vl' p).0 xs
              (λ q rows k. versions-Includes vl' p q rows (i q rows k)) h) in
        elim l [
          | inl root ↦ let absurd = sym e ∙ root in ground (arith, absurd)
          | inr (rows, c) ↦
              let listed_there : rps
                  ≡ (record { name = p; version = v; row = row_of rows v }) ∷ [] =
                rw (i p rows c) refl in
              let shown =
                share_added (dev_only p) rps next
                  (record { name = p; version = v; row = row_of rows v })
                  (subst
                    (λ (ys : List ResolvedPackage).
                      Memᴰ (record { name = p; version = v; row = row_of rows v }) ys)
                    (sym listed_there) (Memᴰ.head refl)) in
              subst (AllShown (decision p v n ∷ xs)) (collect_other vl' p v n xs e)
                (inr (rows, c, shown), later)
        ]
  ]

module _ (dev_only : Bytes → Bool) where
  abbrev AreDecidedBy : List Assignment → Result → Type 0
  AreDecidedBy xs r = All (IsDecidedBy xs) r.packages × All (IsDecidedBy xs) r.packages_dev

  IsDecidedBy-later :
      (x : Assignment) (xs : List Assignment) (rps : List ResolvedPackage)
      → All (IsDecidedBy xs) rps
      → All (IsDecidedBy (x ∷ xs)) rps
  IsDecidedBy-later x xs [] h = tt
  IsDecidedBy-later x xs (rp ∷ rps) ((n, m), h) = ((n, Memᴰ.tail m), IsDecidedBy-later x xs rps h)

  resolved-IsDecidedBy :
      (p : Bytes) (v : Version) (n : ℕ) (xs : List Assignment) (vs : Versions)
      → All (IsDecidedBy (decision p v n ∷ xs)) (resolved p v vs)
  resolved-IsDecidedBy p v n xs (listed vs) = ((n, Memᴰ.head refl), tt)
  resolved-IsDecidedBy p v n xs package_not_found = tt
  resolved-IsDecidedBy p v n xs (error e) = tt

  add_resolved-AreDecidedBy :
      (b : Bool) (xs : List Assignment) (rps : List ResolvedPackage) (r : VersionLister × Result)
      → All (IsDecidedBy xs) rps
      → AreDecidedBy xs r.1
      → AreDecidedBy xs (add_resolved b rps r).1
  add_resolved-AreDecidedBy true xs rps (vl, r) h (k, l) = (k, All-append _ rps r.packages_dev h l)
  add_resolved-AreDecidedBy false xs rps (vl, r) h (k, l) = (All-append _ rps r.packages h k, l)

  pub collect-AreDecidedBy :
      (vl : VersionLister) (xs : List Assignment) → AreDecidedBy xs (collect dev_only vl xs).1
  unfolding collect
  collect-AreDecidedBy vl [] = (tt, tt)
  collect-AreDecidedBy vl (derivation t ic n ∷ xs) =
      let (a, b) = collect-AreDecidedBy vl xs in
      (IsDecidedBy-later _ xs _ a, IsDecidedBy-later _ xs _ b)
  collect-AreDecidedBy vl (decision p v n ∷ xs) =
      let x = decision p v n in
      elim (Bool-cases (eq p root_package)) [
        | inl e ↦
            let (a, b) = collect-AreDecidedBy vl xs in
            rw e (IsDecidedBy-later x xs _ a, IsDecidedBy-later x xs _ b)
        | inr e ↦
            let (a, b) = collect-AreDecidedBy (versions vl p).0 xs in
            rw e (
              add_resolved-AreDecidedBy (dev_only p) (x ∷ xs) _
                (collect dev_only (versions vl p).0 xs)
                (resolved-IsDecidedBy p v n xs (versions vl p).1)
                (IsDecidedBy-later x xs _ a, IsDecidedBy-later x xs _ b))
      ]
