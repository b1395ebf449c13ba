-- ===== src/Pipeline/Pruning.antt =====
-- What pruneVendor of internal/orchestrator/pipeline.go removes.
use mathlib.Core.List.{Memᴰ, append_assoc, append-nil}
use gomposer.Prelude.{
  Bool, true, false, ◌||◌, some, List, [], ◌∷◌, ◌++◌, ◌≡◌, ◌≢◌, refl, sym, ap, ◌∙◌, ◌⊎◌, inl, inr,
  Bool-cases, Option-cases, All, All-append, arith, get_or,
}
use gomposer.Prelude.Bytes.{Bytes}
use gomposer.Strings.{eq}
use gomposer.Strings.Equality.{eq_refl, eq_iff}
use gomposer.Vendor.Paths.{CleanPath, safe_vendor_package_path}
use gomposer.Vendor.Names.{safe_vendor_package_path_iff}
use gomposer.Pipeline.Locked.{LockPackage, LockFile}
use gomposer.Pipeline.Effects.{
  Action, remove_all, remove_dir, Run, Ending, returned, raised, done, ◌>>=◌, continue, Host,
  attempt, try, prune_failed,
}
use gomposer.Pipeline.Resolving.{existing_lock}
use gomposer.Pipeline.Phases.{parent, is_kept, prune_package, prune_each, prune_vendor}
use gomposer.Pipeline.Traces.{trace, >>=-returned, Did, Did-later, attempt-returned}
use gomposer.Pipeline.Quiet.{IsQuiet-prune_each}
use gomposer.Pipeline.Extracted.{returned_from}

-- Two packages with one directory have one name.
safe_vendor_package_path-inj :
    (dir n m : Bytes) (dest : CleanPath)
    → safe_vendor_package_path dir n ≡ some dest
    → safe_vendor_package_path dir m ≡ some dest
    → n ≡ m
safe_vendor_package_path-inj dir n m dest hn hm =
    let (a, b, en, pa, pb, dn) = (safe_vendor_package_path_iff dir n dest).0 hn in
    let (c, d, em, pc, pd, dm) = (safe_vendor_package_path_iff dir m dest).0 hm in
    let same = ap (λ p. p.names) (sym dn ∙ dm) in
    let inner = ap (λ ps. get_or ps 0 []) same in
    let outer = ap (λ ps. get_or ps 1 []) same in en ∙ (rw (inner, outer) refl ∙ sym em)

neither : (a b : Bool) → (a || b) ≡ false → (a ≡ false) × (b ≡ false)
neither a b e = ground arith

-- No package of the list has this directory.
abbrev Spares : Bytes → List LockPackage → CleanPath → Type 0
Spares dir current dest = All (λ q. safe_vendor_package_path dir q.name ≢ some dest) current

not_kept-Spares :
    (dir : Bytes) (current : List LockPackage) (name : Bytes) (dest : CleanPath)
    → is_kept current name ≡ false
    → safe_vendor_package_path dir name ≡ some dest
    → Spares dir current dest
unfolding is_kept
not_kept-Spares dir [] name dest k s = tt
not_kept-Spares dir (q ∷ current) name dest k s =
    let (other, rest) = neither (eq q.name name) (is_kept current name) k in
    (
      λ t.
          let same = safe_vendor_package_path-inj dir q.name name dest t s in
          let absurd = sym (eq_refl name) ∙ (rw same at other) in ground (arith, absurd),
      not_kept-Spares dir current name dest rest s,
    )

-- A removal of the directory of an old package that is not kept, which is no directory of a kept one, or of the directory
-- around it if that is empty.
abbrev pub IsPruning : Bytes → List LockPackage → List LockPackage → Action → Type 0
IsPruning dir current old a =
    (p : LockPackage) × (dest : CleanPath) × Memᴰ p old
    × (is_kept current p.name ≡ false)
    × (safe_vendor_package_path dir p.name ≡ some dest)
    × Spares dir current dest
    × ((a ≡ remove_all dest) ⊎ (a ≡ remove_dir (parent dest)))

-- The trace goes on with actions that have the property.
abbrev pub GoesOn {ℓ} : {A : Type ℓ} → (Action → Type 0) → List Action → Ending A → Type 0
GoesOn P tr o = (xs : List Action) × (trace o ≡ tr ++ xs) × All P xs

GoesOn->>= {ℓ κ} :
    {A : Type ℓ} {B : Type κ} (P : Action → Type 0) (r : Run A) (f : A → Run B) (tr : List Action)
    → GoesOn P tr (r tr)
    → ((a : A) (s : List Action) → GoesOn P s (f a s))
    → GoesOn P tr ((r >>= f) tr)
unfolding continue
GoesOn->>= {A = A} P r f tr g k = go (r tr) g
  where
    go : (o : Ending A) → GoesOn P tr o → GoesOn P tr (continue f o)
    go (raised e t) g = g
    go (returned a t) (xs, p, q) =
        let (ys, p', q') = k a t in
        (xs ++ ys, p' ∙ (ap (λ s. s ++ ys) p ∙ append_assoc tr xs ys), All-append P xs ys q q')

is_kept-current :
    (current : List LockPackage) (name : Bytes)
    → is_kept current name ≡ true
    → (q : LockPackage) × Memᴰ q current × (q.name ≡ name)
unfolding is_kept
is_kept-current [] name k = ground (arith, k)
is_kept-current (q ∷ current) name k = elim (Bool-cases (eq q.name name)) [
  | inl e ↦ (q, Memᴰ.head refl, (eq_iff q.name name).0 e)
  | inr e ↦ let (p, m, same) = is_kept-current current name (rw e at k) in (p, Memᴰ.tail m, same)
]

module _ (h : Host) where
  prune_package-GoesOn :
      (P : Action → Type 0) (dir : Bytes) (p : LockPackage) (tr : List Action)
      → ((dest : CleanPath)
          → safe_vendor_package_path dir p.name ≡ some dest
          → P (remove_all dest) × P (remove_dir (parent dest)))
      → GoesOn P tr (prune_package h dir p tr)
  unfolding prune_package attempt try continue
  prune_package-GoesOn P dir p tr fits = elim (Option-cases (safe_vendor_package_path dir p.name)) [
    | inl none_safe ↦ rw (prune_package, none_safe) ([], sym (append-nil tr), tt)
    | inr (dest, safe) ↦ elim (Bool-cases (h.succeeds tr (remove_all dest))) [
      | inl k ↦
          rw (prune_package, safe, attempt, k)
            (
              remove_all dest ∷ remove_dir (parent dest) ∷ [],
              append_assoc tr (remove_all dest ∷ []) (remove_dir (parent dest) ∷ []),
              ((fits dest safe).0, ((fits dest safe).1, tt)),
            )
      | inr k ↦
          rw (prune_package, safe, attempt, k)
            (remove_all dest ∷ [], refl, ((fits dest safe).0, tt))
    ]
  ]

  prune_each-GoesOn :
      (P : Action → Type 0) (dir : Bytes) (current old : List LockPackage) (tr : List Action)
      → ((p : LockPackage) (dest : CleanPath)
          → Memᴰ p old
          → is_kept current p.name ≡ false
          → safe_vendor_package_path dir p.name ≡ some dest
          → P (remove_all dest) × P (remove_dir (parent dest)))
      → GoesOn P tr (prune_each h dir current old tr)
  unfolding prune_each
  prune_each-GoesOn P dir current [] tr fits = ([], sym (append-nil tr), tt)
  prune_each-GoesOn P dir current (p ∷ old) tr fits =
      let rest : (u : Unit {0}) (s : List Action) → GoesOn P s (prune_each h dir current old s) =
        λ u s. prune_each-GoesOn P dir current old s (λ q dest m. fits q dest (Memᴰ.tail m)) in
      elim (Bool-cases (is_kept current p.name)) [
        | inl k ↦
            rw (prune_each, k)
              (GoesOn->>= P (done tt) (λ u. prune_each h dir current old) tr
                ([], sym (append-nil tr), tt) rest)
        | inr k ↦
            rw (prune_each, k)
              (GoesOn->>= P (prune_package h dir p) (λ u. prune_each h dir current old) tr
                (prune_package-GoesOn P dir p tr (λ dest. fits p dest (Memᴰ.head refl) k)) rest)
      ]

  -- Whatever the outcome, pruneVendor with an old lock file `f` only removes directories of two names below vendor/ that
  -- are those of packages of `f`, and not those of a current package, and what is left empty around them.
  pub prune_vendor_only :
      (dir previous : Bytes) (current : List LockPackage) (f : LockFile) (tr : List Action)
      → existing_lock h previous ≡ some f
      → GoesOn
          (IsPruning dir current (f.packages ++ f.packages_dev))
          tr
          (prune_vendor h dir previous current tr)
  unfolding prune_vendor
  prune_vendor_only dir previous current f tr e =
      rw (prune_vendor, e)
        (prune_each-GoesOn (IsPruning dir current (f.packages ++ f.packages_dev)) dir current
          (f.packages ++ f.packages_dev) tr
          (λ p dest m k safe.
            let spared = not_kept-Spares dir current p.name dest k safe in
            ((p, dest, m, k, safe, spared, inl refl), (p, dest, m, k, safe, spared, inr refl))))

  -- A current package has its name, or the directory of the package is removed.
  abbrev pub IsGone : Bytes → List LockPackage → List Action → LockPackage → Type 0
  IsGone dir current t p =
      ((q : LockPackage) × Memᴰ q current × (q.name ≡ p.name))
      ⊎ ((dest : CleanPath) × (safe_vendor_package_path dir p.name ≡ some dest)
          × Did h t (remove_all dest))

  prune_package-returned :
      (dir : Bytes) (p : LockPackage) (tr t : List Action)
      → prune_package h dir p tr ≡ returned tt t
      → (dest : CleanPath) × (safe_vendor_package_path dir p.name ≡ some dest)
        × Did h t (remove_all dest)
  unfolding prune_package try
  prune_package-returned dir p tr t r = elim (Option-cases (safe_vendor_package_path dir p.name)) [
    | inl none_safe ↦ let absurd = rw (prune_package, none_safe) at r in ground (arith, absurd)
    | inr (dest, safe) ↦
        let (u, s, ran, after) = >>=-returned _ _ tr t tt (rw (prune_package, safe) at r) in
        let (grown, ok) = attempt-returned h (prune_failed p.name) (remove_all dest) tr s ran in
        (
          dest,
          safe,
          Did-later h s t (remove_all dest) (remove_dir (parent dest) ∷ [])
              (sym (ap (λ o. trace o) after)) (tr, [], grown, ok),
        )
  ]

  prune_each-returned :
      (dir : Bytes) (current old : List LockPackage) (tr t : List Action)
      → prune_each h dir current old tr ≡ returned tt t
      → All (IsGone dir current t) old
  unfolding prune_each
  prune_each-returned dir current [] tr t r = tt
  prune_each-returned dir current (p ∷ old) tr t r =
      let (u, s, first, rest) = >>=-returned _ _ tr t tt r in
      let (xs, goes_on) =
        returned_from (prune_each h dir current old) s t tt (IsQuiet-prune_each h dir current old)
          rest in
      (
        elim (Bool-cases (is_kept current p.name)) [
          | inl k ↦ inl (is_kept-current current p.name k)
          | inr k ↦
              let (dest, safe, did) = prune_package-returned dir p tr s (rw k at first) in
              inr (dest, safe, Did-later h s t (remove_all dest) xs goes_on did)
        ],
        prune_each-returned dir current old s t rest,
      )

  -- Where pruneVendor with an old lock file `f` returns, for every package of `f` there is a current package of the same
  -- name, or its name has a directory below vendor/ and the removal of this directory was done and succeeded.
  pub prune_vendor-returned :
      (dir previous : Bytes) (current : List LockPackage) (f : LockFile) (tr t : List Action)
      → existing_lock h previous ≡ some f
      → prune_vendor h dir previous current tr ≡ returned tt t
      → All (IsGone dir current t) (f.packages ++ f.packages_dev)
  unfolding prune_vendor
  prune_vendor-returned dir previous current f tr t e r =
      prune_each-returned dir current (f.packages ++ f.packages_dev) tr t
        (rw (prune_vendor, e) at r)
