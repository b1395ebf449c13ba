-- ===== src/Pipeline/Evaluation.antt =====
-- What evaluatePlatformWarnings of internal/orchestrator/pipeline.go answers.
use mathlib.Core.Path.{subst}
use mathlib.Core.List.{Memᴰ}
use mathlib.Core.List.Memᴰ
use gomposer.Prelude.{
  Bool, true, false, ◌||◌, Option, none, some, List, [], ◌∷◌, ◌++◌, ◌≡◌, ◌↔◌, refl, sym, ap, ◌∙◌,
  ◌⊎◌, inl, inr, Bool-cases, if◌then◌else◌, All, arith,
}
use gomposer.Prelude.Bytes.{Bytes}
use gomposer.Platform.{Platform, Violation, check}
use gomposer.Pipeline.Locked.{LockPackage}
use gomposer.Pipeline.Warnings.{
  format_violation, is_lib, lines_of, violation_lines, lib_line, fatal, evaluate_platform_warnings,
}

append-nil_left {ℓ} : {A : Type ℓ} (xs ys : List A) → xs ++ ys ≡ [] → (xs ≡ []) × (ys ≡ [])
append-nil_left [] ys e = (refl, e)
append-nil_left (x ∷ xs) ys e = ground (arith, e)

-- Every violation is about a library.
abbrev pub HasOnlyLibs : Option Platform → (Bytes → Bool) → LockPackage → Type 0
HasOnlyLibs pf ignored p = All (λ v. is_lib v ≡ true) (check p.requires pf ignored)

lines_of-libs :
    (pkg : Bytes) (vs : List Violation) → ((lines_of pkg vs).0 ≡ []) ↔ All (λ v. is_lib v ≡ true) vs
unfolding lines_of
lines_of-libs pkg [] = (λ e. tt, λ a. refl)
lines_of-libs pkg (v ∷ vs) = (
  λ e. elim (Bool-cases (is_lib v)) [
    | inl l ↦ (l, (lines_of-libs pkg vs).0 (rw (lines_of, l) at e))
    | inr l ↦ let absurd = rw (lines_of, l) at e in ground (arith, absurd)
  ],
  λ a. rw (lines_of, a.0) ((lines_of-libs pkg vs).1 a.1),
)

violation_lines-libs :
    (pf : Option Platform) (ignored : Bytes → Bool) (ps : List LockPackage)
    → ((violation_lines pf ignored ps).0 ≡ []) ↔ All (HasOnlyLibs pf ignored) ps
unfolding violation_lines
violation_lines-libs pf ignored [] = (λ e. tt, λ a. refl)
violation_lines-libs pf ignored (p ∷ ps) = (
  λ e.
      let (here, later) =
        append-nil_left (lines_of p.name (check p.requires pf ignored)).0
          (violation_lines pf ignored ps).0 e in
      (
        (lines_of-libs p.name (check p.requires pf ignored)).0 here,
        (violation_lines-libs pf ignored ps).0 later,
      ),
  λ a.
      rw
        (
          violation_lines,
          (lines_of-libs p.name (check p.requires pf ignored)).1 a.0,
          (violation_lines-libs pf ignored ps).1 a.1,
        )
        refl,
)

fatal-none :
    (no_dev : Bool) (lines : List Bytes)
    → (fatal no_dev lines ≡ none) ↔ ((no_dev ≡ false) ⊎ (lines ≡ []))
fatal-none true [] = (λ e. inr refl, λ e. refl)
fatal-none true (l ∷ ls) =
    (λ e. ground (arith, e), λ o. elim o [ inl e ↦ ground (arith, e) | inr e ↦ ground (arith, e) ])
fatal-none false ls = (λ e. inl refl, λ e. refl)

-- The line is that of a violation that is not about a library.
abbrev IsLine : Bytes → List Violation → Bytes → Type 0
IsLine pkg vs l = (v : Violation) × Memᴰ v vs × (is_lib v ≡ false) × (l ≡ format_violation pkg v)

abbrev HasLib : List Violation → Type 0
HasLib vs = (v : Violation) × Memᴰ v vs × (is_lib v ≡ true)

lines_of-member :
    (pkg : Bytes) (vs : List Violation) (l : Bytes) → Memᴰ l (lines_of pkg vs).0 ↔ IsLine pkg vs l
unfolding lines_of
lines_of-member pkg [] l = (λ m. elim (Memᴰ.not-nil m) [ ], λ h. elim (Memᴰ.not-nil h.1) [ ])
lines_of-member pkg (v ∷ vs) l =
    let (there, back) = lines_of-member pkg vs l in
    elim (Bool-cases (is_lib v)) [
      | inl e ↦ rw e (
        λ m. let (w, k, n, q) = there m in (w, Memᴰ.tail k, n, q),
        λ h.
            let (w, k, n, q) = h in
            elim (Memᴰ.cases_cons k) [
              | inl p ↦
                  let absurd = sym e ∙ (ap (λ x. is_lib x) (sym p) ∙ n) in ground (arith, absurd)
              | inr k' ↦ back (w, k', n, q)
            ],
      )
      | inr e ↦ rw e (
        λ m. elim (Memᴰ.cases_cons m) [
          | inl q ↦ (v, Memᴰ.head refl, e, q)
          | inr k ↦ let (w, k', n, q) = there k in (w, Memᴰ.tail k', n, q)
        ],
        λ h.
            let (w, k, n, q) = h in
            elim (Memᴰ.cases_cons k) [
              | inl p ↦ Memᴰ.head (q ∙ ap (λ x. format_violation pkg x) p)
              | inr k' ↦ Memᴰ.tail (back (w, k', n, q))
            ],
      )
    ]

lines_of-lib : (pkg : Bytes) (vs : List Violation) → ((lines_of pkg vs).1 ≡ true) ↔ HasLib vs
unfolding lines_of
lines_of-lib pkg [] = (λ e. ground (arith, e), λ h. elim (Memᴰ.not-nil h.1) [ ])
lines_of-lib pkg (v ∷ vs) =
    let (there, back) = lines_of-lib pkg vs in
    elim (Bool-cases (is_lib v)) [
      | inl e ↦ rw e (λ m. (v, Memᴰ.head refl, e), λ h. refl)
      | inr e ↦ rw e (
        λ m. let (w, k, n) = there m in (w, Memᴰ.tail k, n),
        λ h.
            let (w, k, n) = h in
            elim (Memᴰ.cases_cons k) [
              | inl p ↦
                  let absurd = sym e ∙ (ap (λ x. is_lib x) (sym p) ∙ n) in ground (arith, absurd)
              | inr k' ↦ back (w, k', n)
            ],
      )
    ]

-- Some package has the property.
abbrev pub Some : (LockPackage → Type 0) → List LockPackage → Type 0
Some P ps = (p : LockPackage) × Memᴰ p ps × P p

Some-later :
    (P : LockPackage → Type 0) (p : LockPackage) (ps : List LockPackage)
    → Some P (p ∷ ps)
    → P p ⊎ Some P ps
Some-later P p ps (q, m, h) = elim (Memᴰ.cases_cons m) [
  | inl e ↦ inl (subst P e h)
  | inr k ↦ inr (q, k, h)
]

-- The line is that of a requirement of the package that the platform does not meet, that is not ignored and not about a
-- library.
abbrev pub HasLine : Option Platform → (Bytes → Bool) → Bytes → LockPackage → Type 0
HasLine pf ignored l p =
    (v : Violation) × Memᴰ v (check p.requires pf ignored)
    × (is_lib v ≡ false)
    × (l ≡ format_violation p.name v)

-- The package has a requirement about a library that is not ignored.
abbrev pub NamesLib : Option Platform → (Bytes → Bool) → LockPackage → Type 0
NamesLib pf ignored p = (v : Violation) × Memᴰ v (check p.requires pf ignored) × (is_lib v ≡ true)

violation_lines-member :
    (pf : Option Platform) (ignored : Bytes → Bool) (ps : List LockPackage) (l : Bytes)
    → Memᴰ l (violation_lines pf ignored ps).0 ↔ Some (HasLine pf ignored l) ps
unfolding violation_lines
violation_lines-member pf ignored [] l =
    (λ m. elim (Memᴰ.not-nil m) [ ], λ h. elim (Memᴰ.not-nil h.1) [ ])
violation_lines-member pf ignored (p ∷ ps) l =
    let (there, back) = violation_lines-member pf ignored ps l in
    let (line, listed) = lines_of-member p.name (check p.requires pf ignored) l in
    let here = (lines_of p.name (check p.requires pf ignored)).0 in
    (
      λ m. elim (Memᴰ.append_cases here m) [
        | inl k ↦ (p, Memᴰ.head refl, line k)
        | inr k ↦ let (q, m', h) = there k in (q, Memᴰ.tail m', h)
      ],
      λ s. elim (Some-later (HasLine pf ignored l) p ps s) [
        | inl h ↦ Memᴰ.append_left (violation_lines pf ignored ps).0 (listed h)
        | inr h ↦ Memᴰ.append_right here (back h)
      ],
    )

or_true : (a b : Bool) → ((a || b) ≡ true) ↔ ((a ≡ true) ⊎ (b ≡ true))
or_true a b = ground arith

violation_lines-lib :
    (pf : Option Platform) (ignored : Bytes → Bool) (ps : List LockPackage)
    → ((violation_lines pf ignored ps).1 ≡ true) ↔ Some (NamesLib pf ignored) ps
unfolding violation_lines
violation_lines-lib pf ignored [] = (λ e. ground (arith, e), λ h. elim (Memᴰ.not-nil h.1) [ ])
violation_lines-lib pf ignored (p ∷ ps) =
    let (there, back) = violation_lines-lib pf ignored ps in
    let (names, named) = lines_of-lib p.name (check p.requires pf ignored) in
    let either =
      or_true (lines_of p.name (check p.requires pf ignored)).1 (violation_lines pf ignored ps).1 in
    (
      λ e. elim (either.0 e) [
        | inl k ↦ (p, Memᴰ.head refl, names k)
        | inr k ↦ let (q, m, h) = there k in (q, Memᴰ.tail m, h)
      ],
      λ s. elim (Some-later (NamesLib pf ignored) p ps s) [
        | inl h ↦ either.1 (inl (named h))
        | inr h ↦ either.1 (inr (back h))
      ],
    )

lib_line_added :
    (lines : List Bytes) (saw_lib : Bool) (l : Bytes)
    → Memᴰ l (lines ++ (if saw_lib then lib_line else []))
      ↔ (Memᴰ l lines ⊎ ((saw_lib ≡ true) × Memᴰ l lib_line))
lib_line_added lines true l = (
  λ m. elim (Memᴰ.append_cases lines m) [ inl k ↦ inl k | inr k ↦ inr (refl, k) ],
  λ o. elim o [ inl k ↦ Memᴰ.append_left lib_line k | inr (e, k) ↦ Memᴰ.append_right lines k ],
)
lib_line_added lines false l = (
  λ m. elim (Memᴰ.append_cases lines m) [ inl k ↦ inl k | inr k ↦ elim (Memᴰ.not-nil k) [ ] ],
  λ o. elim o [ inl k ↦ Memᴰ.append_left [] k | inr (e, k) ↦ ground (arith, e) ],
)

hard_fails-none :
    (pkgs : List LockPackage) (pf : Platform) (ignored : Bytes → Bool) (no_dev : Bool)
    → ((evaluate_platform_warnings pkgs (some pf) ignored no_dev).hard_fails ≡ none)
      ↔ ((no_dev ≡ false) ⊎ All (HasOnlyLibs (some pf) ignored) pkgs)
unfolding evaluate_platform_warnings
hard_fails-none pkgs pf ignored no_dev =
    let (there, back) = fatal-none no_dev (violation_lines (some pf) ignored pkgs).0 in
    let (libs, no_lines) = violation_lines-libs (some pf) ignored pkgs in
    (
      λ e. elim (there e) [ inl d ↦ inl d | inr l ↦ inr (libs l) ],
      λ o. elim o [ inl d ↦ back (inl d) | inr a ↦ back (inr (no_lines a)) ],
    )

-- With a platform, the warnings of evaluatePlatformWarnings are exactly these: the line of each requirement of a package
-- that the platform does not meet, that is not ignored and not about a library, and the line about libraries, which is
-- there exactly if some package has such a requirement. It does not fail exactly if the run includes development or every
-- requirement that is not met and not ignored is about a library.
pub evaluate_platform_warnings_iff :
    (pkgs : List LockPackage) (pf : Platform) (ignored : Bytes → Bool) (no_dev : Bool)
    → ((l : Bytes)
        → Memᴰ l (evaluate_platform_warnings pkgs (some pf) ignored no_dev).warnings ↔ (
            Some (HasLine (some pf) ignored l) pkgs
            ⊎ (Some (NamesLib (some pf) ignored) pkgs × Memᴰ l lib_line)))
      × (((evaluate_platform_warnings pkgs (some pf) ignored no_dev).hard_fails ≡ none)
          ↔ ((no_dev ≡ false) ⊎ All (HasOnlyLibs (some pf) ignored) pkgs))
unfolding evaluate_platform_warnings
evaluate_platform_warnings_iff pkgs pf ignored no_dev =
    let both = violation_lines (some pf) ignored pkgs in
    let (libs, has_libs) = violation_lines-lib (some pf) ignored pkgs in
    (
      λ l.
          let (split, joined) = lib_line_added both.0 both.1 l in
          let (line, listed) = violation_lines-member (some pf) ignored pkgs l in
          (
            λ m. elim (split m) [ inl k ↦ inl (line k) | inr (e, k) ↦ inr (libs e, k) ],
            λ o. elim o [
              | inl h ↦ joined (inl (listed h))
              | inr (h, k) ↦ joined (inr (has_libs h, k))
            ],
          ),
      hard_fails-none pkgs pf ignored no_dev,
    )
