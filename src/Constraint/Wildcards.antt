-- ===== src/Constraint/Wildcards.antt =====
-- internal/constraint/constraint.go: wildcards and hyphen ranges, said of numbers.
use gomposer.Prelude.{
  ℕ, ◌+◌, ◌≤◌, ◌<◌, true, false, some, List, [], ◌∷◌, map, ◌≡◌, refl, arith, length, ◌≢◌, ◌↔◌, ◌⊎◌,
}
use gomposer.Prelude.Bytes.{Bytes, codes}
use gomposer.Prelude.Int.{ℤ, pos, max_int}
use gomposer.Strings.{trim_prefix}
use gomposer.Strings.Split.{split}
use gomposer.Constraint.Version.{Version, ok, stable, rank, numeric, dot, atois, parse_version}
use gomposer.Constraint.Term.{Term, and_satisfies, satisfies_term, op_ge, op_lt}
use gomposer.Constraint.Expand.{
  term, half_open, version_from_ints, bump_last, before_wild, wildcard_terms, hyphen_range_terms,
}
use gomposer.Constraint.Ranges.{AtMost, half_open_and}

-- A stable version with these numbers.
pub record Released (w : Version) (a b c : ℕ) : Type 0 where
  pub at_major : w.major ≡ pos a
  pub at_minor : w.minor ≡ pos b
  pub at_patch : w.patch ≡ pos c
  pub is_stable : w.stability ≡ stable
  pub no_pre : w.pre_num ≡ pos 0

-- A version with these numbers that is an alpha, a beta or a release candidate.
pub record PreReleased (w : Version) (a b c : ℕ) : Type 0 where
  pub at_major : w.major ≡ pos a
  pub at_minor : w.minor ≡ pos b
  pub at_patch : w.patch ≡ pos c
  pub above_dev : 0 < rank w.stability
  pub below_stable : rank w.stability < 4

abbrev release : ℕ → ℕ → ℕ → Version
release x y z = numeric (pos x) (pos y) (pos z) stable

ge_release :
    {w : Version} {a b c : ℕ} (x y z : ℕ)
    → Released w a b c
    → (satisfies_term (term op_ge (release x y z)) w ≡ true) ↔ ((x < a) ⊎ (x ≡ a) × AtMost y z b c)
unfolding satisfies_term
ge_release x y z n = ground arith

lt_release :
    {w : Version} {a b c : ℕ} (x y z : ℕ)
    → Released w a b c
    → (satisfies_term (term op_lt (release x y z)) w ≡ true)
      ↔ ((a < x) ⊎ (a ≡ x) × ((b < y) ⊎ (b ≡ y) × (c < z)))
unfolding satisfies_term
lt_release x y z n = ground arith

-- What a prefix of numbers in front of a wildcard admits. The bound does not reach a fourth number.
abbrev pub WildcardAdmits : List ℕ → ℕ → ℕ → ℕ → Type 0
WildcardAdmits [] a b c = Unit
WildcardAdmits (x ∷ []) a b c = a ≡ x
WildcardAdmits (x ∷ y ∷ []) a b c = (a ≡ x) × (b ≡ y)
WildcardAdmits (x ∷ y ∷ z ∷ []) a b c = (a ≡ x) × (b ≡ y) × (c ≡ z)
WildcardAdmits (x ∷ y ∷ z ∷ t ∷ ns) a b c = ⊥

abbrev pub AllBelow : ℕ → List ℕ → Type 0
AllBelow k [] = Unit
AllBelow k (n ∷ ns) = (n < k) × AllBelow k ns

abbrev prefix_terms : List ℕ → List Term
prefix_terms [] = []
prefix_terms (n ∷ ns) =
    half_open (version_from_ints (map pos (n ∷ ns)))
      (version_from_ints (bump_last (map pos (n ∷ ns))))

prefix_iff :
    {w : Version} {a b c : ℕ} (ns : List ℕ)
    → AllBelow max_int ns
    → Released w a b c
    → (and_satisfies (prefix_terms ns) w ≡ true) ↔ WildcardAdmits ns a b c
unfolding and_satisfies version_from_ints bump_last
prefix_iff [] h n = ground arith
prefix_iff (x ∷ []) h n = ground (arith, ge_release x 0 0 n, lt_release (x + 1) 0 0 n)
prefix_iff (x ∷ y ∷ []) h n = ground (arith, ge_release x y 0 n, lt_release x (y + 1) 0 n)
prefix_iff (x ∷ y ∷ z ∷ []) h n = ground (arith, ge_release x y z n, lt_release x y (z + 1) n)
prefix_iff (x ∷ y ∷ z ∷ t ∷ ns) h n = ground (arith, ge_release x y z n, lt_release x y z n)

atois_nil : atois [] ≡ some []
unfolding atois
atois_nil = refl

atois-ne-nil : (p : Bytes) (ps : List Bytes) → atois (p ∷ ps) ≢ some []
unfolding atois
atois-ne-nil p ps h = ground arith

prefix_below :
    {w : Version} (x y : ℕ)
    → y < max_int
    → PreReleased w x y 0
    → and_satisfies (prefix_terms (x ∷ y ∷ [])) w ≡ false
unfolding and_satisfies version_from_ints bump_last satisfies_term
prefix_below x y h n = ground arith

prefix_next :
    {w : Version} (x y : ℕ)
    → y < max_int
    → PreReleased w x (y + 1) 0
    → and_satisfies (prefix_terms (x ∷ y ∷ [])) w ≡ true
unfolding and_satisfies version_from_ints bump_last satisfies_term
prefix_next x y h n = ground arith

wildcard_terms_eq :
    (f : Bytes) (parts : List Bytes) (ns : List ℕ)
    → before_wild (split dot f) ≡ some parts
    → atois parts ≡ some (map pos ns)
    → wildcard_terms f ≡ ok (prefix_terms ns)
unfolding wildcard_terms
wildcard_terms_eq f [] [] h k = ground arith
wildcard_terms_eq f [] (n ∷ ns) h k = ground (arith, atois_nil)
wildcard_terms_eq f (p ∷ ps) [] h k = absurd (atois-ne-nil p ps k)
wildcard_terms_eq f (p ∷ ps) (n ∷ ns) h k = ground arith

-- A wildcard in text `f` behind the numbers `ns`, which are below the greatest int, admits a stable version exactly if it has these numbers in
-- front: for "1.*" and "1.2.*" the versions of one major or minor number.
pub wildcard_terms_admits :
    (f : Bytes) (parts : List Bytes) (ns : List ℕ) (w : Version) (a b c : ℕ)
    → before_wild (split dot f) ≡ some parts
    → atois parts ≡ some (map pos ns)
    → AllBelow max_int ns
    → Released w a b c
    → (ts : List Term) × (wildcard_terms f ≡ ok ts)
      × ((and_satisfies ts w ≡ true) ↔ WildcardAdmits ns a b c)
wildcard_terms_admits f parts ns w a b c h k l n =
    (prefix_terms ns, wildcard_terms_eq f parts ns h k, prefix_iff ns l n)

-- The bounds of a wildcard "x.y.*", where `y` is below the greatest int, are stable versions: every alpha, beta or
-- candidate of the next minor version is
-- admitted, and every pre-release of x.y.0 itself is not.
wildcard_terms_prereleases :
    (f : Bytes) (parts : List Bytes) (x y : ℕ) (v w : Version)
    → before_wild (split dot f) ≡ some parts
    → atois parts ≡ some (pos x ∷ pos y ∷ [])
    → y < max_int
    → PreReleased v x y 0
    → PreReleased w x (y + 1) 0
    → (ts : List Term) × (wildcard_terms f ≡ ok ts)
      × (and_satisfies ts v ≡ false)
      × (and_satisfies ts w ≡ true)
wildcard_terms_prereleases f parts x y v w h k l p q = (
  prefix_terms (x ∷ y ∷ []),
  wildcard_terms_eq f parts (x ∷ y ∷ []) h k,
  prefix_below x y l p,
  prefix_next x y l q,
)

-- What the upper end of a hyphen range admits: one or two numbers stand for every version that starts so.
abbrev pub UpTo : List ℕ → ℕ → ℕ → ℕ → Type 0
UpTo [] a b c = ⊥
UpTo (x ∷ []) a b c = a ≤ x
UpTo (x ∷ y ∷ ns) a b c = (a < x) ⊎ (a ≡ x) × (b ≤ y)

upper_iff :
    {w : Version} {a b c : ℕ} (ns : List ℕ)
    → AllBelow max_int ns
    → length ns ≤ 2
    → Released w a b c
    → (satisfies_term (term op_lt (version_from_ints (bump_last (map pos ns)))) w ≡ true)
      ↔ UpTo ns a b c
unfolding version_from_ints bump_last
upper_iff [] h l n = ground (arith, lt_release 0 0 0 n)
upper_iff (x ∷ []) h l n = ground (arith, lt_release (x + 1) 0 0 n)
upper_iff (x ∷ y ∷ []) h l n = ground (arith, lt_release x (y + 1) 0 n)
upper_iff (x ∷ y ∷ z ∷ ns) h l n = absurd (omega arith)

atois-length : (ps : List Bytes) (ns : List ℤ) → atois ps ≡ some ns → length ns ≡ length ps
unfolding atois
atois-length [] [] h = refl
atois-length [] (n ∷ ns) h = ground arith
atois-length (p ∷ ps) [] h = ground arith
atois-length (p ∷ ps) (n ∷ ns) h = ground (arith, atois-length ps ns)

length-map-pos : (ns : List ℕ) → length (map pos ns) ≡ length ns
length-map-pos [] = refl
length-map-pos (n ∷ ns) = omega (arith, length-map-pos ns)

hyphen_range_terms_eq :
    (lhs rhs : Bytes) (lo : Version) (ns : List ℕ)
    → parse_version lhs ≡ ok lo
    → length (split dot (trim_prefix (codes "v") rhs)) ≤ 2
    → atois (split dot (trim_prefix (codes "v") rhs)) ≡ some (map pos ns)
    → hyphen_range_terms lhs rhs ≡ ok (half_open lo (version_from_ints (bump_last (map pos ns))))
unfolding hyphen_range_terms
hyphen_range_terms_eq lhs rhs lo ns h l k = ground arith

-- A hyphen range with one or two numbers on the right, below the greatest int, admits a stable version exactly if it satisfies the
-- lower bound and its numbers are at most those, or start with them.
pub hyphen_range_terms_admits :
    (lhs rhs : Bytes) (lo w : Version) (ns : List ℕ) (a b c : ℕ)
    → parse_version lhs ≡ ok lo
    → length (split dot (trim_prefix (codes "v") rhs)) ≤ 2
    → atois (split dot (trim_prefix (codes "v") rhs)) ≡ some (map pos ns)
    → AllBelow max_int ns
    → Released w a b c
    → (ts : List Term) × (hyphen_range_terms lhs rhs ≡ ok ts)
      × ((and_satisfies ts w ≡ true) ↔ ((satisfies_term (term op_ge lo) w ≡ true) × UpTo ns a b c))
hyphen_range_terms_admits lhs rhs lo w ns a b c h l k m n =
    let parts = split dot (trim_prefix (codes "v") rhs) in
    let hi = version_from_ints (bump_last (map pos ns)) in
    let short : length ns ≤ 2 =
      omega (arith, atois-length parts (map pos ns) k, length-map-pos ns) in
    (
      half_open lo hi,
      hyphen_range_terms_eq lhs rhs lo ns h l k,
      ground (arith, half_open_and lo hi w, upper_iff ns m short n),
    )
