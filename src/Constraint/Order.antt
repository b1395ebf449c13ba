-- ===== src/Constraint/Order.antt =====
-- internal/constraint/version.go: the laws of Compare and Equal.
use gomposer.Prelude.{Ordering, compare, true, false, [], ◌∷◌, ◌≡◌, refl, arith, ◌↔◌, ◌⊎◌}
use gomposer.Prelude.Bytes.{Bytes}
use gomposer.Prelude.Int.{ℤ, compare_int}
use gomposer.Prelude.Order.{flip, ◌then_by◌, IsOrder, compare-IsOrder, compare_int-IsOrder}
use gomposer.Constraint.Version.{Version, Stability, rank}
use gomposer.Constraint.Compare.{
  compare_bytes, is_pure_dev, compare_numbers, compare_versions, equal,
}

-- A comparison of parts, read through a function.
IsOrder-on {ℓ κ} :
    {A : Type ℓ} {B : Type κ} (f : A → B) {cmp : B → B → Ordering}
    → IsOrder cmp
    → IsOrder (λ a b. cmp (f a) (f b))
IsOrder-on f o = record {
  swapped = λ a b. o.swapped (f a) (f b);
  eq_left = λ a b c. o.eq_left (f a) (f b) (f c);
  lt_trans = λ a b c. o.lt_trans (f a) (f b) (f c);
}

module _ {ℓ} {A : Type ℓ} {c d : A → A → Ordering} (o : IsOrder c) (p : IsOrder d) where
  -- The first comparison decides, and the second where the first finds no difference.
  IsOrder-then_by : IsOrder (λ a b. c a b then_by d a b)
  IsOrder-then_by = record {
    swapped = λ x y. ground (arith, o.swapped x y, p.swapped x y);
    eq_left = λ x y z h. ground (arith, o.eq_left x y z, p.eq_left x y z);
    lt_trans = λ x y z h k. ground (
      arith,
      o.lt_trans x y z,
      o.eq_left x y z,
      o.eq_left z y x,
      o.swapped x y,
      o.swapped y z,
      o.swapped x z,
      p.lt_trans x y z,
    );
  }

compare_bytes_swapped : (s t : Bytes) → compare_bytes t s ≡ flip (compare_bytes s t)
unfolding compare_bytes
compare_bytes_swapped [] [] = refl
compare_bytes_swapped [] (b ∷ t) = refl
compare_bytes_swapped (a ∷ s) [] = refl
compare_bytes_swapped (a ∷ s) (b ∷ t) = ground (arith, compare_bytes_swapped s t)

-- Two texts compare as 0 only if they are one text.
pub compare_bytes-eq : (s t : Bytes) → compare_bytes s t ≡ Ordering.eq → s ≡ t
unfolding compare_bytes
compare_bytes-eq [] [] h = refl
compare_bytes-eq [] (b ∷ t) h = ground arith
compare_bytes-eq (a ∷ s) [] h = ground arith
compare_bytes-eq (a ∷ s) (b ∷ t) h = ground (arith, compare_bytes-eq s t)

pub compare_bytes_self : (s : Bytes) → compare_bytes s s ≡ Ordering.eq
unfolding compare_bytes
compare_bytes_self [] = refl
compare_bytes_self (a ∷ s) = ground (arith, compare_bytes_self s)

compare_bytes-lt_trans :
    (r s t : Bytes)
    → compare_bytes r s ≡ Ordering.lt
    → compare_bytes s t ≡ Ordering.lt
    → compare_bytes r t ≡ Ordering.lt
unfolding compare_bytes
compare_bytes-lt_trans [] [] t h k = ground arith
compare_bytes-lt_trans [] (b ∷ s) [] h k = ground arith
compare_bytes-lt_trans [] (b ∷ s) (c ∷ t) h k = refl
compare_bytes-lt_trans (a ∷ r) [] t h k = ground arith
compare_bytes-lt_trans (a ∷ r) (b ∷ s) [] h k = ground arith
compare_bytes-lt_trans (a ∷ r) (b ∷ s) (c ∷ t) h k = ground (arith, compare_bytes-lt_trans r s t)

pub compare_bytes-IsOrder : IsOrder compare_bytes
compare_bytes-IsOrder = record {
  swapped = compare_bytes_swapped;
  eq_left = λ r s t h. rw (compare_bytes-eq r s h);
  lt_trans = compare_bytes-lt_trans;
}

compare_numbers-IsOrder : IsOrder compare_numbers
unfolding compare_numbers
compare_numbers-IsOrder = IsOrder-then_by (IsOrder-on (λ v. v.major) compare_int-IsOrder) (
    IsOrder-then_by (IsOrder-on (λ v. v.minor) compare_int-IsOrder) (
      IsOrder-then_by (IsOrder-on (λ v. v.patch) compare_int-IsOrder) (
        IsOrder-then_by (IsOrder-on (λ v. rank v.stability) compare-IsOrder)
          (IsOrder-on (λ v. v.pre_num) compare_int-IsOrder))))

-- Compare is a total preorder: a comparison the other way round has the opposite sign, versions that compare as
-- 0 compare alike with every version, and "below" is transitive.
pub compare_versions-IsOrder : IsOrder compare_versions
unfolding compare_versions
compare_versions-IsOrder = record {
  swapped = λ v w. ground (arith, compare_bytes_swapped v.branch w.branch, n.swapped v w);
  eq_left = λ u v w h. ground (arith, b.eq_left u.branch v.branch w.branch, n.eq_left u v w);
  lt_trans = λ u v w h k. ground (arith, b.lt_trans u.branch v.branch w.branch, n.lt_trans u v w);
}
  where
    n : IsOrder compare_numbers
    n = compare_numbers-IsOrder

    b : IsOrder compare_bytes
    b = compare_bytes-IsOrder

-- Both versions are dev branches of one name, or neither is a dev branch and all numbers and
-- the stability agree.
abbrev pub SameRelease : Version → Version → Type 0
SameRelease v w =
    (is_pure_dev v ≡ true) × (is_pure_dev w ≡ true) × (v.branch ≡ w.branch)
    ⊎ (is_pure_dev v ≡ false)
      × (is_pure_dev w ≡ false)
      × (v.major ≡ w.major)
      × (v.minor ≡ w.minor)
      × (v.patch ≡ w.patch)
      × (v.stability ≡ w.stability)
      × (v.pre_num ≡ w.pre_num)

compare_int-eq : (a b : ℤ) → (compare_int a b ≡ Ordering.eq) ↔ (a ≡ b)
compare_int-eq a b = ground arith

rank-eq : (s t : Stability) → (compare (rank s) (rank t) ≡ Ordering.eq) ↔ (s ≡ t)
rank-eq s t = ground arith

then_by_eq :
    (o p : Ordering) → ((o then_by p) ≡ Ordering.eq) ↔ ((o ≡ Ordering.eq) × (p ≡ Ordering.eq))
then_by_eq o p = ground arith

compare_numbers-eq :
    (v w : Version)
    → (compare_numbers v w ≡ Ordering.eq) ↔ (
        (v.major ≡ w.major)
        × (v.minor ≡ w.minor)
        × (v.patch ≡ w.patch)
        × (v.stability ≡ w.stability)
        × (v.pre_num ≡ w.pre_num))
unfolding compare_numbers
compare_numbers-eq v w = ground (
  arith,
  compare_int-eq v.major w.major,
  compare_int-eq v.minor w.minor,
  compare_int-eq v.patch w.patch,
  rank-eq v.stability w.stability,
  compare_int-eq v.pre_num w.pre_num,
)

compare_bytes-eq' : (s t : Bytes) → (compare_bytes s t ≡ Ordering.eq) ↔ (s ≡ t)
compare_bytes-eq' s t = (compare_bytes-eq s t, λ e. rw e (compare_bytes_self t))

equal-eq : (v w : Version) → (equal v w ≡ true) ↔ (compare_versions v w ≡ Ordering.eq)
unfolding equal
equal-eq v w = ground arith

compare_versions-eq : (v w : Version) → (compare_versions v w ≡ Ordering.eq) ↔ SameRelease v w
unfolding compare_versions
compare_versions-eq v w =
    ground (arith, compare_bytes-eq' v.branch w.branch, compare_numbers-eq v w)

-- Equal answers true exactly on versions of one release; the original text and the flag make no
-- difference.
equal_iff : (v w : Version) → (equal v w ≡ true) ↔ SameRelease v w
equal_iff v w = (
  λ h. (compare_versions-eq v w).0 ((equal-eq v w).0 h),
  λ h. (equal-eq v w).1 ((compare_versions-eq v w).1 h),
)
