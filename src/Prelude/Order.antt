-- ===== src/Prelude/Order.antt =====
-- Comparisons with a three-way result, and the laws of a total preorder for them.
use Prim.Native.Nat.{Ordering, compare}
use mathlib.Core.Path.{◌≡◌}
use native.Mathlib.Omega.{arith}
use gomposer.Prelude.Int.{compare_int}

abbrev pub flip : Ordering → Ordering
flip Ordering.lt = Ordering.gt
flip Ordering.eq = Ordering.eq
flip Ordering.gt = Ordering.lt

-- `if c := x; c != 0 { return c }; return y`
infixr 40 ◌then_by◌
abbrev pub ◌then_by◌ : Ordering → Ordering → Ordering
Ordering.lt then_by y = Ordering.lt
Ordering.eq then_by y = y
Ordering.gt then_by y = Ordering.gt

-- A comparison that reads as a total preorder.
pub record IsOrder {ℓ} {A : Type ℓ} (cmp : A → A → Ordering) : Type ℓ where
  pub swapped : (a b : A) → cmp b a ≡ flip (cmp a b)
  pub eq_left : (a b c : A) → cmp a b ≡ Ordering.eq → cmp a c ≡ cmp b c
  pub lt_trans : (a b c : A) → cmp a b ≡ Ordering.lt → cmp b c ≡ Ordering.lt → cmp a c ≡ Ordering.lt

pub compare-IsOrder : IsOrder compare
compare-IsOrder = record {
  swapped = λ a b. ground arith;
  eq_left = λ a b c h. ground arith;
  lt_trans = λ a b c h k. ground arith;
}

pub compare_int-IsOrder : IsOrder compare_int
compare_int-IsOrder = record {
  swapped = λ a b. ground arith;
  eq_left = λ a b c h. ground arith;
  lt_trans = λ a b c h k. ground arith;
}
