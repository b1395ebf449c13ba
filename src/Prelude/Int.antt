-- ===== src/Prelude/Int.antt =====
-- Go's `int` on a 64-bit machine, as an integer; `int_inc` and `int_dec` wrap round.
use Prim.Native.Nat.{ℕ, zero, suc, ◌+◌, Ordering, compare}
use mathlib.Core.Bool.{Bool, true, false}
use gomposer.Prelude.Tests.{◌==◌, if◌then◌else◌}

-- `negsuc n` is -(n + 1).
pub data ℤ : Type 0 where
  pos : ℕ → ℤ
  negsuc : ℕ → ℤ

-- 2^63 - 1
abbrev pub max_int : ℕ
max_int = 9223372036854775807

-- `n++` on an int: the largest value wraps round to the smallest, -2^63.
abbrev pub int_inc : ℤ → ℤ
int_inc (pos n) = if n == max_int then negsuc max_int else pos (n + 1)
int_inc (negsuc zero) = pos 0
int_inc (negsuc (suc n)) = negsuc n

-- `n--` on an int: the smallest value wraps round to the largest.
abbrev pub int_dec : ℤ → ℤ
int_dec (pos zero) = negsuc 0
int_dec (pos (suc n)) = pos n
int_dec (negsuc n) = if n == max_int then pos max_int else negsuc (n + 1)

-- The signs -1, 0 and 1 of a comparison are `lt`, `eq` and `gt`.
abbrev pub compare_int : ℤ → ℤ → Ordering
compare_int (pos a) (pos b) = compare a b
compare_int (pos a) (negsuc b) = Ordering.gt
compare_int (negsuc a) (pos b) = Ordering.lt
compare_int (negsuc a) (negsuc b) = compare b a

abbrev pub int_ltb : ℤ → ℤ → Bool
int_ltb a b = elim (compare_int a b) [ Ordering.lt ↦ true | _ ↦ false ]
