-- ===== src/Strings/Numbers.antt =====
-- strconv.Atoi on a 64-bit machine.
use gomposer.Prelude.{
  ℕ, zero, suc, ◌+◌, ◌-◌, ◌*◌, Bool, true, false, Option, none, some, [], ◌∷◌, ◌==◌, leb,
  if◌then◌else◌,
}
use gomposer.Prelude.Bytes.{Bytes}
use gomposer.Prelude.Int.{ℤ, pos, negsuc, max_int}
use gomposer.Strings.{is_digit}

-- A range error comes with the nearest int, which a caller that drops the error uses.
pub data Atoi : Type 0 where
  parsed : ℤ → Atoi
  out_of_range : ℤ → Atoi
  bad_syntax : Atoi

-- The value of a run of digits behind the value read so far.
unfoldable pub digits_value : ℕ → Bytes → Option ℕ
digits_value n [] = some n
digits_value n (c ∷ s) =
    let rest = digits_value (n * 10 + (c - b'0')) s in if is_digit c then rest else none

abbrev pub with_sign : Bool → Option ℕ → Atoi
with_sign minus none = bad_syntax
with_sign false (some n) = if leb n max_int then parsed (pos n) else out_of_range (pos max_int)
with_sign true (some zero) = parsed (pos 0)
with_sign true (some (suc n)) =
    if leb n max_int then parsed (negsuc n) else out_of_range (negsuc max_int)

abbrev pub unsigned : Bytes → Option ℕ
unsigned [] = none
unsigned (c ∷ s) = digits_value 0 (c ∷ s)

unfoldable pub atoi : Bytes → Atoi
unfolding digits_value is_digit
atoi [] = bad_syntax
atoi (c ∷ s) =
    if c == b'-'
    then with_sign true (unsigned s)
    else if c == b'+'
    then with_sign false (unsigned s)
    else with_sign false (unsigned (c ∷ s))
