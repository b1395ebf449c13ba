-- ===== src/Strings.antt =====
-- The functions of Go's packages `strings` and `strconv` that the modelled code calls, on ASCII
-- bytes. An index with the slices taken at it is one cut: `s[:i]` and `s[i+1:]`.
pub mod Split
pub mod Equality
pub mod Numbers
use gomposer.Prelude.{
  ℕ, zero, suc, ◌+◌, ◌-◌, ◌≡◌, Bool, true, false, not, ◌&&◌, ◌||◌, Option, none, some, List, [],
  ◌∷◌, ◌++◌, ◌==◌, leb, if◌then◌else◌, any,
}
use gomposer.Prelude.Bytes.{Bytes}

-- s == t
unfoldable pub eq : Bytes → Bytes → Bool
eq [] [] = true
eq (a ∷ s) (b ∷ t) = a == b && eq s t
eq _ _ = false

unfoldable pub is_empty : Bytes → Bool
is_empty [] = true
is_empty (a ∷ s) = false

-- strings.ContainsRune and strings.ContainsAny, for one byte
unfoldable pub has_byte : Bytes → ℕ → Bool
has_byte s c = any (λ a. a == c) s

-- strings.ContainsAny(s, chars)
unfoldable pub contains_any : Bytes → Bytes → Bool
unfolding has_byte
contains_any s chars = any (has_byte chars) s

-- What follows the prefix `p`, if `s` starts with it: HasPrefix, TrimPrefix and s[len(p):].
unfoldable pub after_prefix : Bytes → Bytes → Option Bytes
after_prefix [] s = some s
after_prefix (c ∷ p) [] = none
after_prefix (c ∷ p) (a ∷ s) = if a == c then after_prefix p s else none

unfoldable pub has_prefix : Bytes → Bytes → Bool
unfolding after_prefix
has_prefix p s = elim (after_prefix p s) [ none ↦ false | some r ↦ true ]

unfoldable pub trim_prefix : Bytes → Bytes → Bytes
unfolding after_prefix
trim_prefix p s = elim (after_prefix p s) [ none ↦ s | some r ↦ r ]

-- The text before and after the first byte with the property: IndexByte and IndexAny.
unfoldable pub cut_first : (ℕ → Bool) → Bytes → Option (Bytes × Bytes)
cut_first p [] = none
cut_first p (a ∷ s) =
    let rest = cut_first p s in
    if p a then some ([], s) else elim rest [ none ↦ none | some (b, t) ↦ some (a ∷ b, t) ]

-- The text before and after the last byte with the property: LastIndexByte.
unfoldable pub cut_last : (ℕ → Bool) → Bytes → Option (Bytes × Bytes)
cut_last p [] = none
cut_last p (a ∷ s) = elim (cut_last p s) [
  | some (b, t) ↦ some (a ∷ b, t)
  | none ↦ if p a then some ([], s) else none
]

-- strings.TrimLeft(s, cutset)
unfoldable pub trim_left : (ℕ → Bool) → Bytes → Bytes
trim_left p [] = []
trim_left p (a ∷ s) = if p a then trim_left p s else a ∷ s

-- strings.TrimRight(s, cutset)
unfoldable pub trim_right : (ℕ → Bool) → Bytes → Bytes
trim_right p [] = []
trim_right p (a ∷ s) = elim (trim_right p s) [ [] ↦ if p a then [] else a ∷ [] | b ∷ t ↦ a ∷ b ∷ t ]

-- The ASCII white space of strings.TrimSpace and strings.Fields.
unfoldable pub is_space : ℕ → Bool
is_space c = c == 32 || (leb 9 c && leb c 13)

unfoldable pub trim_space : Bytes → Bytes
unfolding trim_left trim_right is_space
trim_space s = trim_right is_space (trim_left is_space s)

unfoldable pub is_digit : ℕ → Bool
is_digit c = leb b'0' c && leb c b'9'

unfoldable pub lower_byte : ℕ → ℕ
lower_byte c = if leb b'A' c && leb c b'Z' then c + 32 else c

-- strings.Contains and strings.Index of a text
unfoldable pub cut_text : Bytes → Bytes → Option (Bytes × Bytes)
unfolding after_prefix
cut_text p [] = elim (after_prefix p []) [ none ↦ none | some r ↦ some ([], r) ]
cut_text p (a ∷ s) =
    let later = cut_text p s in
    elim (after_prefix p (a ∷ s)) [
      | some r ↦ some ([], r)
      | none ↦ elim later [ none ↦ none | some (b, t) ↦ some (a ∷ b, t) ]
    ]

-- strings.ReplaceAll(s, cc, c): each pair of the byte, from the left, becomes a single one.
unfoldable pub unpair : ℕ → Bytes → Bytes
unpair c [] = []
unpair c (a ∷ []) = a ∷ []
unpair c (a ∷ b ∷ s) =
    let rest = unpair c s in
    let next = unpair c (b ∷ s) in if a == c && b == c then c ∷ rest else a ∷ next

-- strings.ReplaceAll(s, a, b) for single bytes
unfoldable pub replace_byte : ℕ → ℕ → Bytes → Bytes
replace_byte c d [] = []
replace_byte c d (a ∷ s) = (if a == c then d else a) ∷ replace_byte c d s

-- strings.Count(s, c) for one byte
unfoldable pub count_byte : ℕ → Bytes → ℕ
count_byte c [] = 0
count_byte c (a ∷ s) = (if a == c then 1 else 0) + count_byte c s
