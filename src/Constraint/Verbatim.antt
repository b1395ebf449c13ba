-- ===== src/Constraint/Verbatim.antt =====
-- What internal/constraint/constraint.go makes of a text behind "=" with no special byte in it.
use gomposer.Prelude.{
  ℕ, Bool, true, false, not, ◌||◌, none, some, List, [], ◌∷◌, ◌==◌, ◌≡◌, refl, ap, arith, length,
  any, all,
}
use gomposer.Prelude.Bytes.{Bytes, codes}
use gomposer.Strings.{
  eq, is_space, after_prefix, trim_left, trim_right, trim_space, cut_text, unpair, replace_byte,
}
use gomposer.Strings.Split.{split_whole, fields}
use gomposer.Constraint.Version.{Version, ok, parse_version}
use gomposer.Constraint.Term.{Term, Op, op_eq}
use gomposer.Constraint.Expand.{term, single_op, is_wildcard_term, parse_operator, parse_term}
use gomposer.Constraint.Parse.{
  is_blank, after_operator, leading_op, operators, glue_loop, glue_operator_spaces,
  strip_inline_alias, normalize_group, and_terms, parse_and_clause, parse_groups,
}
use gomposer.Constraint.Glue.{plain_byte, glue_loop_plain}

-- A byte with a meaning in a constraint: white space, a comma, a bar, or the start of an operator.
abbrev pub is_special : ℕ → Bool
is_special c = is_space c || c == b',' || c == b'|' || not (plain_byte c)

pub any_weaken :
    (p q : ℕ → Bool) (s : Bytes)
    → ((c : ℕ) → q c ≡ false → p c ≡ false)
    → any q s ≡ false
    → any p s ≡ false
any_weaken p q [] k h = refl
any_weaken p q (c ∷ s) k h = ground (arith, k c, any_weaken p q s k)

trim_left_id : (p : ℕ → Bool) (s : Bytes) → any p s ≡ false → trim_left p s ≡ s
unfolding trim_left
trim_left_id p [] h = refl
trim_left_id p (c ∷ s) h = ground arith

trim_right_id : (p : ℕ → Bool) (s : Bytes) → any p s ≡ false → trim_right p s ≡ s
unfolding trim_right
trim_right_id p [] h = refl
trim_right_id p (c ∷ s) h = ground (arith, trim_right_id p s)

cut_text-none : (c : ℕ) (p s : Bytes) → any (λ a. a == c) s ≡ false → cut_text (c ∷ p) s ≡ none
unfolding cut_text after_prefix
cut_text-none c p [] h = refl
cut_text-none c p (a ∷ s) h = ground (arith, cut_text-none c p s)

pub unpair_id : (c : ℕ) (s : Bytes) → any (λ a. a == c) s ≡ false → unpair c s ≡ s
unfolding unpair
unpair_id c [] h = refl
unpair_id c (a ∷ []) h = refl
unpair_id c (a ∷ b ∷ s) h = ground (arith, unpair_id c (b ∷ s))

pub replace_byte_id : (c d : ℕ) (s : Bytes) → any (λ a. a == c) s ≡ false → replace_byte c d s ≡ s
unfolding replace_byte
replace_byte_id c d [] h = refl
replace_byte_id c d (a ∷ s) h = ground (arith, replace_byte_id c d s)

pub all_plain : (s : Bytes) → any is_special s ≡ false → all plain_byte s ≡ true
all_plain [] h = refl
all_plain (c ∷ s) h = ground (arith, all_plain s)

pub fields_word : (c : ℕ) (s : Bytes) → any is_space (c ∷ s) ≡ false → fields (c ∷ s) ≡ (c ∷ s) ∷ []
fields_word c s h = unfold fields in rw (split_whole is_space (c ∷ s) h)

trim_space_id : (s : Bytes) → any is_space s ≡ false → trim_space s ≡ s
trim_space_id s h = unfold trim_space in rw (trim_left_id is_space s h) (trim_right_id is_space s h)

pub strip_inline_alias_id :
    (s : Bytes) → any is_space s ≡ false → any (λ a. a == 32) s ≡ false → strip_inline_alias s ≡ s
unfolding strip_inline_alias
strip_inline_alias_id s h k = ground (arith, trim_space_id s h, cut_text-none 32 (codes "as ") s k)

glue_by_loop : (s : Bytes) → glue_operator_spaces s ≡ glue_loop (length s) s
glue_by_loop s = unfold glue_operator_spaces in refl

leading_op_eq : (s : Bytes) → leading_op operators (b'=' ∷ s) ≡ some (codes "=", s)
unfolding leading_op after_prefix
leading_op_eq s = refl

after_operator_id : (s : Bytes) → any (λ a. a == 32) s ≡ false → after_operator s ≡ s
unfolding after_operator
after_operator_id s h = ground (arith, trim_left_id is_blank s h)

pub glue_eq :
    (s : Bytes)
    → any (λ a. a == 32) s ≡ false
    → all plain_byte s ≡ true
    → glue_operator_spaces (b'=' ∷ s) ≡ b'=' ∷ s
unfolding glue_loop
glue_eq s h k =
    rw (glue_by_loop (b'=' ∷ s), leading_op_eq s, glue_loop, after_operator_id s h)
      (ap (λ t. b'=' ∷ t) (glue_loop_plain (length s) s (omega arith) k))

pub normalize_group_eq :
    (s : Bytes)
    → normalize_group s ≡ glue_operator_spaces (replace_byte b',' 32 (strip_inline_alias s))
normalize_group_eq s = unfold normalize_group in refl

parse_operator_eq : (s : Bytes) → parse_operator (b'=' ∷ s) ≡ single_op op_eq s
unfolding parse_operator after_prefix
parse_operator_eq s = refl

pub parse_term_eq :
    (s : Bytes) → is_wildcard_term (b'=' ∷ s) ≡ false → parse_term (b'=' ∷ s) ≡ single_op op_eq s
unfolding parse_term eq
parse_term_eq s h = rw h (parse_operator_eq s)

and_terms_one :
    (f : Bytes) (t : Term) → parse_term f ≡ ok (t ∷ []) → and_terms (f ∷ []) ≡ ok (t ∷ [])
unfolding and_terms
and_terms_one f t h = rw h

pub parse_and_clause_eq :
    (f : Bytes) (t : Term)
    → fields f ≡ f ∷ []
    → parse_term f ≡ ok (t ∷ [])
    → parse_and_clause f ≡ ok (t ∷ [])
unfolding parse_and_clause
parse_and_clause_eq f t h k = rw h (and_terms_one f t k)

pub single_op_eq :
    (o : Op) (s : Bytes) (v : Version) → parse_version s ≡ ok v → single_op o s ≡ ok (term o v ∷ [])
single_op_eq o s v h = unfold single_op in rw h

pub parse_groups_one :
    (g : Bytes) (cl : List Term)
    → parse_and_clause (normalize_group g) ≡ ok cl
    → parse_groups (g ∷ []) ≡ (cl ∷ [], none)
unfolding parse_groups
parse_groups_one g cl h = rw h
