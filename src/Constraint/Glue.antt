-- ===== src/Constraint/Glue.antt =====
-- internal/constraint/constraint.go: glueOperatorSpaces.
use gomposer.Prelude.{
  ℕ, zero, suc, ◌≤◌, ◌<◌, Bool, true, none, some, List, [], ◌∷◌, ◌++◌, ◌==◌, ◌≡◌, refl, ap, sym,
  arith, ◌∙◌, if◌then◌else◌, length, length-append, Option-cases, inl, inr, all, not, ◌||◌, &&-true,
}
use gomposer.Prelude.Bytes.{Bytes}
use gomposer.Strings.{after_prefix, trim_left}
use gomposer.Constraint.Parse.{
  leading_op, operators, is_blank, after_operator, glue_loop, glue_operator_spaces,
}

-- The text with its blanks taken away.
abbrev pub without_blanks : Bytes → Bytes
without_blanks [] = []
without_blanks (c ∷ s) = if c == 32 then without_blanks s else c ∷ without_blanks s

without_blanks-append :
    (s t : Bytes) → without_blanks (s ++ t) ≡ without_blanks s ++ without_blanks t
without_blanks-append [] t = refl
without_blanks-append (c ∷ s) t = ground (arith, without_blanks-append s t)

pub after_prefix-some : (p s r : Bytes) → after_prefix p s ≡ some r → s ≡ p ++ r
unfolding after_prefix
after_prefix-some [] s r h = ground arith
after_prefix-some (c ∷ p) [] r h = ground arith
after_prefix-some (c ∷ p) (a ∷ s) r h = ground (arith, after_prefix-some p s r)

abbrev NonEmptyAll : List Bytes → Type 0
NonEmptyAll [] = Unit
NonEmptyAll (p ∷ ps) = (0 < length p) × NonEmptyAll ps

-- What `leading_op` finds is read off the text, and is not empty.
leading_op-some :
    (ops : List Bytes) (s op r : Bytes)
    → NonEmptyAll ops
    → leading_op ops s ≡ some (op, r)
    → (s ≡ op ++ r) × (0 < length op)
unfolding leading_op
leading_op-some [] s op r n h = ground arith
leading_op-some (o ∷ ops) s op r n h = elim (Option-cases (after_prefix o s)) [
  | inl e ↦ leading_op-some ops s op r n.1 (rw (e, leading_op) at h)
  | inr (t, e) ↦ ground (arith, after_prefix-some o s t e, h, e)
]

without_blanks-trim_left : (s : Bytes) → without_blanks (trim_left is_blank s) ≡ without_blanks s
unfolding trim_left is_blank
without_blanks-trim_left [] = refl
without_blanks-trim_left (c ∷ s) = ground (arith, without_blanks-trim_left s)

length-trim_left : (s : Bytes) → length (trim_left is_blank s) ≤ length s
unfolding trim_left
length-trim_left [] = omega arith
length-trim_left (c ∷ s) = ground (arith, length-trim_left s)

after_operator_keeps :
    (s : Bytes)
    → (without_blanks (after_operator s) ≡ without_blanks s)
      × (length (after_operator s) ≤ length s)
unfolding after_operator
after_operator_keeps s = ground (arith, without_blanks-trim_left s, length-trim_left s)

glue_loop_keeps :
    (f : ℕ) (s : Bytes) → length s ≤ f → without_blanks (glue_loop f s) ≡ without_blanks s
unfolding glue_loop
glue_loop_keeps f [] h = refl
glue_loop_keeps zero (c ∷ s) h = absurd (omega arith)
glue_loop_keeps (suc f) (c ∷ s) h = elim (Option-cases (leading_op operators (c ∷ s))) [
  | inl e ↦ rw (e, glue_loop) (ground (arith, glue_loop_keeps f s))
  | inr ((op, r), e) ↦
      let (split, longer) = leading_op-some operators (c ∷ s) op r (omega arith) e in
      let (same, shorter) = after_operator_keeps r in
      let enough : length (after_operator r) ≤ f =
        omega (arith, ap length split, length-append op r) in
      rw (e, glue_loop)
        (without_blanks-append op (glue_loop f (after_operator r))
          ∙ ap (λ t. without_blanks op ++ t) (glue_loop_keeps f (after_operator r) enough ∙ same)
          ∙ sym (without_blanks-append op r)
          ∙ sym (ap without_blanks split))
]

-- The loop reads the whole text, and drops nothing of it but blanks.
pub glue_operator_spaces_keeps :
    (s : Bytes) → without_blanks (glue_operator_spaces s) ≡ without_blanks s
glue_operator_spaces_keeps s =
    unfold glue_operator_spaces in glue_loop_keeps (length s) s (omega arith)

-- A byte that no operator begins with.
abbrev pub plain_byte : ℕ → Bool
plain_byte c = not (c == b'>' || c == b'<' || c == b'!' || c == b'=' || c == b'^' || c == b'~')

leading_op_plain : (c : ℕ) (s : Bytes) → plain_byte c ≡ true → leading_op operators (c ∷ s) ≡ none
unfolding leading_op after_prefix
leading_op_plain c s h = ground arith

pub glue_loop_plain :
    (f : ℕ) (s : Bytes) → length s ≤ f → all plain_byte s ≡ true → glue_loop f s ≡ s
unfolding glue_loop
glue_loop_plain f [] h k = refl
glue_loop_plain zero (c ∷ s) h k = absurd (omega arith)
glue_loop_plain (suc f) (c ∷ s) h k =
    let (p, q) = &&-true (plain_byte c) (all plain_byte s) k in
    rw (leading_op_plain c s p, glue_loop) (ap (λ t. c ∷ t) (glue_loop_plain f s (omega arith) q))
