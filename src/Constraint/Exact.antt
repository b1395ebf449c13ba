-- ===== src/Constraint/Exact.antt =====
-- internal/constraint/constraint.go: Parse on "=" and a version text.
use gomposer.Prelude.{
  true, false, Option, none, some, List, [], ◌∷◌, ◌==◌, ◌≡◌, refl, ap, sym, arith, ◌∙◌, any,
}
use gomposer.Prelude.Bytes.{Bytes}
use gomposer.Strings.{eq, is_space, after_prefix}
use gomposer.Strings.Split.{split, split_whole, split-nonempty, fields}
use gomposer.Constraint.Version.{
  Version, ok, err, Error, no_wildcard, invalid_wildcard, dot, atois, parse_version,
}
use gomposer.Strings.Numbers.{bad_syntax, atoi}
use gomposer.Constraint.Term.{op_eq}
use gomposer.Constraint.Expand.{
  before_wild, wildcard_of, wildcard_range, wildcard_terms, term, is_wildcard_term, parse_term,
}
use gomposer.Constraint.Parse.{
  normalize_group, and_terms, parse_and_clause, parse_groups, groups, parse, parse_tail,
}
use gomposer.Constraint.Verbatim.{
  unpair_id, replace_byte_id, is_special, any_weaken, all_plain, fields_word, strip_inline_alias_id,
  glue_eq, normalize_group_eq, parse_term_eq, parse_and_clause_eq, single_op_eq, parse_groups_one,
}

-- No text that begins with "=" asks for the workspace.
parse_by_groups : (s : Bytes) → parse (b'=' ∷ s) ≡ parse_tail (b'=' ∷ s) false (b'=' ∷ s)
unfolding parse after_prefix
parse_by_groups s = refl

-- No text that begins with "=" is a number.
atoi_equals : (s : Bytes) → atoi (b'=' ∷ s) ≡ bad_syntax
unfolding atoi
atoi_equals s = refl

before_wild_equals :
    (s : Bytes) (ps : List Bytes) (qs : List Bytes)
    → before_wild ((b'=' ∷ s) ∷ ps) ≡ some qs
    → (rs : List Bytes) × (qs ≡ (b'=' ∷ s) ∷ rs)
unfolding before_wild
before_wild_equals s ps qs h = ground arith

split_equals :
    (s : Bytes) → (w : Bytes) × (ws : List Bytes) × (split dot (b'=' ∷ s) ≡ (b'=' ∷ w) ∷ ws)
unfolding split
split_equals s = let (w, ws, e) = split-nonempty dot s in (w, ws, rw e)

wildcard_range_equals :
    (f w : Bytes) (rs : List Bytes) → wildcard_range f ((b'=' ∷ w) ∷ rs) ≡ err (invalid_wildcard f)
unfolding atois
wildcard_range_equals f w rs = refl

wildcard_of_parts :
    (f : Bytes) (w : Bytes) (ws : List Bytes) (o : Option (List Bytes))
    → before_wild ((b'=' ∷ w) ∷ ws) ≡ o
    → (e : Error) × (wildcard_of f o ≡ err e)
wildcard_of_parts f w ws none h = (no_wildcard f, refl)
wildcard_of_parts f w ws (some qs) h =
    let (rs, e) = before_wild_equals w ws qs h in
    (invalid_wildcard f, rw e (wildcard_range_equals f w rs))

wildcard_terms_equals : (s : Bytes) → (e : Error) × (wildcard_terms (b'=' ∷ s) ≡ err e)
unfolding wildcard_terms
wildcard_terms_equals s =
    let (w, ws, h) = split_equals s in
    wildcard_of_parts (b'=' ∷ s) w ws (before_wild (split dot (b'=' ∷ s))) (ap before_wild (sym h))

parse_term_wild :
    (s : Bytes) → is_wildcard_term (b'=' ∷ s) ≡ true → (e : Error) × (parse_term (b'=' ∷ s) ≡ err e)
unfolding parse_term eq
parse_term_wild s h = let (e, k) = wildcard_terms_equals s in (e, rw (h, k))

and_terms_err : (f : Bytes) (e : Error) → parse_term f ≡ err e → and_terms (f ∷ []) ≡ err e
unfolding and_terms
and_terms_err f e h = rw h

parse_and_clause_err :
    (f : Bytes) (e : Error) → fields f ≡ f ∷ [] → parse_term f ≡ err e → parse_and_clause f ≡ err e
unfolding parse_and_clause
parse_and_clause_err f e h k = rw h (and_terms_err f e k)

parse_groups_err :
    (g : Bytes) (e : Error)
    → parse_and_clause (normalize_group g) ≡ err e
    → parse_groups (g ∷ []) ≡ ([], some e)
unfolding parse_groups
parse_groups_err g e h = rw h

module _ (s : Bytes) (clean : any is_special s ≡ false) where
  no_space : any is_space (b'=' ∷ s) ≡ false
  unfolding is_space
  no_space = any_weaken is_space is_special s (λ c h. ground arith) clean

  no_blank : any (λ a. a == 32) (b'=' ∷ s) ≡ false
  unfolding is_space
  no_blank = any_weaken (λ a. a == 32) is_special s (λ c h. ground arith) clean

  no_comma : any (λ a. a == b',') (b'=' ∷ s) ≡ false
  no_comma = any_weaken (λ a. a == b',') is_special s (λ c h. ground arith) clean

  no_bar : any (λ a. a == b'|') (b'=' ∷ s) ≡ false
  no_bar = any_weaken (λ a. a == b'|') is_special s (λ c h. ground arith) clean

  groups_exact : groups (b'=' ∷ s) ≡ (b'=' ∷ s) ∷ []
  groups_exact =
      unfold groups in
      rw (unpair_id b'|' (b'=' ∷ s) no_bar) (split_whole (λ c. c == b'|') (b'=' ∷ s) no_bar)

  normalize_exact : normalize_group (b'=' ∷ s) ≡ b'=' ∷ s
  normalize_exact =
      rw
        (
          normalize_group_eq (b'=' ∷ s),
          strip_inline_alias_id (b'=' ∷ s) no_space no_blank,
          replace_byte_id b',' 32 (b'=' ∷ s) no_comma,
        )
        (glue_eq s no_blank (all_plain s clean))

  -- A text "=s" is one alternative with one term, where `s` holds no special byte and no wildcard.
  pub parse_exact :
      (v : Version)
      → is_wildcard_term (b'=' ∷ s) ≡ false
      → parse_version s ≡ ok v
      → parse (b'=' ∷ s) ≡ (
        record { clauses = (term op_eq v ∷ []) ∷ []; original = b'=' ∷ s; is_workspace = false },
        none,
      )
  parse_exact v h k =
      let f = b'=' ∷ s in
      let one =
        parse_and_clause_eq f (term op_eq v) (fields_word b'=' s no_space)
          (parse_term_eq s h ∙ single_op_eq op_eq s v k) in
      let all_groups =
        parse_groups_one f (term op_eq v ∷ []) (ap parse_and_clause normalize_exact ∙ one) in
      rw (parse_by_groups s, groups_exact, all_groups)

  -- Where the text of the version has a wildcard, Parse fails and keeps no alternative.
  pub parse_exact_wild : is_wildcard_term (b'=' ∷ s) ≡ true → (parse (b'=' ∷ s)).0.clauses ≡ []
  parse_exact_wild h =
      let f = b'=' ∷ s in
      let (e, k) = parse_term_wild s h in
      let one = parse_and_clause_err f e (fields_word b'=' s no_space) k in
      let all_groups = parse_groups_err f e (ap parse_and_clause normalize_exact ∙ one) in
      rw (parse_by_groups s, groups_exact, all_groups)
