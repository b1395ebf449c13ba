-- ===== src/Constraint/Alternatives.antt =====
-- internal/constraint/constraint.go: Parse on two texts joined by bars.
use gomposer.Prelude.{
  ℕ, Bool, false, ◌||◌, Option, none, List, [], ◌∷◌, ◌++◌, ◌==◌, any, any-append, ◌≡◌, refl, ap,
  sym, arith, ◌∙◌,
}
use gomposer.Prelude.Bytes.{Bytes, codes}
use gomposer.Strings.{after_prefix, unpair}
use gomposer.Strings.Split.{split, split-append}
use gomposer.Constraint.Version.{Version, Error, Result, ok, err}
use gomposer.Constraint.Term.{Term, Constraint, satisfies}
use gomposer.Constraint.Parse.{
  groups, parse_groups, parse, parse_and_clause, normalize_group, add_group, parse_tail,
}

abbrev pub bar : ℕ
bar = b'|'

abbrev pub ends_in : ℕ → Bytes → Bool
ends_in c [] = false
ends_in c (a ∷ []) = a == c
ends_in c (a ∷ b ∷ s) = ends_in c (b ∷ s)

unpair_single : (c a : ℕ) (s : Bytes) → (a == c) ≡ false → unpair c (a ∷ s) ≡ a ∷ unpair c s
unfolding unpair
unpair_single c a [] h = refl
unpair_single c a (b ∷ s) h = rw h

-- A pair of bars behind a text that does not end in one becomes a single bar.
unpair-append :
    (c : ℕ) (s t : Bytes)
    → ends_in c s ≡ false
    → unpair c (s ++ c ∷ c ∷ t) ≡ unpair c s ++ c ∷ unpair c t
unfolding unpair
unpair-append c [] t h = ground arith
unpair-append c (a ∷ []) t h = rw h (ground arith)
unpair-append c (a ∷ b ∷ []) t h = ground arith
unpair-append c (a ∷ b ∷ d ∷ s) t h =
    ground (arith, unpair-append c (d ∷ s) t, unpair-append c (b ∷ d ∷ s) t)

groups-append :
    (s t : Bytes) → ends_in bar s ≡ false → groups (s ++ bar ∷ bar ∷ t) ≡ groups s ++ groups t
unfolding groups
groups-append s t h =
    ap (split (λ c. c == bar)) (unpair-append bar s t h)
    ∙ split-append (λ c. c == bar) (unpair bar s) bar (unpair bar t) refl

add_group-append :
    (r : Result (List Term)) (p q pq : List (List Term) × Option Error)
    → (p.1 ≡ none → pq ≡ (p.0 ++ q.0, q.1))
    → (add_group r p).1 ≡ none
    → add_group r pq ≡ ((add_group r p).0 ++ q.0, q.1)
add_group-append (err e) p q pq ih h = ground arith
add_group-append (ok cl) (ps, e) q pq ih h = rw (ih h)

parse_groups-append :
    (gs hs : List Bytes)
    → (parse_groups gs).1 ≡ none
    → parse_groups (gs ++ hs) ≡ ((parse_groups gs).0 ++ (parse_groups hs).0, (parse_groups hs).1)
unfolding parse_groups
parse_groups-append [] hs h = refl
parse_groups-append (g ∷ gs) hs h =
    add_group-append (parse_and_clause (normalize_group g)) (parse_groups gs) (parse_groups hs) _
      (parse_groups-append gs hs) h

-- A prefix without a byte is not completed by a text that begins with that byte.
pub after_prefix-append :
    (p s t : Bytes) (c : ℕ)
    → any (λ a. a == c) p ≡ false
    → after_prefix p s ≡ none
    → after_prefix p (s ++ c ∷ t) ≡ none
unfolding after_prefix
after_prefix-append [] s t c hp h = ground arith
after_prefix-append (b ∷ p) [] t c hp h = ground arith
after_prefix-append (b ∷ p) (a ∷ s) t c hp h = ground (arith, after_prefix-append p s t c)

-- The text asks for a package of the workspace.
abbrev pub workspace_prefix : Bytes
workspace_prefix = codes "workspace:"

parse_plain : (s : Bytes) → after_prefix workspace_prefix s ≡ none → parse s ≡ parse_tail s false s
unfolding parse
parse_plain s h = rw (h, parse)

parse_clauses :
    (s : Bytes)
    → after_prefix workspace_prefix s ≡ none
    → ((parse s).0.clauses ≡ (parse_groups (groups s)).0)
      × ((parse s).1 ≡ (parse_groups (groups s)).1)
parse_clauses s h = rw (parse_plain s h) (refl, refl)

groups_or :
    (s t : Bytes)
    → ends_in bar s ≡ false
    → (parse_groups (groups s)).1 ≡ none
    → parse_groups (groups (s ++ bar ∷ bar ∷ t))
      ≡ ((parse_groups (groups s)).0 ++ (parse_groups (groups t)).0, (parse_groups (groups t)).1)
groups_or s t he h = rw (groups-append s t he) (parse_groups-append (groups s) (groups t) h)

satisfies-append :
    (c d e : Constraint) (v : Version)
    → e.clauses ≡ c.clauses ++ d.clauses
    → satisfies e v ≡ (satisfies c v || satisfies d v)
unfolding satisfies
satisfies-append c d e v h = rw h (any-append _ c.clauses d.clauses)

-- Two constraints joined by "||" are satisfied by what satisfies one of them, and have the error of
-- the second, where the first has none, no text is a workspace constraint, and the first does not
-- end in a bar.
pub parse-or :
    (s t : Bytes) (v : Version)
    → after_prefix workspace_prefix s ≡ none
    → after_prefix workspace_prefix t ≡ none
    → ends_in bar s ≡ false
    → (parse s).1 ≡ none
    → (satisfies (parse (s ++ bar ∷ bar ∷ t)).0 v
        ≡ (satisfies (parse s).0 v || satisfies (parse t).0 v))
      × ((parse (s ++ bar ∷ bar ∷ t)).1 ≡ (parse t).1)
parse-or s t v hs ht he h =
    let (cs, es) = parse_clauses s hs in
    let (ct, et) = parse_clauses t ht in
    let (cu, eu) =
      parse_clauses (s ++ bar ∷ bar ∷ t)
        (after_prefix-append workspace_prefix s (bar ∷ t) bar refl hs) in
    let both = groups_or s t he (sym es ∙ h) in
    (
      satisfies-append (parse s).0 (parse t).0 (parse (s ++ bar ∷ bar ∷ t)).0 v
          (cc (cu, cs, ct, ap (λ p. p.0) both)),
      cc (eu, et, ap (λ p. p.1) both),
    )
