-- ===== src/Resolver/Render/Width.antt =====
-- internal/resolver/render.go, writeWrapped: the lines keep the words, and are short.
use mathlib.Core.List.{append_assoc}
use gomposer.Prelude.{
  ℕ, ◌+◌, ◌≤◌, true, false, not, List, [], ◌∷◌, ◌++◌, ◌≡◌, ◌⊎◌, refl, ap, arith, leb, length, any,
  all, All, Bool-cases, inl, inr, length-append, &&-true,
}
use gomposer.Prelude.Bytes.{Bytes}
use gomposer.Strings.{is_space}
use gomposer.Strings.Split.{cons_head, split, drop_empty, fields, split-append, split_whole}
use gomposer.Resolver.Render.{
  max_render_columns, wrap_words, each_on_its_own, wrapped_fields, write_wrapped,
}

abbrev pub IsClean : Bytes → Type 0
IsClean w = any is_space w ≡ false

abbrev pub IsWord : Bytes → Type 0
IsWord [] = ⊥
IsWord (c ∷ w) = IsClean (c ∷ w)

cons_head-AreClean :
    (a : ℕ) (ps : List Bytes) → is_space a ≡ false → All IsClean ps → All IsClean (cons_head a ps)
cons_head-AreClean a [] h k = (rw h refl, tt)
cons_head-AreClean a (p ∷ ps) h (k, ks) = (rw (h, k) refl, ks)

split-AreClean : (s : Bytes) → All IsClean (split is_space s)
unfolding split
split-AreClean [] = (refl, tt)
split-AreClean (a ∷ s) = elim (Bool-cases (is_space a)) [
  | inl h ↦ rw h (refl, split-AreClean s)
  | inr h ↦ rw h (cons_head-AreClean a (split is_space s) h (split-AreClean s))
]

drop_empty-AreWords : (ps : List Bytes) → All IsClean ps → All IsWord (drop_empty ps)
drop_empty-AreWords [] h = tt
drop_empty-AreWords ([] ∷ ps) (h, hs) = drop_empty-AreWords ps hs
drop_empty-AreWords ((a ∷ w) ∷ ps) (h, hs) = (h, drop_empty-AreWords ps hs)

drop_empty-append : (ps qs : List Bytes) → drop_empty (ps ++ qs) ≡ drop_empty ps ++ drop_empty qs
drop_empty-append [] qs = refl
drop_empty-append ([] ∷ ps) qs = drop_empty-append ps qs
drop_empty-append ((a ∷ w) ∷ ps) qs = ap (λ (r : List Bytes). (a ∷ w) ∷ r) (drop_empty-append ps qs)

fields-word : (w : Bytes) → IsWord w → fields w ≡ w ∷ []
unfolding fields
fields-word [] h = elim h [ ]
fields-word (c ∷ w) h = rw (split_whole is_space (c ∷ w) h) refl

fields-append : (s t : Bytes) → fields (s ++ 32 ∷ t) ≡ fields s ++ fields t
unfolding fields is_space
fields-append s t =
    rw (split-append is_space s 32 t refl) (drop_empty-append (split is_space s) (split is_space t))

fields-indent : (indent w : Bytes) → all is_space indent ≡ true → fields (indent ++ w) ≡ fields w
unfolding fields split
fields-indent [] w h = refl
fields-indent (a ∷ indent) w h =
    let (k, ks) = &&-true (is_space a) (all is_space indent) h in rw k (fields-indent indent w ks)

-- The words of all lines, in their order.
unfoldable pub all_fields : List Bytes → List Bytes
all_fields [] = []
all_fields (l ∷ ls) = fields l ++ all_fields ls

-- The line has at most a hundred columns, or it is a single word behind the indent.
abbrev pub IsShort : Bytes → Bytes → Type 0
IsShort indent l = (length l ≤ max_render_columns) ⊎ ((w : Bytes) × (l ≡ indent ++ w) × IsWord w)

wrap_words_lem :
    (indent line : Bytes) (ws : List Bytes)
    → all is_space indent ≡ true
    → IsShort indent line
    → All IsWord ws
    → (all_fields (wrap_words indent line ws) ≡ fields line ++ ws)
      × All (IsShort indent) (wrap_words indent line ws)
unfolding wrap_words all_fields
wrap_words_lem indent line [] b h ks = (refl, (h, tt))
wrap_words_lem indent line (w ∷ ws) b h (k, ks) =
    elim (Bool-cases (not (leb (length line + 1 + length w) max_render_columns))) [
      | inl e ↦
          let (same, short) = wrap_words_lem indent (indent ++ w) ws b (inr (w, refl, k)) ks in
          rw e (rw (same, fields-indent indent w b, fields-word w k) refl, (h, short))
      | inr e ↦
          let long = length-append line (32 ∷ w) in
          let (same, short) =
            wrap_words_lem indent (line ++ 32 ∷ w) ws b (inl (ground (arith, e, long))) ks in
          rw e (
            rw (same, fields-append line w, fields-word w k)
                (append_assoc (fields line) (w ∷ []) ws),
            short,
          )
    ]

each_on_its_own_lem :
    (indent : Bytes) (ws : List Bytes)
    → all is_space indent ≡ true
    → All IsWord ws
    → (all_fields (each_on_its_own indent ws) ≡ ws)
      × All (IsShort indent) (each_on_its_own indent ws)
unfolding each_on_its_own all_fields
each_on_its_own_lem indent [] b ks = (refl, tt)
each_on_its_own_lem indent (w ∷ ws) b (k, ks) =
    let (same, short) = each_on_its_own_lem indent ws b ks in
    (rw (same, fields-indent indent w b, fields-word w k) refl, (inr (w, refl, k), short))

fields-AreWords : (s : Bytes) → All IsWord (fields s)
unfolding fields
fields-AreWords s = drop_empty-AreWords (split is_space s) (split-AreClean s)

wrapped_fields_lem :
    (indent : Bytes) (ws : List Bytes)
    → all is_space indent ≡ true
    → All IsWord ws
    → (all_fields (wrapped_fields indent ws) ≡ ws) × All (IsShort indent) (wrapped_fields indent ws)
unfolding wrapped_fields all_fields
wrapped_fields_lem indent [] b ks = (refl, tt)
wrapped_fields_lem indent (w ∷ ws) b (k, ks) = elim (Bool-cases (leb 90 (length indent))) [
  | inl e ↦ rw e (each_on_its_own_lem indent (w ∷ ws) b (k, ks))
  | inr e ↦
      let (same, short) = wrap_words_lem indent (indent ++ w) ws b (inr (w, refl, k)) ks in
      rw e (rw (same, fields-indent indent w b, fields-word w k) refl, short)
]

-- writeWrapped behind an indent of blanks keeps the words of its text in their order, and each line has at most a hundred
-- columns or is a single word behind the indent.
pub write_wrapped_lem :
    (indent s : Bytes)
    → all is_space indent ≡ true
    → (all_fields (write_wrapped indent s) ≡ fields s)
      × All (IsShort indent) (write_wrapped indent s)
unfolding write_wrapped
write_wrapped_lem indent s b = wrapped_fields_lem indent (fields s) b (fields-AreWords s)
