-- ===== src/Strings/Split.antt =====
-- strings.Split at single bytes, and strings.Fields.
use gomposer.Prelude.{
  ℕ, ◌≡◌, refl, Bool, true, false, List, [], ◌∷◌, ◌++◌, arith, if◌then◌else◌, any, Bool-cases, inl,
  inr,
}
use gomposer.Prelude.Bytes.{Bytes}
use gomposer.Strings.{is_space}

abbrev pub cons_head : ℕ → List Bytes → List Bytes
cons_head a [] = (a ∷ []) ∷ []
cons_head a (p ∷ ps) = (a ∷ p) ∷ ps

-- strings.Split(s, sep), where `p` tells the separator; there is always one part.
unfoldable pub split : (ℕ → Bool) → Bytes → List Bytes
split p [] = [] ∷ []
split p (a ∷ s) = let rest = split p s in if p a then [] ∷ rest else cons_head a rest

abbrev pub drop_empty : List Bytes → List Bytes
drop_empty [] = []
drop_empty ([] ∷ ps) = drop_empty ps
drop_empty ((a ∷ w) ∷ ps) = (a ∷ w) ∷ drop_empty ps

-- strings.Fields: the runs of bytes that are no white space.
unfoldable pub fields : Bytes → List Bytes
unfolding split is_space
fields s = drop_empty (split is_space s)

cons_head-append :
    (a : ℕ) (p : Bytes) (ps qs : List Bytes)
    → cons_head a ((p ∷ ps) ++ qs) ≡ cons_head a (p ∷ ps) ++ qs
cons_head-append a p ps qs = refl

-- The parts begin with a first one.
pub split-nonempty :
    (p : ℕ → Bool) (s : Bytes) → (w : Bytes) × (ws : List Bytes) × (split p s ≡ w ∷ ws)
unfolding split
split-nonempty p [] = ([], [], refl)
split-nonempty p (a ∷ s) = go (split-nonempty p s) (p a)
  where
    go :
        (w : Bytes) × (ws : List Bytes) × (split p s ≡ w ∷ ws)
        → (b : Bool)
        → (w : Bytes) × (ws : List Bytes) × ((if b then [] ∷ split p s else cons_head a (split p s))
            ≡ w ∷ ws)
    go (w, ws, e) true = ([], split p s, refl)
    go (w, ws, e) false = (a ∷ w, ws, rw e)

-- A separator between two texts separates their parts.
pub split-append :
    (p : ℕ → Bool) (s : Bytes) (c : ℕ) (t : Bytes)
    → p c ≡ true
    → split p (s ++ c ∷ t) ≡ split p s ++ split p t
unfolding split
split-append p [] c t h = rw h
split-append p (a ∷ s) c t h = elim (Bool-cases (p a)) [
  | inl e ↦ rw (e, split-append p s c t h)
  | inr e ↦ let (w, ws, f) = split-nonempty p s in rw (e, split-append p s c t h, f)
]

-- A text with no separator is its only part.
pub split_whole : (p : ℕ → Bool) (s : Bytes) → any p s ≡ false → split p s ≡ s ∷ []
unfolding split
split_whole p [] h = refl
split_whole p (a ∷ s) h = ground (arith, split_whole p s)
