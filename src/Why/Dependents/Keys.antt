-- ===== src/Why/Dependents/Keys.antt =====
-- internal/cli/why.go, recursiveWhy: the keys of the requirements that are listed tell them apart.
use mathlib.Core.Path.{subst}
use mathlib.Core.List.{Memᴰ}
use mathlib.Core.List.Memᴰ
use gomposer.Prelude.{
  ℕ, List, [], ◌∷◌, ◌≡◌, refl, ap, arith, inl, inr, sym, Bool, not, ◌&&◌, ◌==◌, ◌++◌, ◌≢◌, true,
  all,
}
use gomposer.Prelude.Bytes.{Bytes}
use gomposer.Why.{Edge}
use gomposer.Why.Dependents.{edge_key}

-- No byte of the text is 0.
abbrev pub no_nul : Bytes → Bool
no_nul = all (λ c. not (c == 0))

-- The names of the edge, and its target, have no byte 0.
abbrev pub is_plain_edge : Edge → Bool
is_plain_edge e = no_nul e.name && no_nul e.target

abbrev tail_of : Bytes → Bytes
tail_of [] = []
tail_of (c ∷ s) = s

abbrev head_of : Bytes → ℕ
head_of [] = 0
head_of (c ∷ s) = c

nul_first : (c : ℕ) (a r s : Bytes) → no_nul (c ∷ a) ≡ true → 0 ∷ r ≢ (c ∷ a) ++ (0 ∷ s)
nul_first c a r s h e = let p = ap head_of e in ground (arith, h, p)

-- Texts without a byte 0 before one are told apart.
split_at_nul :
    (a b r s : Bytes)
    → no_nul a ≡ true
    → no_nul b ≡ true
    → a ++ (0 ∷ r) ≡ b ++ (0 ∷ s)
    → (a ≡ b) × (r ≡ s)
split_at_nul [] [] r s h k e = (refl, ap tail_of e)
split_at_nul [] (c ∷ b) r s h k e = absurd (nul_first c b r s k e)
split_at_nul (c ∷ a) [] r s h k e = absurd (nul_first c a s r h (sym e))
split_at_nul (c ∷ a) (d ∷ b) r s h k e =
    let first = ap head_of e in
    let (ha, hb) : (no_nul a ≡ true) × (no_nul b ≡ true) = (ground (arith, h), ground (arith, k)) in
    let (p, q) = split_at_nul a b r s ha hb (ap tail_of e) in (rw (first, p) refl, q)

-- The two packages and the constraint of the edges are the same.
abbrev pub AreAlike : Edge → Edge → Type 0
AreAlike f e = (f.name ≡ e.name) × (f.target ≡ e.target) × (f.requirement ≡ e.requirement)

pub edge_key-AreAlike :
    (f e : Edge)
    → is_plain_edge f ≡ true
    → is_plain_edge e ≡ true
    → edge_key f ≡ edge_key e
    → AreAlike f e
unfolding edge_key
edge_key-AreAlike f e h k p =
    let (hn, ht) : (no_nul f.name ≡ true) × (no_nul f.target ≡ true) =
      (ground (arith, h), ground (arith, h)) in
    let (kn, kt) : (no_nul e.name ≡ true) × (no_nul e.target ≡ true) =
      (ground (arith, k), ground (arith, k)) in
    let (name, rest) =
      split_at_nul f.name e.name (f.target ++ (0 ∷ f.requirement)) (e.target ++ (0 ∷ e.requirement))
        hn kn p in
    let (target, requirement) =
      split_at_nul f.target e.target f.requirement e.requirement ht kt rest in
    (name, target, requirement)

pub all_at :
    (es : List Edge) (e : Edge) → all is_plain_edge es ≡ true → Memᴰ e es → is_plain_edge e ≡ true
all_at [] e h m = elim (Memᴰ.not-nil m) [ ]
all_at (f ∷ es) e h m = elim (Memᴰ.cases_cons m) [
  | inl p ↦
      let here : is_plain_edge f ≡ true = ground (arith, h) in
      subst (λ x. is_plain_edge x ≡ true) (sym p) here
  | inr k ↦ let later : all is_plain_edge es ≡ true = ground (arith, h) in all_at es e later k
]
