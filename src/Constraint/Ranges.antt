-- ===== src/Constraint/Ranges.antt =====
-- internal/constraint/constraint.go: the caret and the tilde, said of numbers.
use gomposer.Prelude.{
  ℕ, zero, suc, ◌+◌, ◌≤◌, ◌<◌, Bool, true, false, List, [], ◌≡◌, arith, leb, ◌↔◌, ◌⊎◌,
}
use gomposer.Prelude.Bytes.{Bytes}
use gomposer.Prelude.Int.{pos, max_int}
use gomposer.Strings.{count_byte}
use gomposer.Constraint.Version.{
  Version, ok, Stability, dev, numeric, rank, is_dev, parse_version, split_pre,
}
use gomposer.Constraint.Term.{Term, and_satisfies, satisfies_term, op_ge, op_lt}
use gomposer.Constraint.Expand.{
  term, half_open, at_dev, next_caret_upper, caret_terms, next_tilde_upper, tilde_terms,
}

-- The version has these numbers, and is no dev version.
pub record Numbered (w : Version) (a b c : ℕ) : Type 0 where
  pub at_major : w.major ≡ pos a
  pub at_minor : w.minor ≡ pos b
  pub at_patch : w.patch ≡ pos c
  pub not_dev : is_dev w.stability ≡ false

-- The version has these numbers and no branch, at any stability.
pub record Plain (v : Version) (x y z : ℕ) : Type 0 where
  pub at_major : v.major ≡ pos x
  pub at_minor : v.minor ≡ pos y
  pub at_patch : v.patch ≡ pos z
  pub no_branch : v.branch ≡ []

-- The numbers `y.z` are at most `b.c`.
abbrev pub AtMost : ℕ → ℕ → ℕ → ℕ → Type 0
AtMost y z b c = (y < b) ⊎ (y ≡ b) × (z ≤ c)

not_dev-rank : (s : Stability) → is_dev s ≡ false → 0 < rank s
not_dev-rank s h = ground arith

-- A bound from below that carries Dev stability: what is at least its numbers satisfies it.
lower_iff :
    {v w : Version} {x y z a b c : ℕ}
    → Plain v x y z
    → Numbered w a b c
    → (satisfies_term (term op_ge (at_dev v)) w ≡ true) ↔ ((x < a) ⊎ (x ≡ a) × AtMost y z b c)
unfolding satisfies_term
lower_iff {v} {w} p n = ground (arith, not_dev-rank w.stability)

upper_iff :
    {w : Version} {a b c : ℕ} (x y : ℕ)
    → Numbered w a b c
    → (satisfies_term (term op_lt (numeric (pos x) (pos y) (pos 0) dev)) w ≡ true)
      ↔ ((a < x) ⊎ (a ≡ x) × (b < y))
unfolding satisfies_term
upper_iff {w} x y n = ground (arith, not_dev-rank w.stability)

pub half_open_and :
    (lo hi w : Version)
    → (and_satisfies (half_open lo hi) w ≡ true)
      ↔ ((satisfies_term (term op_ge lo) w ≡ true) × (satisfies_term (term op_lt hi) w ≡ true))
unfolding and_satisfies
half_open_and lo hi w = ground arith

next_caret_upper_zero :
    (v : Version) {y z : ℕ}
    → y < max_int
    → Plain v 0 y z
    → next_caret_upper v ≡ numeric (pos 0) (pos (y + 1)) (pos 0) dev
unfolding next_caret_upper
next_caret_upper_zero v h p = ground arith

next_caret_upper-suc :
    (v : Version) {x y z : ℕ}
    → suc x < max_int
    → Plain v (suc x) y z
    → next_caret_upper v ≡ numeric (pos (x + 2)) (pos 0) (pos 0) dev
unfolding next_caret_upper
next_caret_upper-suc v h p = ground arith

-- `^x.y.z` from 1 on admits the versions of one major number that are not below, and `^0.y.z`
-- those of one minor number.
abbrev pub CaretAdmits : ℕ → ℕ → ℕ → ℕ → ℕ → ℕ → Type 0
CaretAdmits zero y z a b c = (a ≡ 0) × (b ≡ y) × (z ≤ c)
CaretAdmits (suc x) y z a b c = (a ≡ suc x) × AtMost y z b c

caret_iff :
    (v w : Version) (x y z a b c : ℕ)
    → x < max_int
    → y < max_int
    → Plain v x y z
    → Numbered w a b c
    → (and_satisfies (half_open (at_dev v) (next_caret_upper v)) w ≡ true) ↔ CaretAdmits x y z a b c
caret_iff v w zero y z a b c hx hy p n = rw (next_caret_upper_zero v hy p) (
    ground (
      arith,
      half_open_and (at_dev v) (numeric (pos 0) (pos (y + 1)) (pos 0) dev) w,
      lower_iff p n,
      upper_iff 0 (y + 1) n,
    ))
caret_iff v w (suc x) y z a b c hx hy p n = rw (next_caret_upper-suc v hx p) (
    ground (
      arith,
      half_open_and (at_dev v) (numeric (pos (x + 2)) (pos 0) (pos 0) dev) w,
      lower_iff p n,
      upper_iff (x + 2) 0 n,
    ))

-- Where `s` parses to a version without a branch, whose first numbers are below the greatest int, the text `^s`
-- admits a version that is no dev version exactly if its numbers lie in the caret's range.
pub caret_terms_admits :
    (s : Bytes) (v w : Version) (x y z a b c : ℕ)
    → parse_version s ≡ ok v
    → x < max_int
    → y < max_int
    → Plain v x y z
    → Numbered w a b c
    → (ts : List Term) × (caret_terms s ≡ ok ts)
      × ((and_satisfies ts w ≡ true) ↔ CaretAdmits x y z a b c)
unfolding caret_terms
caret_terms_admits s v w x y z a b c h hx hy p n =
    (half_open (at_dev v) (next_caret_upper v), rw h, caret_iff v w x y z a b c hx hy p n)

-- A tilde text with three parts keeps the minor number, and a shorter one the major number.
abbrev pub TildeAdmits : Bool → ℕ → ℕ → ℕ → ℕ → ℕ → ℕ → Type 0
TildeAdmits true x y z a b c = (a ≡ x) × (b ≡ y) × (z ≤ c)
TildeAdmits false x y z a b c = (a ≡ x) × AtMost y z b c

-- The base of the text has two dots or more.
abbrev pub has_patch : Bytes → Bool
has_patch s = leb 2 (count_byte b'.' (split_pre s).0)

abbrev tilde_upper : Bool → ℕ → ℕ → Version
tilde_upper true x y = numeric (pos x) (pos (y + 1)) (pos 0) dev
tilde_upper false x y = numeric (pos (x + 1)) (pos 0) (pos 0) dev

next_tilde_upper_eq :
    (s : Bytes) (v : Version) {x y z : ℕ}
    → x < max_int
    → y < max_int
    → Plain v x y z
    → next_tilde_upper s v ≡ tilde_upper (has_patch s) x y
unfolding next_tilde_upper
next_tilde_upper_eq s v hx hy p = ground arith

tilde_iff :
    (patched : Bool) (v w : Version) (x y z a b c : ℕ)
    → Plain v x y z
    → Numbered w a b c
    → (and_satisfies (half_open (at_dev v) (tilde_upper patched x y)) w ≡ true)
      ↔ TildeAdmits patched x y z a b c
tilde_iff true v w x y z a b c p n =
    ground (
      arith,
      half_open_and (at_dev v) (tilde_upper true x y) w,
      lower_iff p n,
      upper_iff x (y + 1) n,
    )
tilde_iff false v w x y z a b c p n = ground (
  arith,
  half_open_and (at_dev v) (tilde_upper false x y) w,
  lower_iff p n,
  upper_iff (x + 1) 0 n,
)

-- Where `s` parses to a version without a branch, whose first numbers are below the greatest int, the text `~s`
-- admits a version that is no dev version exactly if its numbers lie in the tilde's range.
pub tilde_terms_admits :
    (s : Bytes) (v w : Version) (x y z a b c : ℕ)
    → parse_version s ≡ ok v
    → x < max_int
    → y < max_int
    → Plain v x y z
    → Numbered w a b c
    → (ts : List Term) × (tilde_terms s ≡ ok ts)
      × ((and_satisfies ts w ≡ true) ↔ TildeAdmits (has_patch s) x y z a b c)
unfolding tilde_terms
tilde_terms_admits s v w x y z a b c h hx hy p n = (
  half_open (at_dev v) (next_tilde_upper s v),
  rw h,
  rw (next_tilde_upper_eq s v hx hy p) (tilde_iff (has_patch s) v w x y z a b c p n),
)
