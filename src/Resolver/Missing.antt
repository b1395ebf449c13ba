-- ===== src/Resolver/Missing.antt =====
-- Names that a walk of internal/resolver/solve.go has not reached.
use mathlib.Core.Path.{subst}
use gomposer.Prelude.{
  ℕ, suc, ◌+◌, ◌≤◌, true, false, ◌||◌, List, [], ◌∷◌, ◌++◌, ◌≡◌, refl, sym, arith, length,
  if◌then◌else◌, Bool-cases, inl, inr, ||-true,
}
use gomposer.Prelude.Bytes.{Bytes}
use gomposer.Strings.{eq}
use gomposer.Strings.Equality.{eq_iff, eq_refl}
use gomposer.Resolver.Propagate.{is_member}
use gomposer.Resolver.Result.{unreached}

pub member_append :
    (p : Bytes) (xs ys : List Bytes) → is_member p (xs ++ ys) ≡ (is_member p xs || is_member p ys)
unfolding is_member
member_append p [] ys = refl
member_append p (x ∷ xs) ys = ground (arith, member_append p xs ys)

-- The new names are among the given ones, and together with the old ones they cover these.
pub unreached_given :
    (p : Bytes) (reached ps : List Bytes)
    → is_member p (unreached reached ps) ≡ true
    → is_member p ps ≡ true
unfolding unreached is_member
unreached_given p reached [] h = h
unreached_given p reached (q ∷ ps) h =
    ground (arith, h, unreached_given p reached ps, unreached_given p (q ∷ reached) ps)

pub unreached_covers :
    (p : Bytes) (reached ps : List Bytes)
    → is_member p ps ≡ true
    → (is_member p (unreached reached ps) || is_member p reached) ≡ true
unfolding unreached is_member
unreached_covers p reached [] h = ground (arith, h)
unreached_covers p reached (q ∷ ps) h =
    ground
      (arith, h, unreached_covers p reached ps, unreached_covers p (q ∷ reached) ps, eq_iff q p)

-- The names of `all` that are not reached.
pub missing : List Bytes → List Bytes → ℕ
missing reached [] = 0
missing reached (n ∷ all) =
    let rest = missing reached all in if is_member n reached then rest else suc rest

pub missing-length : (reached all : List Bytes) → missing reached all ≤ length all
unfolding missing
missing-length reached [] = omega arith
missing-length reached (n ∷ all) = ground (arith, missing-length reached all)

pub missing_fewer :
    (xs ys all : List Bytes)
    → ((p : Bytes) → is_member p xs ≡ true → is_member p ys ≡ true)
    → missing ys all ≤ missing xs all
unfolding missing
missing_fewer xs ys [] h = omega arith
missing_fewer xs ys (n ∷ all) h = ground (arith, missing_fewer xs ys all h, h n)

pub missing_drops :
    (p : Bytes) (reached all : List Bytes)
    → is_member p reached ≡ false
    → is_member p all ≡ true
    → suc (missing (p ∷ reached) all) ≤ missing reached all
unfolding missing is_member
missing_drops p reached [] h m = ground (arith, m)
missing_drops p reached (n ∷ all) h m =
    let fewer = missing_fewer reached (p ∷ reached) all (λ q k. ground (arith, k)) in
    elim (||-true (eq n p) (is_member p all) m) [
      | inl e ↦
          subst (λ (x : Bytes). suc (missing (p ∷ reached) (x ∷ all)) ≤ missing reached (x ∷ all))
            (sym ((eq_iff n p).0 e)) (rw (eq_refl p, h) (omega (arith, fewer)))
      | inr k ↦ ground (arith, missing_drops p reached all h k)
    ]

pub is_member_later :
    (p q : Bytes) (ps : List Bytes) → is_member q ps ≡ true → is_member q (p ∷ ps) ≡ true
unfolding is_member
is_member_later p q ps k = ground (arith, k)

pub is_member_first : (p : Bytes) (ps : List Bytes) → is_member p (p ∷ ps) ≡ true
unfolding is_member
is_member_first p ps = rw (eq_refl p) refl

pub moved :
    (p q : Bytes) (xs ys : List Bytes)
    → is_member q (xs ++ p ∷ ys) ≡ true
    → is_member q (p ∷ (xs ++ ys)) ≡ true
unfolding is_member
moved p q xs ys h =
    let a = member_append q xs (p ∷ ys) in let b = member_append q xs ys in ground (arith, h, a, b)

pub missing-unreached :
    (reached ps all : List Bytes)
    → ((p : Bytes) → is_member p ps ≡ true → is_member p all ≡ true)
    → length (unreached reached ps) + missing (unreached reached ps ++ reached) all
      ≤ missing reached all
unfolding unreached
missing-unreached reached [] all h = omega arith
missing-unreached reached (p ∷ ps) all h =
    let later = λ (q : Bytes) (k : is_member q ps ≡ true). h q (is_member_later p q ps k) in
    elim (Bool-cases (is_member p reached)) [
      | inl e ↦ rw e (missing-unreached reached ps all later)
      | inr e ↦
          let rest = missing-unreached (p ∷ reached) ps all later in
          let drops = missing_drops p reached all e (h p (is_member_first p ps)) in
          let n = unreached (p ∷ reached) ps in
          let same =
            missing_fewer (n ++ p ∷ reached) (p ∷ (n ++ reached)) all
              (λ q k. moved p q n reached k) in
          rw e (omega (arith, rest, drops, same))
    ]
