-- ===== src/Resolver/Dependees.antt =====
-- Where the dependencies that computeDevOnlySet of internal/resolver/error.go follows come from.
use gomposer.Prelude.{
  ◌≤◌, Bool, true, false, ◌||◌, List, [], ◌∷◌, ◌++◌, ◌≡◌, ◌⊎◌, arith, length, length-append, inl,
  inr, ||-true,
}
use gomposer.Prelude.Bytes.{Bytes}
use gomposer.Strings.{eq}
use gomposer.Strings.Equality.{eq_iff}
use gomposer.Resolver.Incompatibility.{
  Cause, root, dependency, no_versions, unknown_package, conflict, cause,
}
use gomposer.Resolver.Solution.{Assignment, decision, derivation}
use gomposer.Resolver.Propagate.{is_member}
use gomposer.Resolver.Missing.{member_append}
use gomposer.Resolver.Result.{dependee_of, dependees_at, dependees}

-- All that some derivation by a dependency leads to.
abbrev led_to : Cause → List Bytes
led_to (dependency p d) = d ∷ []
led_to _ = []

abbrev led_to_at : Assignment → List Bytes
led_to_at (decision p v n) = []
led_to_at (derivation t ic n) = led_to (cause ic)

pub all_dependees : List Assignment → List Bytes
all_dependees [] = []
all_dependees (a ∷ xs) = led_to_at a ++ all_dependees xs

pub all_dependees-length : (xs : List Assignment) → length (all_dependees xs) ≤ length xs
unfolding all_dependees
all_dependees-length [] = omega arith
all_dependees-length (a ∷ xs) =
    let rest = all_dependees-length xs in
    rw (length-append (led_to_at a) (all_dependees xs)) (omega (arith, rest, at_most_one a))
  where
    by_cause : (c : Cause) → length (led_to c) ≤ 1
    by_cause (dependency p d) = omega arith
    by_cause root = omega arith
    by_cause (no_versions p) = omega arith
    by_cause (unknown_package p) = omega arith
    by_cause (conflict a b) = omega arith

    at_most_one : (a : Assignment) → length (led_to_at a) ≤ 1
    at_most_one (decision p v n) = omega arith
    at_most_one (derivation t ic n) = by_cause (cause ic)

dependee_of-led_to :
    (cur p : Bytes) (c : Cause)
    → is_member p (dependee_of cur c) ≡ true
    → is_member p (led_to c) ≡ true
unfolding is_member
dependee_of-led_to cur p (dependency q d) h = ground (arith, h)
dependee_of-led_to cur p root h = h
dependee_of-led_to cur p (no_versions q) h = h
dependee_of-led_to cur p (unknown_package q) h = h
dependee_of-led_to cur p (conflict a b) h = h

dependees_at-led_to :
    (cur p : Bytes) (a : Assignment)
    → is_member p (dependees_at cur a) ≡ true
    → is_member p (led_to_at a) ≡ true
dependees_at-led_to cur p (decision q v n) h = h
dependees_at-led_to cur p (derivation t ic n) h = dependee_of-led_to cur p (cause ic) h

pub dependees-all :
    (cur p : Bytes) (xs : List Assignment)
    → is_member p (dependees cur xs) ≡ true
    → is_member p (all_dependees xs) ≡ true
unfolding dependees all_dependees
dependees-all cur p [] h = h
dependees-all cur p (a ∷ xs) h =
    let split = member_append p (dependees_at cur a) (dependees cur xs) in
    let joined = member_append p (led_to_at a) (all_dependees xs) in
    let here = dependees_at-led_to cur p a in
    let there = dependees-all cur p xs in ground (arith, h, split, joined, here, there)

pub first_or_later :
    (u c : Bytes) (work : List Bytes)
    → is_member u (c ∷ work) ≡ true
    → (c ≡ u) ⊎ (is_member u work ≡ true)
unfolding is_member
first_or_later u c work h = elim (||-true (eq c u) (is_member u work) h) [
  | inl e ↦ inl ((eq_iff c u).0 e)
  | inr k ↦ inr k
]

pub nobody : (u : Bytes) → is_member u [] ≡ true → ⊥
unfolding is_member
nobody u h = ground (arith, h)

pub both_ways : {b : Bool} → b ≡ false → b ≡ true → ⊥
both_ways h k = ground (arith, h, k)

pub covered :
    (p : Bytes) (xs ys : List Bytes)
    → (is_member p xs || is_member p ys) ≡ true
    → is_member p (xs ++ ys) ≡ true
covered p xs ys h = rw (member_append p xs ys) h

pub either :
    (p : Bytes) (xs ys : List Bytes)
    → is_member p (xs ++ ys) ≡ true
    → (is_member p xs ≡ true) ⊎ (is_member p ys ≡ true)
either p xs ys h = ||-true (is_member p xs) (is_member p ys) (rw (member_append p xs ys) at h)

pub left : (p : Bytes) (xs ys : List Bytes) → is_member p xs ≡ true → is_member p (xs ++ ys) ≡ true
left p xs ys h = covered p xs ys (ground (arith, h))

pub right : (p : Bytes) (xs ys : List Bytes) → is_member p ys ≡ true → is_member p (xs ++ ys) ≡ true
right p xs ys h = covered p xs ys (ground (arith, h))
