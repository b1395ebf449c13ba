-- ===== src/Why/Names.antt =====
-- Names and lists of names of internal/cli/why.go.
use gomposer.Prelude.{true, List, [], ◌∷◌, ◌≡◌, ◌⊎◌, refl, sym, arith, inl, inr, ||-true}
use gomposer.Prelude.Bytes.{Bytes}
use gomposer.Strings.{eq}
use gomposer.Strings.Equality.{eq_iff}
use gomposer.Why.{is_named}

pub is_named_here : {v n : Bytes} (names : List Bytes) → v ≡ n → is_named v (n ∷ names) ≡ true
unfolding is_named
is_named_here {v} {n} names e = rw ((eq_iff n v).1 (sym e)) refl

pub is_named_later :
    (v n : Bytes) (names : List Bytes) → is_named v names ≡ true → is_named v (n ∷ names) ≡ true
unfolding is_named
is_named_later v n names h = ground (arith, h)

pub is_named_cases :
    (v n : Bytes) (names : List Bytes)
    → is_named v (n ∷ names) ≡ true
    → (n ≡ v) ⊎ (is_named v names ≡ true)
unfolding is_named
is_named_cases v n names h = elim (||-true (eq n v) (is_named v names) h) [
  | inl e ↦ inl ((eq_iff n v).0 e)
  | inr k ↦ inr k
]

pub unnamed : (v : Bytes) → is_named v [] ≡ true → ⊥
unfolding is_named
unnamed v h = ground (arith, h)

pub is_named_only : (v n : Bytes) → is_named v (n ∷ []) ≡ true → n ≡ v
is_named_only v n h = elim (is_named_cases v n [] h) [ inl e ↦ e | inr k ↦ elim (unnamed v k) [ ] ]
