-- ===== src/Table.antt =====
-- Go's maps from strings, as lists of entries in the order in which they are ranged over.
use gomposer.Prelude.{
  false, Option, none, some, List, [], ◌∷◌, ◌≡◌, refl, sym, ◌∙◌, arith, if◌then◌else◌, Bool-cases,
  inl, inr,
}
use gomposer.Prelude.Bytes.{Bytes}
use gomposer.Strings.{eq}
use gomposer.Strings.Equality.{eq_iff}

abbrev pub Table {ℓ} : Type ℓ → Type ℓ
Table A = List (Bytes × A)

module _ {ℓ} {A : Type ℓ} where
  -- v, ok := m[k]
  unfoldable pub get : Bytes → Table A → Option A
  unfolding eq
  get k [] = none
  get k ((j, a) ∷ m) = let rest = get k m in if eq j k then some a else rest

  -- m[k] = a
  unfoldable pub put : Bytes → A → Table A → Table A
  unfolding eq
  put k a [] = (k, a) ∷ []
  put k a ((j, b) ∷ m) = let rest = put k a m in if eq j k then (j, a) ∷ m else (j, b) ∷ rest

  only_one :
      (i k j : Bytes) (a b : A) (rest : Option A)
      → eq i k ≡ false
      → (if eq i j then some b else if eq k j then some a else rest)
        ≡ (if eq k j then some a else if eq i j then some b else rest)
  only_one i k j a b rest e = elim (Bool-cases (eq i j)) [
    | inr f ↦ rw f refl
    | inl f ↦ elim (Bool-cases (eq k j)) [
      | inr g ↦ rw (f, g) refl
      | inl g ↦
          let same = (eq_iff i k).1 ((eq_iff i j).0 f ∙ sym ((eq_iff k j).0 g)) in
          let absurd = rw e at same in ground (arith, absurd)
    ]
  ]

  pub get-put :
      (k : Bytes) (a : A) (m : Table A) (j : Bytes)
      → get j (put k a m) ≡ (if eq k j then some a else get j m)
  unfolding get put
  get-put k a [] j = refl
  get-put k a ((i, b) ∷ m) j = elim (Bool-cases (eq i k)) [
    | inl e ↦
        let same = (eq_iff i k).0 e in
        elim (Bool-cases (eq i j)) [
          | inl f ↦ rw (e, sym same, f) refl
          | inr f ↦ rw (e, sym same, f) refl
        ]
    | inr e ↦ rw (e, get-put k a m j) (only_one i k j a b (get j m) e)
  ]
