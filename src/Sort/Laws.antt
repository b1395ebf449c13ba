-- ===== src/Sort/Laws.antt =====
-- Laws of the sorts of Go's package `sort`, for internal/resolver/decide.go and versions.go.
use mathlib.Core.Path.{subst}
use mathlib.Core.List.{Memᴰ}
use mathlib.Core.List.Memᴰ
use gomposer.Prelude.{
  sym, refl, All, Bool, true, false, List, [], ◌∷◌, ◌≡◌, ◌≢◌, ◌↔◌, arith, Bool-cases, inl, inr,
}
use gomposer.Sort.{insert_by, sort_by}

module _ {ℓ} {A : Type ℓ} where
  All-insert_by {κ} :
      (P : A → Type κ) (less : A → A → Bool) (a : A) (xs : List A)
      → P a
      → All P xs
      → All P (insert_by less a xs)
  unfolding insert_by
  All-insert_by P less a [] p h = (p, tt)
  All-insert_by P less a (b ∷ xs) p (q, h) = elim (Bool-cases (less b a)) [
    | inl e ↦ rw e (q, All-insert_by P less a xs p h)
    | inr e ↦ rw e (p, (q, h))
  ]

  pub All-sort_by {κ} :
      (P : A → Type κ) (less : A → A → Bool) (xs : List A) → All P xs → All P (sort_by less xs)
  unfolding sort_by
  All-sort_by P less [] h = tt
  All-sort_by P less (a ∷ xs) (p, h) =
      All-insert_by P less a (sort_by less xs) p (All-sort_by P less xs h)

  -- Each element is followed by none that comes before it.
  abbrev pub IsSorted : (A → A → Bool) → List A → Type ℓ
  IsSorted less [] = Unit
  IsSorted less (a ∷ xs) = All (λ b. less b a ≡ false) xs × IsSorted less xs

  insert_by-All {κ} :
      (P : A → Type κ) (less : A → A → Bool) (a : A) (xs : List A)
      → All P (insert_by less a xs)
      → P a × All P xs
  unfolding insert_by
  insert_by-All P less a [] h = h
  insert_by-All P less a (b ∷ xs) h = elim (Bool-cases (less b a)) [
    | inl e ↦
        let k : P b × All P (insert_by less a xs) = rw e at h in
        let (p, q) = insert_by-All P less a xs k.1 in (p, (k.0, q))
    | inr e ↦ rw e at h
  ]

  -- Sorting loses no element.
  pub sort_by-All {κ} :
      (P : A → Type κ) (less : A → A → Bool) (xs : List A) → All P (sort_by less xs) → All P xs
  unfolding sort_by
  sort_by-All P less [] h = tt
  sort_by-All P less (a ∷ xs) h =
      let (p, q) = insert_by-All P less a (sort_by less xs) h in (p, sort_by-All P less xs q)

  All-member {κ} : (P : A → Type κ) (xs : List A) (a : A) → All P xs → Memᴰ a xs → P a
  All-member P [] a h m = elim (Memᴰ.not-nil m) [ ]
  All-member P (b ∷ xs) a (p, h) m = elim (Memᴰ.cases_cons m) [
    | inl e ↦ subst P (sym e) p
    | inr k ↦ All-member P xs a h k
  ]

  All-members {κ} : (P : A → Type κ) (xs : List A) → ((a : A) → Memᴰ a xs → P a) → All P xs
  All-members P [] h = tt
  All-members P (a ∷ xs) h = (h a (Memᴰ.head refl), All-members P xs (λ b m. h b (Memᴰ.tail m)))

  pub sort_by_member :
      (less : A → A → Bool) (xs : List A) (a : A) → Memᴰ a xs → Memᴰ a (sort_by less xs)
  sort_by_member less xs a m =
      All-member (λ b. Memᴰ b (sort_by less xs)) xs a
        (sort_by-All (λ b. Memᴰ b (sort_by less xs)) less xs
          (All-members (λ b. Memᴰ b (sort_by less xs)) (sort_by less xs) (λ b k. k)))
        m

  insert_by_nil : (less : A → A → Bool) (a : A) (xs : List A) → insert_by less a xs ≢ []
  unfolding insert_by
  insert_by_nil less a [] h = ground arith
  insert_by_nil less a (b ∷ xs) h = ground arith

  pub sort_by_nil : (less : A → A → Bool) (xs : List A) → (sort_by less xs ≡ []) ↔ (xs ≡ [])
  unfolding sort_by
  sort_by_nil less [] = ((λ h. h), (λ h. h))
  sort_by_nil less (a ∷ xs) = ground (arith, insert_by_nil less a (sort_by less xs))

  module _ (less : A → A → Bool) (asym : (a b : A) → less b a ≡ true → less a b ≡ false)
      (trans : (a b c : A) → less b a ≡ false → less c b ≡ false → less c a ≡ false) where
    none_before :
        (a b : A) (xs : List A)
        → less b a ≡ false
        → All (λ c. less c b ≡ false) xs
        → All (λ c. less c a ≡ false) xs
    none_before a b [] h k = tt
    none_before a b (c ∷ xs) h (k, ks) = (trans a b c h k, none_before a b xs h ks)

    insert_by-IsSorted :
        (a : A) (xs : List A) → IsSorted less xs → IsSorted less (insert_by less a xs)
    unfolding insert_by
    insert_by-IsSorted a [] h = (tt, tt)
    insert_by-IsSorted a (b ∷ xs) (h, hs) = elim (Bool-cases (less b a)) [
      | inl e ↦ rw e (All-insert_by _ less a xs (asym a b e) h, insert_by-IsSorted a xs hs)
      | inr e ↦ rw e ((e, none_before a b xs e h), (h, hs))
    ]

    -- Sorting by a test that orders the elements leaves none behind a later one.
    pub sort_by-IsSorted : (xs : List A) → IsSorted less (sort_by less xs)
    unfolding sort_by
    sort_by-IsSorted [] = tt
    sort_by-IsSorted (a ∷ xs) = insert_by-IsSorted a (sort_by less xs) (sort_by-IsSorted xs)
