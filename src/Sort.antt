-- ===== src/Sort.antt =====
-- Go's package `sort` and maps from strings.
pub mod Laws
use gomposer.Prelude.{Bool, true, false, Ordering, Option, none, some, List, [], ◌∷◌, if◌then◌else◌}
use gomposer.Prelude.Bytes.{Bytes}
use gomposer.Strings.{eq}
use gomposer.Constraint.Compare.{compare_bytes}

-- A stable sort by a test for "comes first". sort.Slice leaves the order of equal elements open; the
-- model takes it to be stable too.
module _ {ℓ} {A : Type ℓ} where
  unfoldable pub insert_by : (A → A → Bool) → A → List A → List A
  insert_by less a [] = a ∷ []
  insert_by less a (b ∷ xs) =
      let rest = insert_by less a xs in if less b a then b ∷ rest else a ∷ b ∷ xs

  unfoldable pub sort_by : (A → A → Bool) → List A → List A
  sort_by less [] = []
  sort_by less (a ∷ xs) = insert_by less a (sort_by less xs)

unfoldable pub bytes_less : Bytes → Bytes → Bool
unfolding compare_bytes
bytes_less s t = elim (compare_bytes s t) [ Ordering.lt ↦ true | _ ↦ false ]

-- sort.Strings
unfoldable pub sort_strings : List Bytes → List Bytes
unfolding sort_by insert_by bytes_less
sort_strings xs = sort_by bytes_less xs

-- A map from strings is a list of its entries, in the order in which it is ranged over.
abbrev pub Entries : Type 0
Entries = List (Bytes × Bytes)

unfoldable pub keys : Entries → List Bytes
keys [] = []
keys ((k, v) ∷ m) = k ∷ keys m

-- m[k], which is empty where the key is missing
unfoldable pub entry : Entries → Bytes → Bytes
entry [] k = []
entry ((j, v) ∷ m) k = let rest = entry m k in if eq j k then v else rest
