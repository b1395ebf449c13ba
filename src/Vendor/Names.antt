-- ===== src/Vendor/Names.antt =====
-- Which names safeVendorPackagePath accepts, and the paths that it answers.
use gomposer.Prelude.{
  ℕ, Bool, true, false, not, ◌&&◌, ◌||◌, Option, none, some, List, [], ◌∷◌, ◌++◌, ◌==◌, ◌≡◌, refl,
  sym, ap, ◌∙◌, ◌↔◌, ◌⊎◌, inl, inr, if◌then◌else◌, any, Bool-cases, arith, suc, ==_iff,
}
use mathlib.Core.Option.{some_inj}
use gomposer.Prelude.Bytes.{Bytes, codes}
use gomposer.Strings.{count_byte}
use gomposer.Strings.Split.{split-append, split_whole}
use gomposer.Strings.Equality.{eq_refl}
use gomposer.Vendor.Paths.{
  CleanPath, is_abs, enter, enter_all, path_parts, clean_join, vendor_root, vendor_path,
  outermost_first, up_and_down, strip_common, rel, is_unsafe_part, leaves, safe_vendor_package_path,
}

-- A name of one directory: no separator of Unix or Windows in it, and no name with a meaning of its own.
abbrev pub IsPlain : Bytes → Type 0
IsPlain p = (is_unsafe_part p ≡ false) × (count_byte b'/' p ≡ 0)

none_counted : (s : Bytes) → count_byte b'/' s ≡ 0 → any (λ c. c == b'/') s ≡ false
unfolding count_byte
none_counted [] h = refl
none_counted (c ∷ s) h = ground (arith, none_counted s)

count_byte-head :
    (c : ℕ) (s : Bytes) (n : ℕ)
    → count_byte b'/' (c ∷ s) ≡ suc n
    → ((c ≡ b'/') × (count_byte b'/' s ≡ n)) ⊎ (((c == b'/') ≡ false) × (count_byte b'/' s ≡ suc n))
unfolding count_byte
count_byte-head c s n h = elim (Bool-cases (c == b'/')) [
  | inl e ↦ let one = rw e at h in inl ((==_iff c b'/').0 e, omega (arith, one))
  | inr e ↦ let none_here = rw e at h in inr (e, omega (arith, none_here))
]

count_byte-other :
    (c : ℕ) (s : Bytes) → (c == b'/') ≡ false → count_byte b'/' (c ∷ s) ≡ count_byte b'/' s
unfolding count_byte
count_byte-other c s e = rw e (omega arith)

-- A text with one slash is cut there.
one_counted :
    (s : Bytes)
    → count_byte b'/' s ≡ 1
    → (a : Bytes) × (b : Bytes) × (s ≡ a ++ b'/' ∷ b)
      × (count_byte b'/' a ≡ 0)
      × (count_byte b'/' b ≡ 0)
unfolding count_byte
one_counted [] h = ground (arith, h)
one_counted (c ∷ s) h = elim (count_byte-head c s 0 h) [
  | inl (e, none_left) ↦ ([], s, rw e, refl, none_left)
  | inr (e, one_left) ↦
      let (a, b, same, na, nb) = one_counted s one_left in
      (c ∷ a, b, rw same, count_byte-other c a e ∙ na, nb)
]

count_one :
    (a b : Bytes)
    → count_byte b'/' a ≡ 0
    → count_byte b'/' b ≡ 0
    → count_byte b'/' (a ++ b'/' ∷ b) ≡ 1
unfolding count_byte
count_one [] b na nb = rw nb refl
count_one (c ∷ a) b na nb = ground (arith, count_one a b)

path_parts_two :
    (a b : Bytes)
    → count_byte b'/' a ≡ 0
    → count_byte b'/' b ≡ 0
    → path_parts (a ++ b'/' ∷ b) ≡ a ∷ b ∷ []
unfolding path_parts
path_parts_two a b na nb = rw (
  split-append (λ c. c == b'/') a b'/' b refl,
  split_whole (λ c. c == b'/') a (none_counted a na),
  split_whole (λ c. c == b'/') b (none_counted b nb),
)

enter_plain :
    (r : Bool) (ps : List Bytes) (p : Bytes) → is_unsafe_part p ≡ false → enter r ps p ≡ p ∷ ps
unfolding enter is_unsafe_part
enter_plain r ps p h = ground arith

-- Two plain names are entered in their order, below where the parts before them lead.
enter_all_plain :
    (r : Bool) (ps xs : List Bytes) (v a b : Bytes)
    → is_unsafe_part a ≡ false
    → is_unsafe_part b ≡ false
    → enter_all r ps (xs ++ v ∷ a ∷ b ∷ []) ≡ b ∷ a ∷ enter_all r ps (xs ++ v ∷ [])
unfolding enter_all
enter_all_plain r ps [] v a b ua ub =
    rw (enter_plain r (enter r ps v) a ua, enter_plain r (a ∷ enter r ps v) b ub) refl
enter_all_plain r ps (x ∷ xs) v a b ua ub = enter_all_plain r (enter r ps x) xs v a b ua ub

-- A name of two plain parts leads two directories below vendor.
vendor_path_plain :
    (dir a b : Bytes)
    → IsPlain a
    → IsPlain b
    → vendor_path dir (a ++ b'/' ∷ b)
      ≡ record { rooted = (vendor_root dir).rooted; names = b ∷ a ∷ (vendor_root dir).names }
unfolding vendor_path vendor_root clean_join enter_all
vendor_path_plain dir a b (ua, na) (ub, nb) =
    rw
      (
        path_parts_two a b na nb,
        enter_all_plain (is_abs dir) [] (path_parts dir) (codes "vendor") a b ua ub,
      )
      refl

strip_common-prefix : (xs ys : List Bytes) → strip_common xs (xs ++ ys) ≡ some ys
unfolding strip_common up_and_down
strip_common-prefix [] [] = refl
strip_common-prefix [] (y ∷ ys) = refl
strip_common-prefix (x ∷ xs) ys = rw (eq_refl x, strip_common-prefix xs ys)

append_two : (xs : List Bytes) (a b : Bytes) → (xs ++ a ∷ []) ++ b ∷ [] ≡ xs ++ a ∷ b ∷ []
append_two [] a b = refl
append_two (x ∷ xs) a b = ap (λ ys. x ∷ ys) (append_two xs a b)

same_root : (r : Bool) (o : Option (List Bytes)) → (if r && r || not (r || r) then o else none) ≡ o
same_root true o = refl
same_root false o = refl

rel_below :
    (root : CleanPath) (a b : Bytes)
    → rel root (record { rooted = root.rooted; names = b ∷ a ∷ root.names }) ≡ some (a ∷ b ∷ [])
unfolding rel outermost_first
rel_below root a b =
    rw
      (
        append_two (outermost_first root.names) a b,
        strip_common-prefix (outermost_first root.names) (a ∷ b ∷ []),
      )
      (same_root root.rooted (some (a ∷ b ∷ [])))

leaves_plain : (a b : Bytes) → is_unsafe_part a ≡ false → leaves (some (a ∷ b ∷ [])) ≡ false
unfolding leaves is_unsafe_part
leaves_plain a b h = ground arith

stays :
    (dir a b : Bytes)
    → IsPlain a
    → IsPlain b
    → leaves (rel (vendor_root dir) (vendor_path dir (a ++ b'/' ∷ b))) ≡ false
stays dir a b pa pb =
    rw (vendor_path_plain dir a b pa pb, rel_below (vendor_root dir) a b) (leaves_plain a b pa.0)

safe_plain :
    (dir a b : Bytes)
    → IsPlain a
    → IsPlain b
    → safe_vendor_package_path dir (a ++ b'/' ∷ b)
      ≡ some (record { rooted = (vendor_root dir).rooted; names = b ∷ a ∷ (vendor_root dir).names })
unfolding safe_vendor_package_path
safe_plain dir a b pa pb =
    rw (count_one a b pa.1 pb.1, path_parts_two a b pa.1 pb.1, pa.0, pb.0, stays dir a b pa pb)
      (ap (λ p. some p) (vendor_path_plain dir a b pa pb))

two_plain :
    (a b : Bytes)
    → (is_unsafe_part a || (is_unsafe_part b || false)) ≡ false
    → (is_unsafe_part a ≡ false) × (is_unsafe_part b ≡ false)
two_plain a b h = ground arith

refused_otherwise :
    (dir name : Bytes) (dest : CleanPath)
    → safe_vendor_package_path dir name ≡ some dest
    → (count_byte b'/' name ≡ 1) × (any is_unsafe_part (path_parts name) ≡ false)
unfolding safe_vendor_package_path
refused_otherwise dir name dest h = ground arith

-- safeVendorPackagePath accepts exactly the names of two parts with one slash between them, each of which has no
-- backslash and is not empty, "." or "..", and answers the path of these two names below the project's vendor
-- directory: what Rel is asked about never refuses a name.
pub safe_vendor_package_path_iff :
    (dir name : Bytes) (dest : CleanPath)
    → (safe_vendor_package_path dir name ≡ some dest) ↔ (
        (a : Bytes) × (b : Bytes) × (name ≡ a ++ b'/' ∷ b)
        × IsPlain a
        × IsPlain b
        × (dest ≡ record {
          rooted = (vendor_root dir).rooted;
          names = b ∷ a ∷ (vendor_root dir).names;
        }))
safe_vendor_package_path_iff dir name dest = (forward, backward)
  where
    Accepted : Type 0
    Accepted =
        (a : Bytes) × (b : Bytes) × (name ≡ a ++ b'/' ∷ b)
        × IsPlain a
        × IsPlain b
        × (dest
            ≡ record { rooted = (vendor_root dir).rooted; names = b ∷ a ∷ (vendor_root dir).names })

    forward : safe_vendor_package_path dir name ≡ some dest → Accepted
    forward h =
        let (one, plain) = refused_otherwise dir name dest h in
        let (a, b, same, na, nb) = one_counted name one in
        let (ua, ub) = two_plain a b (rw (same, path_parts_two a b na nb) at plain) in
        let answer = safe_plain dir a b (ua, na) (ub, nb) in
        (a, b, same, (ua, na), (ub, nb), some_inj.0 (sym h ∙ rw same answer))

    backward : Accepted → safe_vendor_package_path dir name ≡ some dest
    backward (a, b, same, pa, pb, at) = rw (same, at) (safe_plain dir a b pa pb)
