-- ===== src/Resolver/Render.antt =====
-- internal/resolver/render.go and error.go: the texts made of one incompatibility, and the wrapping of lines. The labels
-- of shared incompatibilities are left out, since they go by pointers.
pub mod Width
use gomposer.Prelude.{
  ℕ, suc, ◌+◌, ◌-◌, Bool, true, false, not, ◌&&◌, Option, none, some, List, [], ◌∷◌, ◌++◌, leb,
  if◌then◌else◌, length,
}
use gomposer.Prelude.Bytes.{Bytes, codes}
use gomposer.Strings.{eq, is_empty}
use gomposer.Strings.Split.{fields}
use gomposer.Resolver.Term.{Term}
use gomposer.Resolver.Incompatibility.{
  Incompatibility, Cause, incompatibility, root, dependency, no_versions, unknown_package, conflict,
  terms, cause, is_failure, show_incompatibility,
}
use gomposer.Resolver.Propagate.{is_member}

-- A constraint's text, with "*" for an empty one.
abbrev pub or_star : Bytes → Bytes
or_star [] = codes "*"
or_star (c ∷ s) = c ∷ s

unfoldable pub term_constraint_label : Term → Bytes
term_constraint_label t =
    if not t.positive
    then codes "(not " ++ (or_star t.constraint.original ++ codes ")")
    else or_star t.constraint.original

abbrev pub named_constraint : Term → Bytes
named_constraint t = t.pkg ++ 32 ∷ or_star t.constraint.original

-- The first term that is not about $root.
unfoldable pub root_require_terms : Bytes → List Term → Bytes
unfolding eq
root_require_terms whole [] = whole
root_require_terms whole (t ∷ ts) =
    let rest = root_require_terms whole ts in
    if eq t.pkg (codes "$root") then rest else named_constraint t

unfoldable pub root_require_text : Incompatibility → Bytes
unfolding root_require_terms show_incompatibility
root_require_text ic = root_require_terms (show_incompatibility ic) (terms ic)

unfoldable pub term_constraint_of : Bytes → List Term → Bytes
unfolding eq
term_constraint_of pkg [] = codes "*"
term_constraint_of pkg (t ∷ ts) =
    let rest = term_constraint_of pkg ts in
    if not (eq t.pkg pkg) then rest else or_star t.constraint.original

unfoldable pub positive_term_constraint : Incompatibility → Bytes → Bytes
unfolding term_constraint_of
positive_term_constraint ic pkg = term_constraint_of pkg (terms ic)

-- The first term about a package with the sign.
unfoldable pub label_of : (Bool → Bool) → Bytes → List Term → Bytes
unfolding eq
label_of sign pkg [] = pkg
label_of sign pkg (t ∷ ts) =
    let rest = label_of sign pkg ts in
    if eq t.pkg pkg && sign t.positive then named_constraint t else rest

unfoldable pub depender_label : Incompatibility → Bytes → Bytes
unfolding label_of
depender_label ic depender = label_of (λ b. b) depender (terms ic)

unfoldable pub dependee_label : Incompatibility → Bytes → Bytes
unfolding label_of
dependee_label ic dependee = label_of not dependee (terms ic)

-- isLeaf, for an incompatibility that is not nil.
unfoldable pub is_leaf : Incompatibility → Bool
is_leaf ic = elim (cause ic) [ conflict a b ↦ false | _ ↦ true ]

-- The first term with the sign that is not about $root.
unfoldable pub first_signed : (Bool → Bool) → List Term → Option Term
unfolding eq
first_signed sign [] = none
first_signed sign (t ∷ ts) =
    let rest = first_signed sign ts in
    if not (eq t.pkg (codes "$root")) && sign t.positive then some t else rest

abbrev pub signed_clause : Option Term → Option Term → Bytes
signed_clause (some pos) (some neg) =
    named_constraint pos ++ (codes " requires " ++ named_constraint neg)
signed_clause none (some neg) = codes "every solution requires " ++ named_constraint neg
signed_clause (some pos) none = named_constraint pos ++ codes " is forbidden"
signed_clause none none = codes "no solution remains"

unfoldable pub derived_clause : Incompatibility → Bytes
unfolding is_failure first_signed
derived_clause ic =
    if is_failure ic
    then codes "version solving failed"
    else signed_clause (first_signed (λ b. b) (terms ic)) (first_signed not (terms ic))

unfoldable pub add_message : List Bytes → Bytes → List Bytes
unfolding is_member
add_message out msg = if is_member msg out then out else out ++ msg ∷ []

-- The walk of collectLeafCauses; `quote` stands for the verb %q of fmt.
unfoldable pub leaf_causes : (Bytes → Bytes) → Incompatibility → List Bytes → List Bytes
unfolding add_message
leaf_causes quote (incompatibility ts (conflict a b)) out =
    leaf_causes quote b (leaf_causes quote a out)
leaf_causes quote (incompatibility ts (no_versions p)) out =
    add_message out
      (codes "no published versions of " ++ (quote p ++ codes " satisfy the requested constraint"))
leaf_causes quote (incompatibility ts (unknown_package p)) out =
    add_message out
      (codes "package " ++ (quote p ++ codes " is not available from any configured registry"))
leaf_causes quote (incompatibility ts (dependency p d)) out = add_message out (
    codes "dependency clash: "
    ++ (p ++ (codes " requires " ++ (d ++ codes " but the chosen version cannot be reconciled"))))
leaf_causes quote (incompatibility ts root) out = out

unfoldable pub collect_leaf_causes : (Bytes → Bytes) → Incompatibility → List Bytes
unfolding leaf_causes
collect_leaf_causes quote ic = leaf_causes quote ic []

abbrev pub max_render_columns : ℕ
max_render_columns = 100

-- The lines of the loop of writeWrapped.
unfoldable pub wrap_words : Bytes → Bytes → List Bytes → List Bytes
wrap_words indent line [] = line ∷ []
wrap_words indent line (w ∷ ws) =
    let broken = wrap_words indent (indent ++ w) ws in
    let joined = wrap_words indent (line ++ 32 ∷ w) ws in
    if not (leb (length line + 1 + length w) max_render_columns) then line ∷ broken else joined

unfoldable pub each_on_its_own : Bytes → List Bytes → List Bytes
each_on_its_own indent [] = []
each_on_its_own indent (w ∷ ws) = (indent ++ w) ∷ each_on_its_own indent ws

unfoldable pub wrapped_fields : Bytes → List Bytes → List Bytes
unfolding wrap_words each_on_its_own
wrapped_fields indent [] = []
wrapped_fields indent (w ∷ ws) =
    if leb (max_render_columns - 10) (length indent)
    then each_on_its_own indent (w ∷ ws)
    else wrap_words indent (indent ++ w) ws

-- writeWrapped: its lines.
unfoldable pub write_wrapped : Bytes → Bytes → List Bytes
unfolding fields wrapped_fields
write_wrapped indent s = wrapped_fields indent (fields s)
