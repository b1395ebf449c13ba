-- ===== src/Autoload/Declarations.antt =====
-- internal/autoload/phpscan.go: what scanClasses lists.
use gomposer.Prelude.{
  ℕ, suc, ◌≤◌, length-append, true, not, ◌||◌, List, [], ◌∷◌, ◌++◌, ◌==◌, ◌≡◌, refl, ap, ◌∙◌, arith,
  length, all, All,
}
use gomposer.Prelude.Bytes.{Bytes, codes}
use gomposer.Strings.{trim_left}
use gomposer.Autoload.Tokens.{
  comment, done, ◌>>=◌, other, ident, is_ws, is_ident_start, is_quote, newline, skip_line, next_at,
}
use gomposer.Autoload.Scan.{
  qualify, ScanState, scan_start, keyword, scan_loop, scan_classes, on_keyword, enter_namespace,
}
use gomposer.Autoload.Words.{
  IsName, Stops, read_decl_name-name, scan_round, next_at-class, next_at-quoted,
}
use gomposer.Autoload.Items.{
  Item, IsItem, items_text, all_declared, rounds, items_begin, blank_skipped, rounds-le-length,
  items_listed_by,
}
use gomposer.Autoload.Namespaces.{namespace_text, qualify-part, read_namespace_name-parts}

-- A file with a namespace and the items.
abbrev pub file_text : Bytes → List Bytes → List Item → Bytes
file_text part parts items =
    codes "<?php namespace " ++ (namespace_text part parts ++ b';' ∷ newline ∷ items_text items)

namespace_entered :
    (n : ℕ) (part : Bytes) (parts : List Bytes) (items : List Item)
    → rounds items 0 ≤ n
    → IsName part
    → All IsName parts
    → All IsItem items
    → on_keyword
        (keyword (codes "namespace"))
        scan_start
        (32 ∷ (namespace_text part parts ++ b';' ∷ newline ∷ items_text items))
        (λ st r. scan_loop (suc n) st r)
      ≡ done (all_declared (namespace_text part parts) items)
unfolding keyword is_ws
namespace_entered n part parts items l h hs k =
    let ns = namespace_text part parts in
    let st : ScanState = record scan_start { ns = ns; prev_sig = ident [] } in
    ap (λ x. x >>= λ p. enter_namespace scan_start p (λ st' r. scan_loop (suc n) st' r))
      (read_namespace_name-parts part parts (newline ∷ items_text items) h hs)
    ∙ blank_skipped n st (newline ∷ []) (items_text items) (refl, refl) (items_begin items k)
    ∙ items_listed_by n st items ns l k (qualify-part part parts h) (refl, refl, refl, refl)

-- A file begins with the tag and a namespace of one name or more, and goes on with pieces, each with blanks behind it:
-- declarations of all kinds, other words that are no keyword but a modifier, quoted texts without their quote and without a
-- backslash, the words `new class`, and other bytes, such as braces, balanced or not, that begin no comment, tag, quoted text
-- or here document. From such a file scanClasses lists exactly the names that are declared, in the order of the file, each
-- behind the namespace and a backslash.
pub scan_classes-file_text :
    (part : Bytes) (parts : List Bytes) (items : List Item)
    → IsName part
    → All IsName parts
    → All IsItem items
    → scan_classes (file_text part parts items)
      ≡ done (all_declared (namespace_text part parts) items)
unfolding scan_classes
scan_classes-file_text part parts items h hs k =
    let body = namespace_text part parts ++ b';' ∷ newline ∷ items_text items in
    let n = suc (suc (suc (suc (suc (suc (suc (suc (length body)))))))) in
    let long = length-append (namespace_text part parts) (b';' ∷ newline ∷ items_text items) in
    namespace_entered n part parts items (omega (arith, rounds-le-length items k, long)) h hs k

skip_line-append :
    (line rest : Bytes)
    → all (λ c. not (c == newline)) line ≡ true
    → skip_line (line ++ newline ∷ rest) ≡ newline ∷ rest
unfolding skip_line trim_left
skip_line-append [] rest h = refl
skip_line-append (c ∷ line) rest h = ground (arith, skip_line-append line rest)

-- The keyword behind a dollar sign: a variable named `class` before another word is taken for a declaration of that
-- word, in every state.
class_variable_listed :
    (f : ℕ) (st : ScanState) (name rest : Bytes)
    → IsName name
    → Stops rest
    → scan_loop (suc (suc f)) st (codes "$class " ++ (name ++ rest))
      ≡ scan_loop f
          (record st { out = st.out ++ qualify st.ns name ∷ []; prev_sig = ident [] })
          rest
unfolding keyword next_at is_ws is_ident_start
class_variable_listed f st [] rest h k = absurd h
class_variable_listed f st (c ∷ w) rest (h, l) k =
    scan_round (suc f) st b'$' (codes "class " ++ (c ∷ w) ++ rest)
      (codes "class " ++ (c ∷ w) ++ rest) other refl
    ∙ scan_round f (record st { prev_sig = other }) b'c' (codes "lass " ++ (c ∷ w) ++ rest)
        (32 ∷ c ∷ (w ++ rest)) (ident (codes "class")) (next_at-class (c ∷ (w ++ rest)))
    ∙ simp (read_decl_name-name c w rest h l k) refl

-- Whatever stands behind a hash sign on its line is skipped, so also a class behind an attribute.
pub hash_line_skipped :
    (f : ℕ) (st : ScanState) (line rest : Bytes)
    → all (λ c. not (c == newline)) line ≡ true
    → scan_loop (suc f) st (b'#' ∷ (line ++ newline ∷ rest)) ≡ scan_loop f st (newline ∷ rest)
unfolding next_at is_ws is_ident_start skip_line
hash_line_skipped f st line rest h =
    scan_round f st b'#' (line ++ newline ∷ rest) (skip_line (line ++ newline ∷ rest)) comment refl
    ∙ ap (scan_loop f st) (skip_line-append line rest h)

-- A quoted text without its quote and without a backslash lists nothing.
pub quoted_skipped :
    (f : ℕ) (st : ScanState) (q : ℕ) (text rest : Bytes)
    → is_quote q ≡ true
    → all (λ c. not (c == q || c == b'\\')) text ≡ true
    → scan_loop (suc f) st (q ∷ (text ++ q ∷ rest))
      ≡ scan_loop f (record st { prev_sig = other }) rest
quoted_skipped f st q text rest h k =
    scan_round f st q (text ++ q ∷ rest) rest other (next_at-quoted q text rest h k)
