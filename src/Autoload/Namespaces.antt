-- ===== src/Autoload/Namespaces.antt =====
-- internal/autoload/phpscan.go: how readNamespaceName reads a namespace.
use mathlib.Core.List.{append_assoc}
use gomposer.Prelude.{
  ℕ, zero, suc, ◌<◌, length-append, true, false, List, [], ◌∷◌, ◌++◌, ◌≡◌, refl, ap, ◌∙◌, arith,
  length, all, All,
}
use gomposer.Prelude.Bytes.{Bytes}
use gomposer.Strings.{is_digit}
use gomposer.Autoload.Tokens.{done, ◌>>=◌, is_ws, is_ident_start, is_ident_cont}
use gomposer.Autoload.Scan.{
  skip_ws_and_comments, significant, join_namespace, read_namespace, read_namespace_name, qualify,
}
use gomposer.Autoload.Words.{
  IsName, leading-name, trim_left-name, significant_name, significant-space,
}
use gomposer.Autoload.Items.{Qualifies}

-- A namespace of one name or more.
abbrev pub namespace_text : Bytes → List Bytes → Bytes
namespace_text part [] = part
namespace_text part (p ∷ parts) = part ++ b'\\' ∷ namespace_text p parts

pub qualify-part :
    (part : Bytes) (parts : List Bytes) → IsName part → Qualifies (namespace_text part parts)
unfolding qualify
qualify-part [] parts h name = absurd h
qualify-part (c ∷ w) [] h name = refl
qualify-part (c ∷ w) (p ∷ parts) h name = refl

-- A round on a part, before a byte that stands for itself.
part_read :
    (f : ℕ) (parts : List Bytes) (c d : ℕ) (w r : Bytes)
    → is_ident_start c ≡ true
    → all is_ident_cont w ≡ true
    → is_ident_cont d ≡ false
    → significant (d ∷ r) ≡ done (d ∷ r)
    → read_namespace (suc f) parts (c ∷ (w ++ d ∷ r))
      ≡ read_namespace f (parts ++ (c ∷ w) ∷ []) (d ∷ r)
unfolding read_namespace is_ident_start
part_read f parts c d w r h k l e =
    rw (read_namespace, trim_left-name w (d ∷ r) k l, e, leading-name w (d ∷ r) k l) (ground arith)

namespace_significant :
    (c : ℕ) (w : Bytes) (parts : List Bytes) (r : Bytes)
    → is_ident_start c ≡ true
    → significant (namespace_text (c ∷ w) parts ++ r) ≡ done (namespace_text (c ∷ w) parts ++ r)
namespace_significant c w [] r h = significant_name (length (w ++ r)) c (w ++ r) h
namespace_significant c w (p ∷ parts) r h =
    let s = (w ++ b'\\' ∷ namespace_text p parts) ++ r in significant_name (length s) c s h

separator_read :
    (f : ℕ) (before : List Bytes) (r : Bytes)
    → significant r ≡ done r
    → read_namespace (suc f) before (b'\\' ∷ r) ≡ read_namespace f before r
unfolding read_namespace
separator_read f before r e = rw (read_namespace, e) refl

read_namespace-parts :
    (f : ℕ) (before : List Bytes) (part : Bytes) (parts : List Bytes) (rest : Bytes)
    → length (namespace_text part parts) < f
    → IsName part
    → All IsName parts
    → read_namespace f before (namespace_text part parts ++ b';' ∷ rest)
      ≡ done (join_namespace (before ++ part ∷ parts), false, rest)
unfolding read_namespace is_ident_start is_ident_cont is_digit skip_ws_and_comments is_ws
read_namespace-parts f before [] parts rest l h hs = absurd h
read_namespace-parts zero before (c ∷ w) parts rest l h hs = ground (arith, l)
read_namespace-parts (suc zero) before (c ∷ w) [] rest l h hs = ground (arith, l)
read_namespace-parts (suc (suc f)) before (c ∷ w) [] rest l (h, k) hs =
    part_read (suc f) before c b';' w rest h k refl refl
read_namespace-parts (suc zero) before (c ∷ w) (p ∷ parts) rest l h hs = ground (arith, l)
read_namespace-parts (suc (suc f)) before (c ∷ w) ([] ∷ parts) rest l h hs = absurd hs.0
read_namespace-parts (suc (suc f)) before (c ∷ w) ((d ∷ v) ∷ parts) rest l (h, k) ((m, m'), hs) =
    let later = namespace_text (d ∷ v) parts in
    let long = length-append w (b'\\' ∷ later) in
    ap (λ x. read_namespace (suc (suc f)) before (c ∷ x))
      (append_assoc w (b'\\' ∷ later) (b';' ∷ rest))
    ∙ part_read (suc f) before c b'\\' w (later ++ b';' ∷ rest) h k refl refl
    ∙ separator_read f (before ++ (c ∷ w) ∷ []) (later ++ b';' ∷ rest)
        (namespace_significant d v parts (b';' ∷ rest) m)
    ∙ read_namespace-parts f (before ++ (c ∷ w) ∷ []) (d ∷ v) parts rest (omega (arith, l, long))
        (m, m') hs
    ∙ ap (λ x. done (join_namespace x, false, rest))
        (append_assoc before ((c ∷ w) ∷ []) ((d ∷ v) ∷ parts))

join_namespace-part :
    (part : Bytes) (parts : List Bytes) → join_namespace (part ∷ parts) ≡ namespace_text part parts
unfolding join_namespace
join_namespace-part part [] = refl
join_namespace-part part (p ∷ parts) = ap (λ x. part ++ b'\\' ∷ x) (join_namespace-part p parts)

blank_before_name :
    (c : ℕ) (w : Bytes) (parts : List Bytes) (r : Bytes)
    → is_ident_start c ≡ true
    → significant (32 ∷ (namespace_text (c ∷ w) parts ++ r))
      ≡ done (namespace_text (c ∷ w) parts ++ r)
blank_before_name c w [] r h = significant-space c (w ++ r) h
blank_before_name c w (p ∷ parts) r h =
    significant-space c ((w ++ b'\\' ∷ namespace_text p parts) ++ r) h

-- The namespace behind a blank is read up to its semicolon.
pub read_namespace_name-parts :
    (part : Bytes) (parts : List Bytes) (rest : Bytes)
    → IsName part
    → All IsName parts
    → read_namespace_name (32 ∷ (namespace_text part parts ++ b';' ∷ rest))
      ≡ done (namespace_text part parts, false, rest)
unfolding skip_ws_and_comments is_ws
read_namespace_name-parts [] parts rest h hs = absurd h
read_namespace_name-parts (c ∷ w) parts rest (h, k) hs =
    let s = namespace_text (c ∷ w) parts ++ b';' ∷ rest in
    let fuel = length (32 ∷ s) in
    let long = length-append (namespace_text (c ∷ w) parts) (b';' ∷ rest) in
    ap (λ x. x >>= λ r. read_namespace fuel [] r) (blank_before_name c w parts (b';' ∷ rest) h)
    ∙ read_namespace-parts fuel [] (c ∷ w) parts rest (omega (arith, long)) (h, k) hs
    ∙ ap (λ x. done (x, false, rest)) (join_namespace-part (c ∷ w) parts)
