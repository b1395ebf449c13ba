-- ===== src/Scripts/Quote.antt =====
-- internal/scripts/exec.go: the quoting of arguments for sh and of strings for PHP.
use gomposer.Prelude.{
  ℕ, ◌||◌, Option, none, some, List, [], ◌∷◌, ◌++◌, ◌==◌, ◌≡◌, refl, ap, sym, arith, Bool-cases,
  ==_iff, inl, inr, if◌then◌else◌,
}
use gomposer.Prelude.Bytes.{Bytes, codes}

-- strings.ReplaceAll(s, c, t) for a single byte
unfoldable pub replace_all : ℕ → Bytes → Bytes → Bytes
replace_all c t [] = []
replace_all c t (a ∷ s) = (if a == c then t else a ∷ []) ++ replace_all c t s

unfoldable pub posix_single_quote : Bytes → Bytes
unfolding replace_all
posix_single_quote s = b'\'' ∷ (replace_all b'\'' (codes "'\"'\"'") s ++ b'\'' ∷ [])

-- appendArgs
unfoldable pub append_args : Bytes → List Bytes → Bytes
append_args body [] = body
append_args body (a ∷ args) = append_args (body ++ 32 ∷ posix_single_quote a) args

unfoldable pub escape_php_string : Bytes → Bytes
unfolding replace_all
escape_php_string s = replace_all b'\'' (codes "\\'") (replace_all b'\\' (codes "\\\\") s)

pub data Mode : Type 0 where
  bare single double : Mode

abbrev prepend : ℕ → Option Bytes → Option Bytes
prepend c none = none
prepend c (some s) = some (c ∷ s)

-- How sh reads a word of quoted parts: within single quotes each byte stands for itself, and within double quotes
-- each but a backslash, a dollar sign and a backquote. Words with other parts are left aside.
unfoldable pub read_word : Mode → Bytes → Option Bytes
read_word bare [] = some []
read_word single [] = none
read_word double [] = none
read_word bare (c ∷ s) =
    let in_single = read_word single s in
    let in_double = read_word double s in
    if c == b'\'' then in_single else if c == b'"' then in_double else none
read_word single (c ∷ s) =
    let out = read_word bare s in
    let on = read_word single s in if c == b'\'' then out else prepend c on
read_word double (c ∷ s) =
    let out = read_word bare s in
    let on = read_word double s in
    if c == b'"' then out else if c == b'\\' || c == b'$' || c == b'`' then none else prepend c on

read_single-replace :
    (s : Bytes) → read_word single (replace_all b'\'' (codes "'\"'\"'") s ++ b'\'' ∷ []) ≡ some s
unfolding read_word replace_all
read_single-replace [] = refl
read_single-replace (c ∷ s) = elim (Bool-cases (c == b'\'')) [
  | inl e ↦ rw (e, read_single-replace s) (ap (λ d. some (d ∷ s)) (sym ((==_iff c b'\'').0 e)))
  | inr e ↦ rw (e, read_word, e, read_single-replace s) refl
]

-- sh reads a quoted argument as its bytes, whatever they are.
pub read_word-posix_single_quote : (s : Bytes) → read_word bare (posix_single_quote s) ≡ some s
unfolding read_word posix_single_quote
read_word-posix_single_quote s = read_single-replace s

-- How PHP reads a text between single quotes: a backslash hides a quote or a backslash, and stands for itself
-- before another byte; `none` where a quote ends the text.
unfoldable pub read_php : Bytes → Option Bytes
read_php [] = some []
read_php (c ∷ []) = if c == b'\'' || c == b'\\' then none else some (c ∷ [])
read_php (c ∷ d ∷ s) =
    let hidden = read_php s in
    let next = read_php (d ∷ s) in
    if c == b'\''
    then none
    else if c == b'\\'
    then (if d == b'\'' || d == b'\\' then prepend d hidden else prepend c next)
    else prepend c next

-- One byte after both replacements.
abbrev hidden : ℕ → Bytes
hidden c = if c == b'\\' then codes "\\\\" else if c == b'\'' then codes "\\'" else c ∷ []

hidden_all : Bytes → Bytes
hidden_all [] = []
hidden_all (c ∷ s) = hidden c ++ hidden_all s

escape-hidden : (s : Bytes) → escape_php_string s ≡ hidden_all s
unfolding escape_php_string replace_all hidden_all
escape-hidden [] = refl
escape-hidden (c ∷ s) = ground (arith, escape-hidden s)

read_php-hidden : (s : Bytes) → read_php (hidden_all s) ≡ some s
unfolding read_php hidden_all
read_php-hidden [] = refl
read_php-hidden (c ∷ []) = ground arith
read_php-hidden (c ∷ d ∷ s) = ground (arith, read_php-hidden (d ∷ s))

-- PHP reads an escaped string as its bytes.
pub read_php-escape_php_string : (s : Bytes) → read_php (escape_php_string s) ≡ some s
read_php-escape_php_string s = rw (escape-hidden s) (read_php-hidden s)
