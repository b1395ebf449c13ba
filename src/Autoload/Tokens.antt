-- ===== src/Autoload/Tokens.antt =====
-- internal/autoload/phpscan.go: the tokens of phpScanner. The text that is not read yet stands for the position.
use gomposer.Prelude.{
  ℕ, Bool, true, false, not, ◌&&◌, ◌||◌, Option, none, some, [], ◌∷◌, ◌==◌, leb, if◌then◌else◌,
}
use gomposer.Prelude.Bytes.{Bytes, codes}
use gomposer.Strings.{after_prefix, trim_left, is_digit, is_empty}
use gomposer.Constraint.Version.{leading}

-- The errors of the scanner. `out_of_fuel` belongs to the model.
pub data ScanError : Type 0 where
  unterminated_comment unterminated_string empty_label unterminated_quote unterminated_heredoc :
      ScanError
  namespace_eof : ScanError
  namespace_byte : ℕ → ScanError
  out_of_fuel : ScanError

pub data Scanned {ℓ} (A : Type ℓ) : Type ℓ where
  done : A → Scanned A
  failed : ScanError → Scanned A

infixl 5 ◌>>=◌
abbrev pub ◌>>=◌ {ℓ κ} : {A : Type ℓ} {B : Type κ} → Scanned A → (A → Scanned B) → Scanned B
done a >>= f = f a
failed e >>= f = failed e

-- tokKind; an identifier has its text, and no other text is read.
pub data Token : Type 0 where
  other ws comment new lbrace rbrace semi close_tag eof : Token
  ident : Bytes → Token

abbrev pub newline : ℕ
newline = 10

unfoldable pub is_ws : ℕ → Bool
is_ws c = c == 32 || c == 9 || c == newline || c == 13

unfoldable pub is_ident_start : ℕ → Bool
is_ident_start c =
    c == b'_' || (leb b'a' c && leb c b'z') || (leb b'A' c && leb c b'Z') || leb 128 c

unfoldable pub is_ident_cont : ℕ → Bool
unfolding is_ident_start is_digit
is_ident_cont c = is_ident_start c || is_digit c

abbrev pub is_indent : ℕ → Bool
is_indent c = c == 32 || c == 9

abbrev pub is_quote : ℕ → Bool
is_quote c = c == b'\'' || c == b'"'

-- `pos < len(src) && src[pos] == c`
abbrev pub starts : ℕ → Bytes → Bool
starts c [] = false
starts c (a ∷ s) = a == c

abbrev pub tail : Bytes → Bytes
tail [] = []
tail (a ∷ s) = s

unfoldable pub skip_until_open_tag : Bytes → Bytes
unfolding after_prefix
skip_until_open_tag [] = []
skip_until_open_tag (c ∷ s) =
    let later = skip_until_open_tag s in
    elim (after_prefix (codes "<?php") (c ∷ s)) [
      | some r ↦ r
      | none ↦ elim (after_prefix (codes "<?=") (c ∷ s)) [ some r ↦ r | none ↦ later ]
    ]

-- Up to the next newline, which stays.
unfoldable pub skip_line : Bytes → Bytes
unfolding trim_left
skip_line s = trim_left (λ c. not (c == newline)) s

-- Up to the next "*/", which stays; without one, up to the last byte, which stays.
unfoldable pub to_block_end : Bytes → Bytes
to_block_end [] = []
to_block_end (a ∷ []) = a ∷ []
to_block_end (a ∷ b ∷ s) =
    let later = to_block_end (b ∷ s) in if a == b'*' && b == b'/' then a ∷ b ∷ s else later

-- skipString, behind the opening quote.
unfoldable pub skip_string : ℕ → Bytes → Scanned Bytes
skip_string q [] = failed unterminated_string
skip_string q (c ∷ []) = if c == q then done [] else failed unterminated_string
skip_string q (c ∷ d ∷ s) =
    let escaped = skip_string q s in
    let later = skip_string q (d ∷ s) in
    if c == b'\\' then escaped else if c == q then done (d ∷ s) else later

-- What follows the closing label of a heredoc, if the line begins with it.
unfoldable pub closing_label : Bytes → Bytes → Option Bytes
unfolding after_prefix trim_left is_ident_cont
closing_label label s = elim (after_prefix label (trim_left is_indent s)) [
  | none ↦ none
  | some [] ↦ some []
  | some (c ∷ r) ↦ if is_ident_cont c then none else some (c ∷ r)
]

-- The loop over the lines of a heredoc; the first argument tells whether a line begins here.
unfoldable pub heredoc_body : Bool → Bytes → Bytes → Scanned Bytes
heredoc_body begins label [] = failed unterminated_heredoc
heredoc_body begins label (c ∷ s) =
    let later = heredoc_body (c == newline) label s in
    elim (if begins then closing_label label (c ∷ s) else none) [ some r ↦ done r | none ↦ later ]

-- Behind the label: the rest of its line is skipped.
abbrev pub after_label : Bytes → Bytes → Scanned Bytes
after_label label s = heredoc_body true label (tail (skip_line s))

abbrev pub close_quote : Bool → Bytes → Bytes → Scanned Bytes
close_quote false label s = after_label label s
close_quote true label [] = failed unterminated_quote
close_quote true label (c ∷ s) =
    if is_quote c then after_label label s else failed unterminated_quote

abbrev pub heredoc_label : Bool → Bytes → Scanned Bytes
heredoc_label quoted s =
    let label = leading is_ident_cont s in
    if is_empty label
    then failed empty_label
    else close_quote quoted label (trim_left is_ident_cont s)

abbrev pub heredoc_quote : Bytes → Scanned Bytes
heredoc_quote [] = heredoc_label false []
heredoc_quote (c ∷ s) = if is_quote c then heredoc_label true s else heredoc_label false (c ∷ s)

-- skipHeredoc, behind "<<<".
unfoldable pub skip_heredoc : Bytes → Scanned Bytes
unfolding trim_left is_ident_cont leading skip_line heredoc_body closing_label is_empty
skip_heredoc s = heredoc_quote (trim_left is_indent s)

-- A comment "/* */", behind its opening.
abbrev pub end_block : Bytes → Scanned (Token × Bytes)
end_block (a ∷ b ∷ s) = done (comment, s)
end_block _ = failed unterminated_comment

abbrev pub token : Token → Scanned Bytes → Scanned (Token × Bytes)
token t (done r) = done (t, r)
token t (failed e) = failed e

abbrev pub punctuation : ℕ → Token
punctuation c =
    if c == b'{' then lbrace else if c == b'}' then rbrace else if c == b';' then semi else other

-- next, at the byte `c`.
unfoldable pub next_at : ℕ → Bytes → Scanned (Token × Bytes)
unfolding trim_left is_ws skip_line to_block_end skip_string skip_heredoc is_ident_start
    is_ident_cont leading
next_at c s =
    if is_ws c
    then done (ws, trim_left is_ws s)
    else if c == b'/' && starts b'/' s
    then done (comment, skip_line s)
    else if c == b'/' && starts b'*' s
    then end_block (to_block_end (tail s))
    else if c == b'#'
    then done (comment, skip_line s)
    else if c == b'?' && starts b'>' s
    then done (close_tag, tail s)
    else if is_quote c
    then token other (skip_string c s)
    else if c == b'<' && starts b'<' s && starts b'<' (tail s)
    then token other (skip_heredoc (tail (tail s)))
    else if is_ident_start c
    then done (ident (c ∷ leading is_ident_cont s), trim_left is_ident_cont s)
    else done (punctuation c, s)

unfoldable pub next : Bytes → Scanned (Token × Bytes)
unfolding next_at
next [] = done (eof, [])
next (c ∷ s) = next_at c s
