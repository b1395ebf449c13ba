-- ===== src/Autoload/Advance.antt =====
-- internal/autoload/phpscan.go: each token takes a part of the text.
use gomposer.Prelude.{
  ℕ, suc, ◌≤◌, Bool, true, false, none, some, [], ◌∷◌, ◌==◌, ◌≡◌, arith, length, if◌then◌else◌,
  Bool-cases, Option-cases, inl, inr,
}
use gomposer.Prelude.Bytes.{Bytes, codes}
use gomposer.Strings.{after_prefix, trim_left, is_empty}
use gomposer.Constraint.Version.{leading}
use gomposer.Autoload.Tokens.{
  ScanError, out_of_fuel, Scanned, done, failed, Token, other, is_ws, is_ident_cont, is_indent,
  is_quote, newline, tail, skip_until_open_tag, skip_line, to_block_end, skip_string, closing_label,
  heredoc_body, after_label, close_quote, heredoc_label, heredoc_quote, skip_heredoc, end_block,
  token, next_at,
}

abbrev pub IsReal : ScanError → Type 0
IsReal out_of_fuel = ⊥
IsReal _ = Unit

-- The result leaves at most so many bytes to read, or is an error of the source.
abbrev pub Within : ℕ → Scanned Bytes → Type 0
Within n (done r) = length r ≤ n
Within n (failed e) = IsReal e

abbrev pub TokenWithin : ℕ → Scanned (Token × Bytes) → Type 0
TokenWithin n (done (t, r)) = length r ≤ n
TokenWithin n (failed e) = IsReal e

pub Within-mono : (m n : ℕ) (r : Scanned Bytes) → m ≤ n → Within m r → Within n r
Within-mono m n (done r) h k = omega arith
Within-mono m n (failed e) h k = k

pub length-trim_left : (p : ℕ → Bool) (s : Bytes) → length (trim_left p s) ≤ length s
unfolding trim_left
length-trim_left p [] = omega arith
length-trim_left p (c ∷ s) = ground (arith, length-trim_left p s)

pub length-tail : (s : Bytes) → length (tail s) ≤ length s
length-tail [] = omega arith
length-tail (c ∷ s) = omega arith

pub length-skip_line : (s : Bytes) → length (skip_line s) ≤ length s
unfolding skip_line
length-skip_line s = length-trim_left _ s

pub length-to_block_end : (s : Bytes) → length (to_block_end s) ≤ length s
unfolding to_block_end
length-to_block_end [] = omega arith
length-to_block_end (a ∷ []) = omega arith
length-to_block_end (a ∷ b ∷ s) = ground (arith, length-to_block_end (b ∷ s))

pub length-after_prefix : (p s r : Bytes) → after_prefix p s ≡ some r → length r ≤ length s
unfolding after_prefix
length-after_prefix [] s r h = ground arith
length-after_prefix (c ∷ p) [] r h = ground arith
length-after_prefix (c ∷ p) (a ∷ s) r h = ground (arith, length-after_prefix p s r)

pub length-skip_until_open_tag : (s : Bytes) → length (skip_until_open_tag s) ≤ length s
unfolding skip_until_open_tag
length-skip_until_open_tag [] = omega arith
length-skip_until_open_tag (c ∷ s) = elim (Option-cases (after_prefix (codes "<?php") (c ∷ s))) [
  | inl e ↦ elim (Option-cases (after_prefix (codes "<?=") (c ∷ s))) [
    | inl e' ↦ rw (e, e', skip_until_open_tag) (omega (arith, length-skip_until_open_tag s))
    | inr (r, e') ↦ rw (e, e', skip_until_open_tag) (length-after_prefix (codes "<?=") (c ∷ s) r e')
  ]
  | inr (r, e) ↦ rw (e, skip_until_open_tag) (length-after_prefix (codes "<?php") (c ∷ s) r e)
]

pub skip_string-Within : (q : ℕ) (s : Bytes) → Within (length s) (skip_string q s)
unfolding skip_string
skip_string-Within q [] = tt
skip_string-Within q (c ∷ []) = ground arith
skip_string-Within q (c ∷ d ∷ s) = ground (
  arith,
  Within-mono (length s) (suc (suc (length s))) (skip_string q s) (omega arith)
      (skip_string-Within q s),
  Within-mono (suc (length s)) (suc (suc (length s))) (skip_string q (d ∷ s)) (omega arith)
      (skip_string-Within q (d ∷ s)),
)

pub closing_label-length :
    (label s r : Bytes) → closing_label label s ≡ some r → length r ≤ length s
unfolding closing_label
closing_label-length label s r h =
    elim (Option-cases (after_prefix label (trim_left is_indent s))) [
      | inl e ↦ absurd (ground arith)
      | inr ([], e) ↦ ground arith
      | inr (c ∷ t, e) ↦ ground (
        arith,
        length-after_prefix label (trim_left is_indent s) (c ∷ t) e,
        length-trim_left is_indent s,
      )
    ]

pub heredoc_body-Within :
    (begins : Bool) (label s : Bytes) → Within (length s) (heredoc_body begins label s)
unfolding heredoc_body
heredoc_body-Within begins label [] = tt
heredoc_body-Within begins label (c ∷ s) =
    let ih =
      Within-mono (length s) (suc (length s)) (heredoc_body (c == newline) label s) (omega arith)
        (heredoc_body-Within (c == newline) label s) in
    elim (Option-cases (if begins then closing_label label (c ∷ s) else none)) [
      | inl e ↦ rw (e, heredoc_body) ih
      | inr (r, e) ↦ rw (e, heredoc_body) (ground (arith, closing_label-length label (c ∷ s) r))
    ]

pub after_label-Within : (label s : Bytes) → Within (length s) (after_label label s)
after_label-Within label s =
    Within-mono (length (tail (skip_line s))) (length s) (after_label label s)
      (omega (arith, length-tail (skip_line s), length-skip_line s))
      (heredoc_body-Within true label (tail (skip_line s)))

pub close_quote-Within :
    (quoted : Bool) (label s : Bytes) → Within (length s) (close_quote quoted label s)
close_quote-Within false label s = after_label-Within label s
close_quote-Within true label [] = tt
close_quote-Within true label (c ∷ s) = ground (
  arith,
  Within-mono (length s) (suc (length s)) (after_label label s) (omega arith)
      (after_label-Within label s),
)

pub heredoc_label-Within : (quoted : Bool) (s : Bytes) → Within (length s) (heredoc_label quoted s)
heredoc_label-Within quoted s =
    let k =
      Within-mono (length (trim_left is_ident_cont s)) (length s)
        (close_quote quoted (leading is_ident_cont s) (trim_left is_ident_cont s))
        (length-trim_left is_ident_cont s)
        (close_quote-Within quoted (leading is_ident_cont s) (trim_left is_ident_cont s)) in
    elim (Bool-cases (is_empty (leading is_ident_cont s))) [ inl e ↦ rw e tt | inr e ↦ rw e k ]

pub heredoc_quote-Within : (s : Bytes) → Within (length s) (heredoc_quote s)
heredoc_quote-Within [] = heredoc_label-Within false []
heredoc_quote-Within (c ∷ s) = elim (Bool-cases (is_quote c)) [
  | inl e ↦ rw e (
      Within-mono (length s) (suc (length s)) (heredoc_label true s) (omega arith)
        (heredoc_label-Within true s))
  | inr e ↦ rw e (heredoc_label-Within false (c ∷ s))
]

pub skip_heredoc-Within : (s : Bytes) → Within (length s) (skip_heredoc s)
skip_heredoc-Within s =
    unfold skip_heredoc in
    Within-mono (length (trim_left is_indent s)) (length s) (heredoc_quote (trim_left is_indent s))
      (length-trim_left is_indent s) (heredoc_quote-Within (trim_left is_indent s))

pub end_block-Within : (n : ℕ) (s : Bytes) → length s ≤ n → TokenWithin n (end_block s)
end_block-Within n [] h = tt
end_block-Within n (a ∷ []) h = tt
end_block-Within n (a ∷ b ∷ s) h = omega arith

pub token-Within : (n : ℕ) (t : Token) (r : Scanned Bytes) → Within n r → TokenWithin n (token t r)
token-Within n t (done r) h = h
token-Within n t (failed e) h = h

-- A token takes one byte at least.
pub next_at-Within : (c : ℕ) (s : Bytes) → TokenWithin (length s) (next_at c s)
unfolding next_at
next_at-Within c s =
    let n = length s in
    let t = length-tail s in
    ground (
      arith,
      length-trim_left is_ws s,
      length-skip_line s,
      length-trim_left is_ident_cont s,
      end_block-Within n (to_block_end (tail s)) (omega (arith, length-to_block_end (tail s))),
      token-Within n other (skip_string c s) (skip_string-Within c s),
      token-Within n other (skip_heredoc (tail (tail s))) (
          Within-mono (length (tail (tail s))) n (skip_heredoc (tail (tail s)))
            (omega (arith, length-tail (tail s))) (skip_heredoc-Within (tail (tail s)))),
    )
