-- ===== src/Autoload/Words.antt =====
-- internal/autoload/phpscan.go: how the scanner reads identifiers and declared names.
use gomposer.Prelude.{
  not, ◌||◌, ◌==◌, ℕ, suc, true, false, some, [], ◌∷◌, ◌++◌, ◌≡◌, refl, arith, length, all,
}
use gomposer.Prelude.Bytes.{Bytes, codes}
use gomposer.Strings.{trim_left, is_digit}
use gomposer.Constraint.Version.{leading}
use gomposer.Autoload.Tokens.{
  is_quote, skip_string, done, Token, other, ident, is_ws, is_ident_start, is_ident_cont, next_at,
  next, lbrace, rbrace,
}
use gomposer.Autoload.Scan.{
  skip_ws_and_comments, significant, read_decl_name, ScanState, scan_loop, on_token,
}

-- An identifier.
abbrev pub IsName : Bytes → Type 0
IsName [] = ⊥
IsName (c ∷ w) = (is_ident_start c ≡ true) × (all is_ident_cont w ≡ true)

abbrev pub Stops : Bytes → Type 0
Stops [] = Unit
Stops (c ∷ s) = is_ident_cont c ≡ false

pub leading-name :
    (w r : Bytes) → all is_ident_cont w ≡ true → Stops r → leading is_ident_cont (w ++ r) ≡ w
unfolding leading
leading-name [] [] h k = refl
leading-name [] (c ∷ r) h k = ground arith
leading-name (a ∷ w) r h k = ground (arith, leading-name w r)

pub trim_left-name :
    (w r : Bytes) → all is_ident_cont w ≡ true → Stops r → trim_left is_ident_cont (w ++ r) ≡ r
unfolding trim_left
trim_left-name [] [] h k = refl
trim_left-name [] (c ∷ r) h k = ground arith
trim_left-name (a ∷ w) r h k = ground (arith, trim_left-name w r)

-- An identifier begins with no byte that means something else.
pub next_at-ident :
    (c : ℕ) (s : Bytes)
    → is_ident_start c ≡ true
    → next_at c s ≡ done (ident (c ∷ leading is_ident_cont s), trim_left is_ident_cont s)
unfolding next_at is_ident_start is_ws
next_at-ident c s h = ground arith

pub next_at-name :
    (c : ℕ) (w r : Bytes)
    → is_ident_start c ≡ true
    → all is_ident_cont w ≡ true
    → Stops r
    → next_at c (w ++ r) ≡ done (ident (c ∷ w), r)
next_at-name c w r h k l =
    rw (next_at-ident c (w ++ r) h, leading-name w r k l, trim_left-name w r k l)

pub significant_name :
    (f c : ℕ) (s : Bytes)
    → is_ident_start c ≡ true
    → skip_ws_and_comments (suc f) (c ∷ s) ≡ done (c ∷ s)
unfolding skip_ws_and_comments is_ident_start is_ws
significant_name f c s h = ground arith

pub significant-space :
    (c : ℕ) (s : Bytes) → is_ident_start c ≡ true → significant (32 ∷ c ∷ s) ≡ done (c ∷ s)
unfolding skip_ws_and_comments is_ws
significant-space c s h = significant_name (length s) c s h

pub read_decl_name-name :
    (c : ℕ) (w r : Bytes)
    → is_ident_start c ≡ true
    → all is_ident_cont w ≡ true
    → Stops r
    → read_decl_name (32 ∷ c ∷ (w ++ r)) ≡ done (some (c ∷ w), r)
unfolding read_decl_name
read_decl_name-name c w r h k l =
    rw (significant-space c (w ++ r) h, h, leading-name w r k l, trim_left-name w r k l)

-- One round, on a token that is known.
pub scan_round :
    (f : ℕ) (st : ScanState) (c : ℕ) (s r : Bytes) (t : Token)
    → next_at c s ≡ done (t, r)
    → scan_loop (suc f) st (c ∷ s) ≡ on_token st t r (λ st' r'. scan_loop f st' r')
unfolding scan_loop next
scan_round f st c s r t h = rw h

pub next_at-lbrace : (s : Bytes) → next_at b'{' s ≡ done (lbrace, s)
unfolding next_at is_ws is_ident_start
next_at-lbrace s = refl

pub next_at-rbrace : (s : Bytes) → next_at b'}' s ≡ done (rbrace, s)
unfolding next_at is_ws is_ident_start
next_at-rbrace s = refl

skip_string-append :
    (q : ℕ) (text rest : Bytes)
    → is_quote q ≡ true
    → all (λ c. not (c == q || c == b'\\')) text ≡ true
    → skip_string q (text ++ q ∷ rest) ≡ done rest
unfolding skip_string
skip_string-append q [] [] h k = ground arith
skip_string-append q [] (d ∷ rest) h k = ground arith
skip_string-append q (c ∷ []) rest h k = ground (arith, skip_string-append q [] rest)
skip_string-append q (c ∷ d ∷ text) rest h k = ground (arith, skip_string-append q (d ∷ text) rest)

pub next_at-quoted :
    (q : ℕ) (text rest : Bytes)
    → is_quote q ≡ true
    → all (λ c. not (c == q || c == b'\\')) text ≡ true
    → next_at q (text ++ q ∷ rest) ≡ done (other, rest)
unfolding next_at is_ws
next_at-quoted q text rest h k = ground (arith, skip_string-append q text rest)

pub next_at-class :
    (s : Bytes) → next_at b'c' (codes "lass" ++ 32 ∷ s) ≡ done (ident (codes "class"), 32 ∷ s)
unfolding is_ident_start is_ident_cont is_digit
next_at-class s = next_at-name b'c' (codes "lass") (32 ∷ s) refl refl refl
