-- ===== src/Autoload/Pieces.antt =====
-- internal/autoload/phpscan.go: the pieces of a file, and what a round of scanClasses does on each.
use mathlib.Core.List.{append_assoc, append-nil}
use gomposer.Prelude.{
  ℕ, suc, ◌+◌, ◌≤◌, Bool, true, false, not, ◌||◌, List, [], ◌∷◌, ◌++◌, ◌==◌, ◌≡◌, ◌⊎◌, inl, inr,
  refl, sym, ap, ◌∙◌, arith, length, length-append, all,
}
use gomposer.Prelude.Int.{int_inc}
use gomposer.Prelude.Bytes.{Bytes, codes}
use gomposer.Strings.{trim_left, is_digit}
use gomposer.Autoload.Tokens.{
  done, Token, other, ws, new, lbrace, rbrace, semi, ident, is_ws, is_ident_start, is_ident_cont,
  is_quote, punctuation, next_at,
}
use gomposer.Autoload.Scan.{
  qualify, ScanState, Rounds, keyword, modifier, declaration, no_keyword, scan_loop, is_new,
  on_token,
}
use gomposer.Autoload.Words.{
  IsName, Stops, next_at-name, read_decl_name-name, scan_round, next_at-quoted,
}

-- A word, another byte, a quoted text, a declaration, and `new class`.
pub data Piece : Type 0 where
  word : Bytes → Piece
  mark : ℕ → Piece
  quotation : ℕ → Bytes → Piece
  declared : Bytes → Bytes → Piece
  anonymous : Piece

abbrev pub piece_text : Piece → Bytes
piece_text (word w) = w
piece_text (mark c) = c ∷ []
piece_text (quotation q text) = q ∷ (text ++ q ∷ [])
piece_text (declared kind name) = kind ++ 32 ∷ name
piece_text anonymous = codes "new class"

-- The byte is neither blank nor that of a word, and begins no quotation, comment, tag or here document.
abbrev pub is_mark : ℕ → Bool
is_mark c =
    not (
      is_ws c || is_ident_start c || is_quote c || c == b'/' || c == b'#' || c == b'?' || c == b'<')

abbrev pub IsPiece : Piece → Type 0
IsPiece (word w) = IsName w × ((keyword w ≡ no_keyword) ⊎ (keyword w ≡ modifier))
IsPiece (mark c) = is_mark c ≡ true
IsPiece (quotation q text) =
    (is_quote q ≡ true) × (all (λ c. not (c == q || c == b'\\')) text ≡ true)
IsPiece (declared kind name) = IsName kind × (keyword kind ≡ declaration) × IsName name
IsPiece anonymous = Unit

-- What is declared under the namespace.
abbrev pub declares : Bytes → Piece → List Bytes
declares ns (declared kind name) = (ns ++ b'\\' ∷ name) ∷ []
declares ns _ = []

-- The scanner stands outside of a bracketed namespace, with these classes, and not behind `new`.
abbrev pub IsAt : Bytes → List Bytes → ScanState → Type 0
IsAt ns out st = (st.ns ≡ ns) × (st.out ≡ out) × (is_new st.prev_sig ≡ false) × (st.outer ≡ [])

abbrev pub spent : Piece → ℕ → ℕ
spent anonymous f = suc (suc (suc f))
spent _ f = suc f

-- The rounds lead to a state that stands behind the piece.
abbrev pub Leads : ℕ → ScanState → Bytes → ℕ → Bytes → Bytes → List Bytes → Type 0
Leads f st s f' s' ns out =
    (st' : ScanState) × IsAt ns out st' × (scan_loop f st s ≡ scan_loop f' st' s')

pub Stops-blank : (b : ℕ) (r : Bytes) → is_ws b ≡ true → Stops (b ∷ r)
unfolding is_ws is_ident_cont is_ident_start is_digit
Stops-blank b r h = ground arith

next_at-mark : (c : ℕ) (s : Bytes) → is_mark c ≡ true → next_at c s ≡ done (punctuation c, s)
unfolding next_at
next_at-mark c s h = ground arith

mark-IsAt :
    (ns : Bytes) (out : List Bytes) (st : ScanState) (t : Token) (r : Bytes) (later : Rounds)
    → (t ≡ lbrace) ⊎ ((t ≡ rbrace) ⊎ ((t ≡ semi) ⊎ (t ≡ other)))
    → IsAt ns out st
    → (st' : ScanState) × IsAt ns out st' × (on_token st t r later ≡ later st' r)
mark-IsAt ns out st t r later (inl e) (n, o, p, u) =
    rw e (record st { depth = int_inc st.depth; prev_sig = other }, (n, o, refl, u), refl)
mark-IsAt ns out st t r later (inr (inl e)) (n, o, p, u) = rw e (
  record st { depth = gomposer.Prelude.Int.int_dec st.depth; prev_sig = other },
  (n, o, refl, u),
  simp u refl,
)
mark-IsAt ns out st t r later (inr (inr (inl e))) (n, o, p, u) =
    rw e (record st { prev_sig = semi }, (n, o, refl, u), refl)
mark-IsAt ns out st t r later (inr (inr (inr e))) (n, o, p, u) =
    rw e (record st { prev_sig = other }, (n, o, refl, u), refl)

punctuation_cases :
    (c : ℕ)
    → (punctuation c ≡ lbrace)
      ⊎ ((punctuation c ≡ rbrace) ⊎ ((punctuation c ≡ semi) ⊎ (punctuation c ≡ other)))
punctuation_cases c = ground arith

word-Leads :
    (f : ℕ) (st : ScanState) (w r : Bytes) (ns : Bytes) (out : List Bytes)
    → IsName w
    → (keyword w ≡ no_keyword) ⊎ (keyword w ≡ modifier)
    → Stops r
    → IsAt ns out st
    → Leads (suc f) st (w ++ r) f r ns out
word-Leads f st [] r ns out h k l a = absurd h
word-Leads f st (c ∷ w) r ns out (h, h') (inl k) l (n, o, p, u) = (
  record st { prev_sig = ident [] },
  (n, o, refl, u),
  scan_round f st c (w ++ r) r (ident (c ∷ w)) (next_at-name c w r h h' l) ∙ simp k refl,
)
word-Leads f st (c ∷ w) r ns out (h, h') (inr k) l (n, o, p, u) = (
  record st { prev_sig = ident [] },
  (n, o, refl, u),
  scan_round f st c (w ++ r) r (ident (c ∷ w)) (next_at-name c w r h h' l) ∙ simp k refl,
)

declared-Leads :
    (f : ℕ) (st : ScanState) (kind name r : Bytes) (ns : Bytes) (out : List Bytes)
    → IsName kind
    → keyword kind ≡ declaration
    → IsName name
    → Stops r
    → qualify ns name ≡ ns ++ b'\\' ∷ name
    → IsAt ns out st
    → Leads (suc f) st (kind ++ 32 ∷ (name ++ r)) f r ns (out ++ (ns ++ b'\\' ∷ name) ∷ [])
unfolding is_ws
declared-Leads f st [] name r ns out h k m l q a = absurd h
declared-Leads f st (c ∷ w) [] r ns out h k m l q a = absurd m
declared-Leads f st (c ∷ w) (d ∷ v) r ns out (h, h') k (m, m') l q (n, o, p, u) = (
  record st { out = st.out ++ qualify st.ns (d ∷ v) ∷ []; prev_sig = ident [] },
  (n, rw (n, o, q) refl, refl, u),
  scan_round f st c (w ++ 32 ∷ (d ∷ (v ++ r))) (32 ∷ d ∷ (v ++ r)) (ident (c ∷ w))
        (next_at-name c w (32 ∷ d ∷ (v ++ r)) h h' (Stops-blank 32 (d ∷ (v ++ r)) refl))
      ∙ simp (k, p, read_decl_name-name d v r m m' l) refl,
)

quotation-Leads :
    (f : ℕ) (st : ScanState) (q : ℕ) (text r : Bytes) (ns : Bytes) (out : List Bytes)
    → is_quote q ≡ true
    → all (λ c. not (c == q || c == b'\\')) text ≡ true
    → IsAt ns out st
    → Leads (suc f) st (q ∷ (text ++ q ∷ r)) f r ns out
quotation-Leads f st q text r ns out h k (n, o, p, u) = (
  record st { prev_sig = other },
  (n, o, refl, u),
  scan_round f st q (text ++ q ∷ r) r other (next_at-quoted q text r h k),
)

mark-Leads :
    (f : ℕ) (st : ScanState) (c : ℕ) (r : Bytes) (ns : Bytes) (out : List Bytes)
    → is_mark c ≡ true
    → IsAt ns out st
    → Leads (suc f) st (c ∷ r) f r ns out
mark-Leads f st c r ns out h a =
    let (st', a', e) =
      mark-IsAt ns out st (punctuation c) r (λ st' r'. scan_loop f st' r') (punctuation_cases c)
        a in
    (st', a', scan_round f st c r r (punctuation c) (next_at-mark c r h) ∙ e)

anonymous-Leads :
    (f : ℕ) (st : ScanState) (r : Bytes) (ns : Bytes) (out : List Bytes)
    → Stops r
    → IsAt ns out st
    → Leads (suc (suc (suc f))) st (codes "new class" ++ r) f r ns out
unfolding keyword is_ident_cont is_ident_start is_digit next_at is_ws trim_left
anonymous-Leads f st r ns out l (n, o, p, u) = (
  record st { prev_sig = ident [] },
  (n, o, refl, u),
  scan_round (suc (suc f)) st b'n' (codes "ew" ++ 32 ∷ (codes "class" ++ r))
        (32 ∷ (codes "class" ++ r)) (ident (codes "new"))
        (next_at-name b'n' (codes "ew") (32 ∷ (codes "class" ++ r)) refl refl refl)
      ∙ scan_round (suc f) (record st { prev_sig = new }) 32 (codes "class" ++ r)
          (codes "class" ++ r) ws refl
      ∙ scan_round f (record st { prev_sig = new }) b'c' (codes "lass" ++ r) r
          (ident (codes "class")) (next_at-name b'c' (codes "lass") r refl refl l),
)

-- Each piece before a byte that ends a word.
pub piece-Leads :
    (f : ℕ) (st : ScanState) (p : Piece) (r : Bytes) (ns : Bytes) (out : List Bytes)
    → IsPiece p
    → Stops r
    → ((name : Bytes) → qualify ns name ≡ ns ++ b'\\' ∷ name)
    → IsAt ns out st
    → Leads (spent p f) st (piece_text p ++ r) f r ns (out ++ declares ns p)
piece-Leads f st (word w) r ns out (h, k) l q a =
    rw (append-nil out) (word-Leads f st w r ns out h k l a)
piece-Leads f st (mark c) r ns out h l q a = rw (append-nil out) (mark-Leads f st c r ns out h a)
piece-Leads f st (quotation c text) r ns out (h, k) l q a =
    rw (append-nil out, append_assoc text (c ∷ []) r) (quotation-Leads f st c text r ns out h k a)
piece-Leads f st (declared kind name) r ns out (h, k, m) l q a =
    rw (append_assoc kind (32 ∷ name) r) (declared-Leads f st kind name r ns out h k m l (q name) a)
piece-Leads f st anonymous r ns out h l q a =
    rw (append-nil out) (anonymous-Leads f st r ns out l a)
