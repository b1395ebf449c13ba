-- ===== src/Autoload/Items.antt =====
-- internal/autoload/phpscan.go: what scanClasses lists of the pieces of a file.
use mathlib.Core.List.{append_assoc, append-nil}
use gomposer.Prelude.{
  ℕ, suc, ◌+◌, ◌-◌, ◌≤◌, length-append, true, List, [], ◌∷◌, ◌++◌, ◌≡◌, refl, ap, ◌∙◌, arith,
  length, all, All,
}
use gomposer.Prelude.Bytes.{Bytes}
use gomposer.Strings.{trim_left}
use gomposer.Autoload.Tokens.{done, ws, is_ws, is_ident_start, next_at}
use gomposer.Autoload.Scan.{qualify, ScanState, scan_loop}
use gomposer.Autoload.Words.{Stops, scan_round}
use gomposer.Autoload.Pieces.{
  Piece, word, mark, quotation, declared, anonymous, piece_text, IsPiece, declares, IsAt, spent,
  piece-Leads, Stops-blank,
}

-- A piece and the blanks behind it.
abbrev pub Item : Type 0
Item = Piece × Bytes

abbrev pub IsBlank : Bytes → Type 0
IsBlank [] = ⊥
IsBlank (c ∷ b) = (is_ws c ≡ true) × (all is_ws b ≡ true)

abbrev pub IsItem : Item → Type 0
IsItem (p, b) = IsPiece p × IsBlank b

abbrev pub items_text : List Item → Bytes
items_text [] = []
items_text ((p, b) ∷ items) = piece_text p ++ (b ++ items_text items)

-- What the items declare, in their order, each under the namespace.
abbrev pub all_declared : Bytes → List Item → List Bytes
all_declared ns [] = []
all_declared ns ((p, b) ∷ items) = declares ns p ++ all_declared ns items

-- The rounds for the items, and some more.
abbrev pub rounds : List Item → ℕ → ℕ
rounds [] f = f
rounds ((p, b) ∷ items) f = spent p (suc (rounds items f))

piece_begins :
    (p : Piece) (r : Bytes) → IsPiece p → trim_left is_ws (piece_text p ++ r) ≡ piece_text p ++ r
unfolding trim_left is_ws is_ident_start
piece_begins (word []) r h = absurd h.0
piece_begins (word (c ∷ w)) r ((h, h'), k) = ground (arith, h)
piece_begins (mark c) r h = ground (arith, h)
piece_begins (quotation q text) r (h, k) = ground (arith, h)
piece_begins (declared [] name) r h = absurd h.0
piece_begins (declared (c ∷ w) name) r ((h, h'), k, m) = ground (arith, h)
piece_begins anonymous r h = refl

pub items_begin :
    (items : List Item) → All IsItem items → trim_left is_ws (items_text items) ≡ items_text items
unfolding trim_left
items_begin [] h = refl
items_begin ((p, b) ∷ items) ((h, k), hs) = piece_begins p (b ++ items_text items) h

trim_left-blank :
    (b r : Bytes) → all is_ws b ≡ true → trim_left is_ws r ≡ r → trim_left is_ws (b ++ r) ≡ r
unfolding trim_left
trim_left-blank [] r h e = e
trim_left-blank (c ∷ b) r h e = ground (arith, trim_left-blank b r)

next_at-blank : (c : ℕ) (s : Bytes) → is_ws c ≡ true → next_at c s ≡ done (ws, trim_left is_ws s)
unfolding next_at
next_at-blank c s h = rw h refl

-- The blanks are read in one round.
pub blank_skipped :
    (f : ℕ) (st : ScanState) (b r : Bytes)
    → IsBlank b
    → trim_left is_ws r ≡ r
    → scan_loop (suc f) st (b ++ r) ≡ scan_loop f st r
blank_skipped f st [] r h e = absurd h
blank_skipped f st (c ∷ b) r (h, k) e =
    scan_round f st c (b ++ r) r ws
      (next_at-blank c (b ++ r) h ∙ ap (λ x. done (ws, x)) (trim_left-blank b r k e))

Stops-IsBlank : (b r : Bytes) → IsBlank b → Stops (b ++ r)
Stops-IsBlank [] r h = absurd h
Stops-IsBlank (c ∷ b) r (h, k) = Stops-blank c (b ++ r) h

abbrev pub Qualifies : Bytes → Type 0
Qualifies ns = (name : Bytes) → qualify ns name ≡ ns ++ b'\\' ∷ name

items_listed :
    (f : ℕ) (st : ScanState) (items : List Item) (ns : Bytes) (out : List Bytes)
    → All IsItem items
    → Qualifies ns
    → IsAt ns out st
    → scan_loop (rounds items f) st (items_text items) ≡ done (out ++ all_declared ns items)
unfolding scan_loop
items_listed f st [] ns out h q (n, o, p, u) = rw append-nil (ap done o)
items_listed f st ((p, b) ∷ items) ns out ((h, k), hs) q a =
    let rest = items_text items in
    let (st', a', e) =
      piece-Leads (suc (rounds items f)) st p (b ++ rest) ns out h (Stops-IsBlank b rest k) q a in
    e
    ∙ blank_skipped (rounds items f) st' b rest k (items_begin items hs)
    ∙ items_listed f st' items ns (out ++ declares ns p) hs q a'
    ∙ ap done (append_assoc out (declares ns p) (all_declared ns items))

spent-add : (p : Piece) (m n f : ℕ) → m ≡ n + f → spent p (suc m) ≡ spent p (suc n) + f
spent-add (word w) m n f e = omega (arith, e)
spent-add (mark c) m n f e = omega (arith, e)
spent-add (quotation c text) m n f e = omega (arith, e)
spent-add (declared kind name) m n f e = omega (arith, e)
spent-add anonymous m n f e = omega (arith, e)

rounds-add : (items : List Item) (f : ℕ) → rounds items f ≡ rounds items 0 + f
rounds-add [] f = omega arith
rounds-add ((p, b) ∷ items) f = spent-add p (rounds items f) (rounds items 0) f (rounds-add items f)

spent-le-length :
    (p : Piece) (n : ℕ) (r : Bytes)
    → IsPiece p
    → n ≤ length r
    → spent p n ≤ length (piece_text p ++ r)
spent-le-length (word []) n r h l = absurd h.0
spent-le-length (word (c ∷ w)) n r h l = omega (arith, l, length-append w r)
spent-le-length (mark c) n r h l = omega (arith, l)
spent-le-length (quotation c text) n r h l = omega (arith, l, length-append (text ++ c ∷ []) r)
spent-le-length (declared [] name) n r h l = absurd h.0
spent-le-length (declared (c ∷ w) name) n r h l = omega (arith, l, length-append (w ++ 32 ∷ name) r)
spent-le-length anonymous n r h l = omega (arith, l)

blank-length : (b r : Bytes) → IsBlank b → suc (length r) ≤ length (b ++ r)
blank-length [] r h = absurd h
blank-length (c ∷ b) r h = omega (arith, length-append b r)

pub rounds-le-length :
    (items : List Item) → All IsItem items → rounds items 0 ≤ length (items_text items)
rounds-le-length [] h = omega arith
rounds-le-length ((p, b) ∷ items) ((h, k), hs) =
    spent-le-length p (suc (rounds items 0)) (b ++ items_text items) h
      (omega (arith, rounds-le-length items hs, blank-length b (items_text items) k))

-- Enough fuel, whatever it is.
pub items_listed_by :
    (n : ℕ) (st : ScanState) (items : List Item) (ns : Bytes)
    → rounds items 0 ≤ n
    → All IsItem items
    → Qualifies ns
    → IsAt ns [] st
    → scan_loop n st (items_text items) ≡ done (all_declared ns items)
items_listed_by n st items ns l h q a =
    let e : n ≡ rounds items (n - rounds items 0) =
      omega (arith, rounds-add items (n - rounds items 0)) in
    ap (λ k. scan_loop k st (items_text items)) e
    ∙ items_listed (n - rounds items 0) st items ns [] h q a
