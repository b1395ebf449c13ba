-- ===== src/Autoload/Progress.antt =====
-- internal/autoload/phpscan.go: each step of the scanner reads on.
use gomposer.Prelude.{
  ℕ, zero, suc, ◌≤◌, Bool, true, false, Option, none, some, List, [], ◌∷◌, ◌++◌, ◌≢◌, arith, length,
  Bool-cases, inl, inr,
}
use gomposer.Prelude.Int.{ℤ, pos}
use gomposer.Prelude.Bytes.{Bytes}
use gomposer.Strings.{trim_left}
use gomposer.Constraint.Version.{leading}
use gomposer.Autoload.Tokens.{
  out_of_fuel, Scanned, done, failed, ◌>>=◌, Token, other, ws, comment, new, lbrace, rbrace, semi,
  close_tag, eof, ident, is_ident_cont, tail, skip_until_open_tag, skip_line, to_block_end, next_at,
  next,
}
use gomposer.Autoload.Scan.{
  after_block, skip_ws_and_comments, significant, read_namespace, use_depth, use_step, skip_use,
  decl_at, read_decl_name, ScanState, Rounds, enter_namespace, declare, Keyword, keyword,
  namespace_keyword, use_keyword, declaration, modifier, new_keyword, no_keyword, on_keyword,
  on_token, scan_loop, scan_classes, is_new,
}
use gomposer.Autoload.Advance.{
  IsReal, Within, TokenWithin, Within-mono, length-trim_left, length-tail, length-skip_line,
  length-to_block_end, length-skip_until_open_tag, next_at-Within,
}

length-after_block : (s : Bytes) → length (after_block s) ≤ length s
length-after_block [] = omega arith
length-after_block (a ∷ []) = omega arith
length-after_block (a ∷ b ∷ s) = omega arith

skip_ws_and_comments-Within :
    (f : ℕ) (s : Bytes) → length s ≤ f → Within (length s) (skip_ws_and_comments f s)
unfolding skip_ws_and_comments
skip_ws_and_comments-Within f [] h = omega arith
skip_ws_and_comments-Within zero (c ∷ s) h = absurd (omega arith)
skip_ws_and_comments-Within (suc f) (c ∷ s) h =
    let n = suc (length s) in
    let end = after_block (to_block_end (tail s)) in
    let l = length-skip_line s in
    let e : length end ≤ length s = omega (
      arith,
      length-after_block (to_block_end (tail s)),
      length-to_block_end (tail s),
      length-tail s,
    ) in
    let shorter : (r : Bytes) → length r ≤ length s → Within n (skip_ws_and_comments f r) = λ r k.
      Within-mono (length r) n (skip_ws_and_comments f r) (omega arith)
        (skip_ws_and_comments-Within f r (omega arith)) in
    ground (arith, shorter s (omega arith), shorter (skip_line s) l, shorter end e)

significant-Within : (s : Bytes) → Within (length s) (significant s)
significant-Within s = skip_ws_and_comments-Within (length s) s (omega arith)

abbrev NameWithin : ℕ → Scanned (Bytes × Bool × Bytes) → Type 0
NameWithin n (done (name, bracketed, r)) = length r ≤ n
NameWithin n (failed e) = IsReal e

NameWithin-mono :
    (m n : ℕ) (r : Scanned (Bytes × Bool × Bytes)) → m ≤ n → NameWithin m r → NameWithin n r
NameWithin-mono m n (done (name, b, r)) h k = omega arith
NameWithin-mono m n (failed e) h k = k

name-Within :
    (n : ℕ) (x : Scanned Bytes) (later : Bytes → Scanned (Bytes × Bool × Bytes))
    → Within n x
    → ((r : Bytes) → length r ≤ n → NameWithin n (later r))
    → NameWithin n (x >>= later)
name-Within n (done r) later h k = k r h
name-Within n (failed e) later h k = h

read_namespace-Within :
    (f : ℕ) (parts : List Bytes) (s : Bytes)
    → length s ≤ f
    → NameWithin (length s) (read_namespace f parts s)
unfolding read_namespace
read_namespace-Within f parts [] h = tt
read_namespace-Within zero parts (c ∷ s) h = absurd (omega arith)
read_namespace-Within (suc f) parts (c ∷ s) h =
    let rest = trim_left is_ident_cont s in
    let later : (ps : List Bytes) (t : Bytes)
        → length t ≤ length s
        → NameWithin (suc (length s)) (significant t >>= λ r. read_namespace f ps r) =
      λ ps t k.
        NameWithin-mono (length t) (suc (length s)) (significant t >>= λ r. read_namespace f ps r)
          (omega arith)
          (name-Within (length t) (significant t) (λ r. read_namespace f ps r)
            (significant-Within t)
            (λ r l.
              NameWithin-mono (length r) (length t) (read_namespace f ps r) l
                (read_namespace-Within f ps r (omega arith)))) in
    ground (
      arith,
      later parts s (omega arith),
      later (parts ++ (c ∷ leading is_ident_cont s) ∷ []) rest (length-trim_left is_ident_cont s),
    )

use_step-Within :
    (n : ℕ) (d : Option ℤ) (r : Bytes) (later : ℤ → Bytes → Scanned Bytes)
    → length r ≤ n
    → ((d' : ℤ) → Within n (later d' r))
    → Within n (use_step d r later)
use_step-Within n none r later h k = h
use_step-Within n (some d) r later h k = k d

use_token-Within :
    (n : ℕ) (d : ℤ) (later : ℤ → Bytes → Scanned Bytes) (x : Scanned (Token × Bytes))
    → TokenWithin n x
    → ((d' : ℤ) (r : Bytes) → length r ≤ n → Within n (later d' r))
    → Within n (x >>= λ p. use_step (use_depth d p.0) p.1 later)
use_token-Within n d later (done (t, r)) h k =
    use_step-Within n (use_depth d t) r later h (λ d'. k d' r h)
use_token-Within n d later (failed e) h k = h

skip_use-Within : (f : ℕ) (d : ℤ) (s : Bytes) → length s ≤ f → Within (length s) (skip_use f d s)
unfolding skip_use next
skip_use-Within f d [] h = omega arith
skip_use-Within zero d (c ∷ s) h = absurd (omega arith)
skip_use-Within (suc f) d (c ∷ s) h =
    Within-mono (length s) (suc (length s)) (skip_use (suc f) d (c ∷ s)) (omega arith) (
      use_token-Within (length s) d (λ d' r. skip_use f d' r) (next_at c s) (next_at-Within c s)
        (λ d' r k.
          Within-mono (length r) (length s) (skip_use f d' r) k
            (skip_use-Within f d' r (omega arith))))

-- Every error is one of the source.
abbrev Ends : Scanned (List Bytes) → Type 0
Ends (done out) = Unit
Ends (failed e) = IsReal e

abbrev LaterEnds : ℕ → Rounds → Type 0
LaterEnds n later = (st : ScanState) (r : Bytes) → length r ≤ n → Ends (later st r)

enter_namespace-Ends :
    (n : ℕ) (st : ScanState) (later : Rounds) (x : Scanned (Bytes × Bool × Bytes))
    → NameWithin n x
    → LaterEnds n later
    → Ends (x >>= λ p. enter_namespace st p later)
enter_namespace-Ends n st later (done (name, true, r)) h k = k _ r h
enter_namespace-Ends n st later (done (name, false, r)) h k = k _ r h
enter_namespace-Ends n st later (failed e) h k = h

use-Ends :
    (n : ℕ) (st : ScanState) (later : Rounds) (x : Scanned Bytes)
    → Within n x
    → LaterEnds n later
    → Ends (x >>= λ r. later st r)
use-Ends n st later (done r) h k = k st r h
use-Ends n st later (failed e) h k = h

length-decl_at : (s : Bytes) → length (decl_at s).1 ≤ length s
length-decl_at [] = omega arith
length-decl_at (c ∷ s) = ground (arith, length-trim_left is_ident_cont s)

declare-Ends :
    (n : ℕ) (st : ScanState) (later : Rounds) (x : Option Bytes × Bytes)
    → length x.1 ≤ n
    → LaterEnds n later
    → Ends (declare st x later)
declare-Ends n st later (none, r) h k = k _ r h
declare-Ends n st later (some name, r) h k = k _ r h

declared-Ends :
    (n : ℕ) (st : ScanState) (later : Rounds) (x : Scanned Bytes)
    → Within n x
    → LaterEnds n later
    → Ends ((x >>= λ r. done (decl_at r)) >>= λ d. declare st d later)
declared-Ends n st later (done r) h k =
    declare-Ends n st later (decl_at r) (omega (arith, length-decl_at r)) k
declared-Ends n st later (failed e) h k = h

on_keyword-Ends :
    (k : Keyword) (st : ScanState) (s : Bytes) (later : Rounds)
    → LaterEnds (length s) later
    → Ends (on_keyword k st s later)
unfolding read_decl_name
on_keyword-Ends namespace_keyword st s later h =
    enter_namespace-Ends (length s) st later (significant s >>= λ r. read_namespace (length s) [] r)
      (name-Within (length s) (significant s) (λ r. read_namespace (length s) [] r)
        (significant-Within s)
        (λ r l.
          NameWithin-mono (length r) (length s) (read_namespace (length s) [] r) l
            (read_namespace-Within (length s) [] r l)))
      h
on_keyword-Ends use_keyword st s later h =
    use-Ends (length s) _ later (skip_use (length s) (pos 0) s)
      (skip_use-Within (length s) (pos 0) s (omega arith)) h
on_keyword-Ends declaration st s later h = elim (Bool-cases (is_new st.prev_sig)) [
  | inl e ↦ simp e (h _ s (omega arith))
  | inr e ↦
      let ends = declared-Ends (length s) st later (significant s) (significant-Within s) h in
      simp e ends
]
on_keyword-Ends modifier st s later h = h _ s (omega arith)
on_keyword-Ends new_keyword st s later h = h _ s (omega arith)
on_keyword-Ends no_keyword st s later h = h _ s (omega arith)

on_token-Ends :
    (n : ℕ) (st : ScanState) (t : Token) (r : Bytes) (later : Rounds)
    → length r ≤ n
    → LaterEnds n later
    → Ends (on_token st t r later)
on_token-Ends n st eof r later h k = tt
on_token-Ends n st ws r later h k = k st r h
on_token-Ends n st comment r later h k = k st r h
on_token-Ends n st close_tag r later h k =
    k _ (skip_until_open_tag r) (omega (arith, length-skip_until_open_tag r))
on_token-Ends n st (ident lit) r later h k =
    on_keyword-Ends (keyword lit) st r later (λ st' r' l. k st' r' (omega arith))
on_token-Ends n st lbrace r later h k = k _ r h
on_token-Ends n st rbrace r later h k = k _ r h
on_token-Ends n st other r later h k = k _ r h
on_token-Ends n st semi r later h k = k _ r h
on_token-Ends n st new r later h k = k _ r h

round-Ends :
    (n : ℕ) (st : ScanState) (later : Rounds) (x : Scanned (Token × Bytes))
    → TokenWithin n x
    → LaterEnds n later
    → Ends (x >>= λ p. on_token st p.0 p.1 later)
round-Ends n st later (done (t, r)) h k = on_token-Ends n st t r later h k
round-Ends n st later (failed e) h k = h

scan_loop-Ends : (f : ℕ) (st : ScanState) (s : Bytes) → length s ≤ f → Ends (scan_loop f st s)
unfolding scan_loop next
scan_loop-Ends f st [] h = tt
scan_loop-Ends zero st (c ∷ s) h = absurd (omega arith)
scan_loop-Ends (suc f) st (c ∷ s) h =
    round-Ends (length s) st (λ st' r. scan_loop f st' r) (next_at c s) (next_at-Within c s)
      (λ st' r k. scan_loop-Ends f st' r (omega arith))

not_out_of_fuel : (x : Scanned (List Bytes)) → Ends x → x ≢ failed out_of_fuel
not_out_of_fuel (done out) h e = cc
not_out_of_fuel (failed e) h k = absurd (ground arith)

-- scanClasses ends on every text, with the classes or with an error of the text: each loop, and each loop within
-- it, reads on in every round.
pub scan_classes-ends : (src : Bytes) → scan_classes src ≢ failed out_of_fuel
scan_classes-ends src =
    let s = skip_until_open_tag src in
    unfold scan_classes in
    not_out_of_fuel (scan_loop (length s) _ s) (scan_loop-Ends (length s) _ s (omega arith))
