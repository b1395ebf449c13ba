-- ===== src/Autoload/Scan.antt =====
-- internal/autoload/phpscan.go: scanClasses. Each loop has fuel for the bytes that are left.
use gomposer.Prelude.{
  ℕ, zero, suc, Bool, true, false, ◌&&◌, Option, none, some, List, [], ◌∷◌, ◌++◌, ◌==◌, length,
  if◌then◌else◌, map, any,
}
use gomposer.Prelude.Int.{ℤ, pos, int_inc, int_dec, int_ltb}
use gomposer.Prelude.Bytes.{Bytes, codes}
use gomposer.Strings.{eq, trim_left, lower_byte}
use gomposer.Constraint.Version.{leading}
use gomposer.Autoload.Tokens.{
  namespace_eof, namespace_byte, out_of_fuel, Scanned, done, failed, ◌>>=◌, Token, other, ws,
  comment, new, lbrace, rbrace, semi, close_tag, eof, ident, is_ws, is_ident_start, is_ident_cont,
  starts, tail, skip_until_open_tag, skip_line, to_block_end, next,
}

abbrev pub after_block : Bytes → Bytes
after_block (a ∷ b ∷ r) = r
after_block r = r

-- skipWSAndComments; an unterminated comment is left at its last byte.
unfoldable pub skip_ws_and_comments : ℕ → Bytes → Scanned Bytes
unfolding is_ws skip_line to_block_end
skip_ws_and_comments f [] = done []
skip_ws_and_comments zero (c ∷ s) = failed out_of_fuel
skip_ws_and_comments (suc f) (c ∷ s) =
    let blank = skip_ws_and_comments f s in
    let line = skip_ws_and_comments f (skip_line s) in
    let block = skip_ws_and_comments f (after_block (to_block_end (tail s))) in
    if is_ws c
    then blank
    else if c == b'/' && starts b'/' s
    then line
    else if c == b'/' && starts b'*' s
    then block
    else if c == b'#'
    then line
    else done (c ∷ s)

abbrev pub significant : Bytes → Scanned Bytes
significant s = skip_ws_and_comments (length s) s

-- strings.Join(parts, "\\")
unfoldable pub join_namespace : List Bytes → Bytes
join_namespace [] = []
join_namespace (p ∷ []) = p
join_namespace (p ∷ q ∷ ps) = p ++ b'\\' ∷ join_namespace (q ∷ ps)

-- readNamespaceName, where the bytes that mean nothing are skipped: the name, and whether it is bracketed.
unfoldable pub read_namespace : ℕ → List Bytes → Bytes → Scanned (Bytes × Bool × Bytes)
unfolding is_ident_start is_ident_cont leading trim_left join_namespace skip_ws_and_comments
read_namespace f parts [] = failed namespace_eof
read_namespace zero parts (c ∷ s) = failed out_of_fuel
read_namespace (suc f) parts (c ∷ s) =
    let separator = significant s >>= λ r. read_namespace f parts r in
    let part = significant (trim_left is_ident_cont s) >>= λ r.
    read_namespace f (parts ++ (c ∷ leading is_ident_cont s) ∷ []) r in
    if c == b';'
    then done (join_namespace parts, false, s)
    else if c == b'{'
    then done (join_namespace parts, true, s)
    else if c == b'\\'
    then separator
    else if is_ident_start c
    then part
    else failed (namespace_byte c)

abbrev pub read_namespace_name : Bytes → Scanned (Bytes × Bool × Bytes)
read_namespace_name s = significant s >>= λ r. read_namespace (length s) [] r

-- What one token does to the depth of skipUseStatement; `none` ends the statement.
abbrev pub use_depth : ℤ → Token → Option ℤ
use_depth d lbrace = some (int_inc d)
use_depth d rbrace = some (int_dec d)
use_depth d semi = if int_ltb (pos 0) d then some d else none
use_depth d eof = none
use_depth d _ = some d

abbrev pub use_step : Option ℤ → Bytes → (ℤ → Bytes → Scanned Bytes) → Scanned Bytes
use_step none r later = done r
use_step (some d) r later = later d r

unfoldable pub skip_use : ℕ → ℤ → Bytes → Scanned Bytes
unfolding next
skip_use f d [] = done []
skip_use zero d (c ∷ s) = failed out_of_fuel
skip_use (suc f) d (c ∷ s) = do
  (t, r) ← next (c ∷ s)
  use_step (use_depth d t) r (λ d' r'. skip_use f d' r')

abbrev pub skip_use_statement : Bytes → Scanned Bytes
skip_use_statement s = skip_use (length s) (pos 0) s

abbrev pub decl_at : Bytes → Option Bytes × Bytes
decl_at [] = (none, [])
decl_at (c ∷ s) =
    if is_ident_start c
    then (some (c ∷ leading is_ident_cont s), trim_left is_ident_cont s)
    else (none, c ∷ s)

-- readDeclName; it has no error of its own.
unfoldable pub read_decl_name : Bytes → Scanned (Option Bytes × Bytes)
unfolding skip_ws_and_comments is_ident_start is_ident_cont leading trim_left
read_decl_name s = significant s >>= λ r. done (decl_at r)

unfoldable pub qualify : Bytes → Bytes → Bytes
qualify [] name = name
qualify (c ∷ ns) name = (c ∷ ns) ++ b'\\' ∷ name

-- The variables of scanClasses.
pub record ScanState : Type 0 where
  pub out : List Bytes
  pub ns : Bytes
  pub depth : ℤ
  pub outer : List Bytes
  pub prev_sig : Token

abbrev pub scan_start : ScanState
scan_start = record { out = []; ns = []; depth = pos 0; outer = []; prev_sig = other }

-- A further round of the loop.
abbrev pub Rounds : Type 0
Rounds = ScanState → Bytes → Scanned (List Bytes)

abbrev pub enter_namespace : ScanState → Bytes × Bool × Bytes → Rounds → Scanned (List Bytes)
enter_namespace st (name, true, r) later =
    later (record st { outer = st.ns ∷ st.outer; ns = name; prev_sig = ident [] }) r
enter_namespace st (name, false, r) later = later (record st { ns = name; prev_sig = ident [] }) r

abbrev pub declare : ScanState → Option Bytes × Bytes → Rounds → Scanned (List Bytes)
declare st (none, r) later = later (record st { prev_sig = ident [] }) r
declare st (some name, r) later =
    later (record st { out = st.out ++ qualify st.ns name ∷ []; prev_sig = ident [] }) r

abbrev pub is_new : Token → Bool
is_new t = elim t [ new ↦ true | _ ↦ false ]

pub data Keyword : Type 0 where
  namespace_keyword use_keyword declaration modifier new_keyword no_keyword : Keyword

-- The `switch` on the lower-case text.
unfoldable pub keyword : Bytes → Keyword
unfolding eq lower_byte
keyword lit =
    let low = map lower_byte lit in
    if eq low (codes "namespace")
    then namespace_keyword
    else if eq low (codes "use")
    then use_keyword
    else if any (eq low) (codes "class" ∷ codes "interface" ∷ codes "trait" ∷ codes "enum" ∷ [])
    then declaration
    else if any (eq low) (codes "abstract" ∷ codes "final" ∷ codes "readonly" ∷ [])
    then modifier
    else if eq low (codes "new")
    then new_keyword
    else no_keyword

abbrev pub on_keyword : Keyword → ScanState → Bytes → Rounds → Scanned (List Bytes)
on_keyword namespace_keyword st s later = read_namespace_name s >>= λ n. enter_namespace st n later
on_keyword use_keyword st s later =
    skip_use_statement s >>= λ r. later (record st { prev_sig = other }) r
on_keyword declaration st s later =
    if is_new st.prev_sig
    then later (record st { prev_sig = ident [] }) s
    else read_decl_name s >>= λ d. declare st d later
on_keyword modifier st s later = later (record st { prev_sig = ident [] }) s
on_keyword new_keyword st s later = later (record st { prev_sig = new }) s
on_keyword no_keyword st s later = later (record st { prev_sig = ident [] }) s

-- A closing brace below depth 0 ends the innermost bracketed namespace.
abbrev pub leave_namespace : List Bytes → ScanState → ScanState
leave_namespace [] st = st
leave_namespace (ns ∷ outer) st =
    if int_ltb st.depth (pos 0) then record st { ns = ns; outer = outer; depth = pos 0 } else st

abbrev pub close_brace : ScanState → ScanState
close_brace st =
    let st' = record st { depth = int_dec st.depth; prev_sig = other } in
    leave_namespace st.outer st'

-- The `switch` on the token.
abbrev pub on_token : ScanState → Token → Bytes → Rounds → Scanned (List Bytes)
on_token st eof r later = done st.out
on_token st ws r later = later st r
on_token st comment r later = later st r
on_token st close_tag r later = later (record st { prev_sig = other }) (skip_until_open_tag r)
on_token st (ident lit) r later = on_keyword (keyword lit) st r later
on_token st lbrace r later = later (record st { depth = int_inc st.depth; prev_sig = other }) r
on_token st rbrace r later = later (close_brace st) r
on_token st t r later = later (record st { prev_sig = t }) r

unfoldable pub scan_loop : ℕ → ScanState → Bytes → Scanned (List Bytes)
unfolding next
scan_loop f st [] = done st.out
scan_loop zero st (c ∷ s) = failed out_of_fuel
scan_loop (suc f) st (c ∷ s) = do
  (t, r) ← next (c ∷ s)
  on_token st t r (λ st' r'. scan_loop f st' r')

unfoldable pub scan_classes : Bytes → Scanned (List Bytes)
unfolding skip_until_open_tag scan_loop
scan_classes src = let s = skip_until_open_tag src in scan_loop (length s) scan_start s
