-- ===== src/Constraint/Version.antt =====
-- internal/constraint/version.go: the version record and its parser.
use gomposer.Prelude.{
  ℕ, Bool, true, false, not, ◌&&◌, ◌||◌, Option, none, some, List, [], ◌∷◌, ◌==◌, leb,
  if◌then◌else◌, all, length, take, get_or, map,
}
use gomposer.Prelude.Bytes.{Bytes, codes}
use gomposer.Prelude.Int.{ℤ, pos}
use gomposer.Strings.{
  is_empty, contains_any, after_prefix, trim_prefix, cut_first, cut_last, trim_left, trim_right,
  is_digit, lower_byte,
}
use gomposer.Strings.Split.{split}
use gomposer.Strings.Numbers.{parsed, out_of_range, bad_syntax, atoi}

-- The errors of the package, with the text that their message quotes.
pub data Error : Type 0 where
  empty_branch invalid_alias invalid_version : Bytes → Error
  empty_workspace : Error
  empty_clause : Bytes → Error
  invalid_hyphen_lower invalid_hyphen_upper : Bytes → Error
  empty_term : Error
  no_wildcard invalid_wildcard : Bytes → Error

pub data Result {ℓ} (A : Type ℓ) : Type ℓ where
  ok : A → Result A
  err : Error → Result A

infixl 5 ◌>>=◌
abbrev pub ◌>>=◌ {ℓ κ} : {A : Type ℓ} {B : Type κ} → Result A → (A → Result B) → Result B
ok a >>= f = f a
err e >>= f = err e

pub data Stability : Type 0 where
  dev alpha beta rc stable : Stability

-- The value of the Go constant: `Dev` is 0 and `Stable` is 4.
abbrev pub rank : Stability → ℕ
rank dev = 0
rank alpha = 1
rank beta = 2
rank rc = 3
rank stable = 4

-- Stability.String
unfoldable pub show_stability : Stability → Bytes
show_stability dev = codes "dev"
show_stability alpha = codes "alpha"
show_stability beta = codes "beta"
show_stability rc = codes "RC"
show_stability stable = codes "stable"

abbrev pub is_dev : Stability → Bool
is_dev dev = true
is_dev _ = false

pub record Version : Type 0 where
  pub major : ℤ
  pub minor : ℤ
  pub patch : ℤ
  pub stability : Stability
  pub pre_num : ℤ
  pub branch : Bytes
  pub stability_flag : Bytes
  pub original : Bytes

-- A version with these numbers at this stability, every other field at Go's zero value.
abbrev pub numeric : ℤ → ℤ → ℤ → Stability → Version
numeric a b c s = record {
  major = a;
  minor = b;
  patch = c;
  stability = s;
  pre_num = pos 0;
  branch = [];
  stability_flag = [];
  original = [];
}

-- strconv.Atoi where the error is dropped, as in `n, _ := strconv.Atoi(s)`
abbrev atoi_value : Bytes → ℤ
atoi_value s = elim (atoi s) [ parsed n ↦ n | out_of_range n ↦ n | bad_syntax ↦ pos 0 ]

-- The text up to the first byte without the property.
unfoldable pub leading : (ℕ → Bool) → Bytes → Bytes
leading p [] = []
leading p (c ∷ s) = if p c then c ∷ leading p s else []

unfoldable pub leading_num : Bytes → ℤ
unfolding leading trim_left atoi is_digit
leading_num s =
    let run = leading is_digit (trim_left (λ c. c == b'.' || c == b'-') s) in
    if is_empty run then pos 0 else atoi_value run

-- `len(low) == 1 || isDigit(low[1])`, where `low[1:]` is given
unfoldable pub ends_or_digit : Bytes → Bool
unfolding is_digit
ends_or_digit [] = true
ends_or_digit (c ∷ s) = is_digit c

-- One `case` of classifyPre: the text behind the prefix, if the case applies.
abbrev short_form : Option Bytes → Option Bytes
short_form none = none
short_form (some r) = if ends_or_digit r then some r else none

unfoldable pub classify_pre : Bytes → Stability × ℤ
unfolding after_prefix trim_left lower_byte leading_num ends_or_digit is_empty
classify_pre pre =
    let low = trim_left (λ c. c == b'-' || c == b'.') (map lower_byte pre) in
    elim (after_prefix (codes "rc") low) [
      | some r ↦ (rc, leading_num r)
      | none ↦ elim (after_prefix (codes "beta") low) [
        | some r ↦ (beta, leading_num r)
        | none ↦ elim (short_form (after_prefix (codes "b") low)) [
          | some r ↦ (beta, leading_num r)
          | none ↦ elim (after_prefix (codes "alpha") low) [
            | some r ↦ (alpha, leading_num r)
            | none ↦ elim (short_form (after_prefix (codes "a") low)) [
              | some r ↦ (alpha, leading_num r)
              -- "patch", "pl" and "p" have one answer, and begin with "p"
              | none ↦ elim (after_prefix (codes "p") low) [
                | some r ↦ (stable, pos 0)
                | none ↦ (dev, pos 0)
              ]
            ]
          ]
        ]
      ]
    ]

-- The "@<stability>" suffix: the flag, and the text without it.
unfoldable pub strip_stability : Bytes → Bytes × Bytes
unfolding cut_last contains_any is_empty
strip_stability s = elim (cut_last (λ c. c == b'@') s) [
  | none ↦ ([], s)
  | some (before, flag) ↦
      if not (is_empty flag) && not (contains_any flag (codes ".-+/ "))
      then (flag, before)
      else ([], s)
]

-- The loops over the parts: the ints, or nothing at the first part that is none.
unfoldable pub atois : List Bytes → Option (List ℤ)
unfolding atoi
atois [] = some []
atois (p ∷ ps) = elim (atoi p) [
  | parsed n ↦ elim (atois ps) [ none ↦ none | some ns ↦ some (n ∷ ns) ]
  | _ ↦ none
]

-- The head of an alias such as "1.2.x-dev": the digits and dots before the first `x`.
unfoldable pub alias_head : Bytes → Option Bytes
unfolding cut_first trim_right is_empty is_digit
alias_head body = elim (cut_first (λ c. c == b'x') body) [
  | none ↦ none
  | some (before, after) ↦
      let head = trim_right (λ c. c == b'.') before in
      if not (is_empty head) && all (λ c. c == b'.' || is_digit c) head then some head else none
]

abbrev pub dot : ℕ → Bool
dot c = c == b'.'

-- The alias branch; `v` holds the fields set so far. Parts beyond the third are not read.
unfoldable pub parse_alias : Version → Bytes → Bytes → Result Version
unfolding split atois
parse_alias v s head = elim (atois (take 3 (split dot head))) [
  | none ↦ err (invalid_alias s)
  | some nums ↦ ok (record v {
    major = get_or nums 0 (pos 0);
    minor = get_or nums 1 (pos 0);
    patch = get_or nums 2 (pos 0);
    stability = dev;
    branch = s;
  })
]

-- The base and the pre-release text, split at the first '-' or '+'.
unfoldable pub split_pre : Bytes → Bytes × Bytes
unfolding cut_first
split_pre body = elim (cut_first (λ c. c == b'-' || c == b'+') body) [
  | none ↦ (body, [])
  | some (base, pre) ↦ (base, pre)
]

abbrev with_pre : Version → Bytes → Version
with_pre v [] = v
with_pre v (c ∷ pre) = record v {
  stability = (classify_pre (c ∷ pre)).0;
  pre_num = (classify_pre (c ∷ pre)).1;
}

-- The numeric branch: one to four parts, of which the fourth is parsed and dropped.
unfoldable pub parse_numeric : Version → Bytes → Bytes → Result Version
unfolding split_pre split atois classify_pre
parse_numeric v s body =
    let (base, pre) = split_pre body in
    let parts = split dot base in
    if leb 1 (length parts) && leb (length parts) 4
    then elim (atois parts) [
      | none ↦ err (invalid_version s)
      | some nums ↦ ok (
          with_pre
            (record v {
              major = get_or nums 0 (pos 0);
              minor = get_or nums 1 (pos 0);
              patch = get_or nums 2 (pos 0);
            })
            pre)
    ]
    else err (invalid_version s)

-- What follows "dev-", if `s` starts with it.
abbrev parse_branch : Version → Bytes → Bytes → Result Version
parse_branch v s [] = err (empty_branch s)
parse_branch v s (c ∷ name) = ok (record v { stability = dev; branch = c ∷ name })

unfoldable pub parse_body : Version → Bytes → Bytes → Result Version
unfolding alias_head parse_alias parse_numeric
parse_body v s body = elim (alias_head body) [
  | some head ↦ parse_alias v s head
  | none ↦ parse_numeric v s body
]

unfoldable pub parse_version : Bytes → Result Version
unfolding strip_stability after_prefix trim_prefix parse_body
parse_version text =
    let (flag, s) = strip_stability text in
    let v : Version = record {
      major = pos 0;
      minor = pos 0;
      patch = pos 0;
      stability = stable;
      pre_num = pos 0;
      branch = [];
      stability_flag = flag;
      original = text;
    } in
    elim (after_prefix (codes "dev-") s) [
      | some name ↦ parse_branch v s name
      | none ↦ parse_body v s (trim_prefix (codes "v") s)
    ]
