-- ===== src/Scripts/Run.antt =====
-- internal/scripts/scripts.go: the forms of a script body, and running the bodies of an event. A body runs on Unix, with
-- no deadline. The errors leave out the event, which all of them quote.
use gomposer.Prelude.{
  ℕ, zero, suc, Bool, false, ◌||◌, ◌&&◌, Option, none, some, List, [], ◌∷◌, ◌++◌, ◌==◌, leb,
  if◌then◌else◌, all, any, length, take,
}
use gomposer.Prelude.Bytes.{Bytes, codes}
use gomposer.Strings.{eq, is_empty, is_digit, has_byte, trim_space, trim_prefix, cut_text}
use gomposer.Strings.Split.{split}
use gomposer.Scripts.Quote.{replace_all, append_args, escape_php_string}

-- Options, without its flag for printing and its deadline; a map from names to bodies is a list of its entries.
pub record Options : Type 0 where
  pub project_dir : Bytes
  pub scripts : List (Bytes × List Bytes)
  pub extra_args : List Bytes

-- The subprocesses: sh -c and php -r with their argument.
pub data Command : Type 0 where
  sh php : Bytes → Command

pub data RunError : Type 0 where
  not_found no_project_dir too_deep empty_body : RunError
  cycle unknown_ref : Bytes → RunError
  command_failed : Bytes → RunError

-- The form of a body, with what it names.
pub data Form : Type 0 where
  empty_form shell_form : Form
  ref_form : Bytes → Form
  callable_form : Bytes → Bytes → Form

unfoldable pub is_letter : ℕ → Bool
is_letter c = c == b'_' || (leb b'a' c && leb c b'z') || (leb b'A' c && leb c b'Z')

-- [A-Za-z_] and then bytes of a class
unfoldable pub is_name : (ℕ → Bool) → Bytes → Bool
unfolding is_letter
is_name p [] = false
is_name p (c ∷ s) = is_letter c && all p s

unfoldable pub is_ident : Bytes → Bool
unfolding is_name is_letter is_digit
is_ident s = is_name (λ c. is_letter c || is_digit c) s

-- refPattern, with the name it captures
unfoldable pub ref_name : Bytes → Option Bytes
unfolding is_name is_letter is_digit has_byte
ref_name [] = none
ref_name (c ∷ s) =
    if c == b'@' && is_name (λ a. is_letter a || is_digit a || has_byte (codes ":.-") a) s
    then some s
    else none

-- phpCallablePattern with the cut at the first "::", before which the pattern has no colon.
unfoldable pub php_callable : Bytes → Option (Bytes × Bytes)
unfolding is_ident cut_text split trim_prefix
php_callable s = elim (cut_text (codes "::") s) [
  | none ↦ none
  | some (class, method) ↦
      if all is_ident (split (λ c. c == b'\\') (trim_prefix (codes "\\") class)) && is_ident method
      then some (class, method)
      else none
]

unfoldable pub classify : Bytes → Form
unfolding ref_name php_callable trim_space is_empty
classify body =
    let trimmed = trim_space body in
    if is_empty trimmed then empty_form else elim (ref_name trimmed) [
      | some name ↦ ref_form name
      | none ↦ elim (php_callable trimmed) [
        | some (class, method) ↦ callable_form class method
        | none ↦ shell_form
      ]
    ]

unfoldable pub redact_body : Bytes → Bytes
redact_body body = if leb (length body) 100 then body else take 100 body ++ codes "..."

-- The program that runPHPCallable hands to php.
unfoldable pub php_bootstrap : Bytes → Bytes → Bytes → Bytes
unfolding replace_all escape_php_string
php_bootstrap dir class method =
    let autoload = replace_all b'\'' (codes "\\'") (dir ++ codes "/vendor/autoload.php") in
    codes "if (!file_exists('"
    ++ (autoload
        ++ (codes
              "')) { fwrite(STDERR, \"gomposer: vendor/autoload.php missing\\n\"); exit(1); }require '"
            ++ (autoload
                ++ (codes "';call_user_func(['"
                    ++ (escape_php_string class
                        ++ (codes "', '" ++ (escape_php_string method ++ codes "']);")))))))

-- The subprocesses started so far, the first one first, and the references that are being expanded.
pub record RunState : Type 0 where
  pub commands : List Command
  pub visited : List Bytes

pub data Outcome : Type 0 where
  finished : RunState → Outcome
  stopped : RunError → RunState → Outcome

abbrev pub then_run : (RunState → Outcome) → Outcome → Outcome
then_run f (finished st) = f st
then_run f (stopped e st) = stopped e st

unfoldable pub lookup_script : List (Bytes × List Bytes) → Bytes → Option (List Bytes)
unfolding eq
lookup_script [] name = none
lookup_script ((k, v) ∷ m) name =
    let rest = lookup_script m name in if eq k name then some v else rest

unfoldable pub is_visited : List Bytes → Bytes → Bool
unfolding eq
is_visited names name = any (λ n. eq n name) names

-- delete(visited, name)
unfoldable pub unvisit : Bytes → List Bytes → List Bytes
unfolding eq
unvisit name [] = []
unvisit name (n ∷ names) = let rest = unvisit name names in if eq n name then rest else n ∷ rest

-- The loop over the bodies of a name, which ends at the first error.
unfoldable pub run_all : (Bytes → RunState → Outcome) → List Bytes → RunState → Outcome
run_all one [] st = finished st
run_all one (body ∷ bodies) st = then_run (run_all one bodies) (one body st)

abbrev pub max_ref_depth : ℕ
max_ref_depth = 32

-- `exec before c` tells whether the subprocess succeeds after those before it: cmd.Run() of runShell and runPHPCallable.
module _ (exec : List Command → Command → Bool) (opts : Options) where
  -- runShell and runPHPCallable; the error quotes the redacted text.
  unfoldable pub run_command : Command → Bytes → RunState → Outcome
  unfolding redact_body
  run_command c text st =
      let after : RunState = record { commands = st.commands ++ c ∷ []; visited = st.visited } in
      if exec st.commands c
      then finished after
      else stopped (command_failed (redact_body text)) after

  abbrev pub leave : Bytes → RunState → Outcome
  unfolding unvisit
  leave name st = finished (record { commands = st.commands; visited = unvisit name st.visited })

  -- The formRef case, where `one` runs a body one level deeper.
  unfoldable pub run_ref : (Bytes → RunState → Outcome) → Bytes → RunState → Outcome
  unfolding is_visited lookup_script run_all unvisit
  run_ref one name st =
      if is_visited st.visited name
      then stopped (cycle name) st
      else (let entered : RunState = record {
        commands = st.commands;
        visited = name ∷ st.visited;
      } in
          elim (lookup_script opts.scripts name) [
            | none ↦ stopped (unknown_ref name) entered
            | some nested ↦ then_run (leave name) (run_all one nested entered)
          ])

  unfoldable pub run_form : (Bytes → RunState → Outcome) → Bytes → RunState → Form → Outcome
  unfolding run_command run_ref append_args php_bootstrap
  run_form one body st empty_form = stopped empty_body st
  run_form one body st (ref_form name) = run_ref one name st
  run_form one body st shell_form =
      run_command (sh (append_args body opts.extra_args)) (append_args body opts.extra_args) st
  run_form one body st (callable_form class method) =
      run_command (php (php_bootstrap opts.project_dir class method))
        (class ++ (codes "::" ++ method)) st

  -- runOne, on the levels that are left: `max_ref_depth + 1 - depth`.
  unfoldable pub run_one : ℕ → Bytes → RunState → Outcome
  unfolding classify run_form
  run_one zero body st = stopped too_deep st
  run_one (suc left) body st = run_form (run_one left) body st (classify body)

  abbrev pub run_start : RunState
  run_start = record { commands = []; visited = [] }

  unfoldable pub run_listed : List Bytes → Outcome
  unfolding run_all run_one is_empty
  run_listed [] = finished run_start
  run_listed (body ∷ bodies) =
      if is_empty opts.project_dir
      then stopped no_project_dir run_start
      else run_all (run_one (suc max_ref_depth)) (body ∷ bodies) run_start

  -- runBodies, whose flag tells Run from RunNamed
  unfoldable pub run_bodies : Bytes → Bool → Outcome
  unfolding lookup_script run_listed
  run_bodies name required = elim (lookup_script opts.scripts name) [
    | none ↦ if required then stopped not_found run_start else finished run_start
    | some bodies ↦ run_listed bodies
  ]
