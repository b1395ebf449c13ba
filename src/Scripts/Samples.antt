-- ===== src/Scripts/Samples.antt =====
-- internal/scripts on concrete scripts.
use gomposer.Prelude.{ℕ, zero, suc, Bool, true, false, some, List, [], ◌∷◌, ◌≡◌, refl}
use gomposer.Prelude.Bytes.{Bytes, codes}
use gomposer.Scripts.Quote.{read_word, bare, posix_single_quote, read_word-posix_single_quote}
use gomposer.Scripts.Run.{
  Options, Command, sh, RunState, Outcome, finished, stopped, too_deep, run_bodies, lookup_script,
}
use gomposer.Scripts.Expansion.{ExpandsAll, AllSucceed, run_bodies-Expands}

read_word-posix_single_quote_example :
    read_word bare (posix_single_quote (codes "it's $HOME")) ≡ some (codes "it's $HOME")
read_word-posix_single_quote_example = read_word-posix_single_quote (codes "it's $HOME")

abbrev all_well : List Command → Command → Bool
all_well before c = true

abbrev sample_options : Options
sample_options = record {
  project_dir = codes "/app";
  scripts =
      (codes "test", codes "@lint" ∷ codes "phpunit" ∷ [])
      ∷ (codes "lint", codes "pint --test" ∷ [])
      ∷ [];
  extra_args = codes "-v" ∷ [];
}

abbrev sample_end : RunState
sample_end = record {
  commands = sh (codes "pint --test '-v'") ∷ sh (codes "phpunit '-v'") ∷ [];
  visited = [];
}

sample_ends : run_bodies all_well sample_options (codes "test") true ≡ finished sample_end
unfolding run_bodies posix_single_quote
sample_ends = refl

run_bodies-Expands_example :
    (bodies : List Bytes) × (lookup_script sample_options.scripts (codes "test") ≡ some bodies)
    × ExpandsAll sample_options bodies sample_end.commands
    × AllSucceed all_well [] sample_end.commands
run_bodies-Expands_example =
    run_bodies-Expands all_well sample_options (codes "test") sample_end sample_ends

-- The letter so many times.
abbrev letters : ℕ → Bytes
letters zero = []
letters (suc n) = b'a' ∷ letters n

-- So many scripts, each with a reference to the one before.
abbrev chain : ℕ → List (Bytes × List Bytes)
chain zero = []
chain (suc n) = (letters (suc n), (b'@' ∷ letters n) ∷ []) ∷ chain n

abbrev chain_options : Options
chain_options = record { project_dir = codes "/app"; scripts = chain 40; extra_args = [] }

abbrev state_of : Outcome → RunState
state_of (finished st) = st
state_of (stopped e st) = st

abbrev chain_end : RunState
unfolding run_bodies
chain_end = state_of (run_bodies all_well chain_options (letters 40) false)

chain_ends : run_bodies all_well chain_options (letters 40) false ≡ stopped too_deep chain_end
unfolding run_bodies
chain_ends = refl
