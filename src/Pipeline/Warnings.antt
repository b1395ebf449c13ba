-- ===== src/Pipeline/Warnings.antt =====
-- internal/orchestrator/pipeline.go: evaluatePlatformWarnings and what runFullPipeline does with its answer. A printed
-- line leaves out "gomposer: ". Go's %q is modelled on printable ASCII.
use gomposer.Prelude.{
  Bool, true, false, ◌||◌, Option, none, some, List, [], ◌∷◌, ◌++◌, ◌==◌, if◌then◌else◌,
}
use gomposer.Prelude.Bytes.{Bytes, codes}
use gomposer.Platform.{
  Platform, Violation, ViolationKind, wrong_version, missing, lib_ignored, unparseable, check,
}
use gomposer.Pipeline.Locked.{LockPackage}

unfoldable pub escape_quoted : Bytes → Bytes
escape_quoted [] = []
escape_quoted (c ∷ s) =
    let rest = escape_quoted s in if c == b'"' || c == b'\\' then b'\\' ∷ c ∷ rest else c ∷ rest

abbrev pub quoted : Bytes → Bytes
unfolding escape_quoted
quoted s = b'"' ∷ (escape_quoted s ++ b'"' ∷ [])

-- What formatViolation writes behind the requirement.
abbrev pub reason : ViolationKind → Bytes → Bytes
reason missing have = codes " but " ++ have
reason wrong_version have = codes " (have " ++ (have ++ codes ")")
reason unparseable have = codes " (unparseable constraint)"
reason lib_ignored have = []

unfoldable pub format_violation : Bytes → Violation → Bytes
unfolding escape_quoted
format_violation pkg v =
    pkg ++ (codes " requires " ++ (v.req ++ 32 ∷ (quoted v.constraint ++ reason v.kind v.have)))

abbrev pub is_lib : Violation → Bool
is_lib v = elim v.kind [ lib_ignored ↦ true | _ ↦ false ]

-- The loop over the violations of a package: the lines, and whether a lib-* requirement came up.
unfoldable pub lines_of : Bytes → List Violation → List Bytes × Bool
unfolding format_violation
lines_of pkg [] = ([], false)
lines_of pkg (v ∷ vs) =
    let (lines, saw_lib) = lines_of pkg vs in
    if is_lib v then (lines, true) else (format_violation pkg v ∷ lines, saw_lib)

unfoldable pub violation_lines :
    Option Platform → (Bytes → Bool) → List LockPackage → List Bytes × Bool
unfolding lines_of
violation_lines pf ignored [] = ([], false)
violation_lines pf ignored (p ∷ ps) =
    let (here, lib_here) = lines_of p.name (check p.requires pf ignored) in
    let (later, lib_later) = violation_lines pf ignored ps in (here ++ later, lib_here || lib_later)

abbrev pub lib_line : List Bytes
lib_line = codes "ignoring lib-* platform requirements (not implemented)" ∷ []

-- The warnings and, where they are fatal, the violations of evaluatePlatformWarnings.
pub record Evaluation : Type 0 where
  pub warnings : List Bytes
  pub hard_fails : Option (List Bytes)

abbrev pub fatal : Bool → List Bytes → Option (List Bytes)
fatal true (l ∷ ls) = some (l ∷ ls)
fatal _ _ = none

unfoldable pub evaluate_platform_warnings :
    List LockPackage → Option Platform → (Bytes → Bool) → Bool → Evaluation
unfolding violation_lines
evaluate_platform_warnings pkgs none ignored no_dev = record { warnings = []; hard_fails = none }
evaluate_platform_warnings pkgs (some pf) ignored no_dev =
    let (lines, saw_lib) = violation_lines (some pf) ignored pkgs in
    record {
      warnings = lines ++ (if saw_lib then lib_line else []);
      hard_fails = fatal no_dev lines;
    }

-- The lines that runFullPipeline prints: those of this evaluation, or those kept in the lock file. With a rich progress a
-- fatal evaluation prints nothing.
unfoldable pub printed_lines : Bool → Bool → Bool → List Bytes → Evaluation → List Bytes
printed_lines quiet rich no_dev kept ev = if quiet then [] else elim ev.hard_fails [
  | some fails ↦ if rich then [] else ev.warnings
  | none ↦ elim ev.warnings [ [] ↦ if no_dev then [] else kept | l ∷ ls ↦ l ∷ ls ]
]

-- lockFile.Warnings after the evaluation
unfoldable pub kept_warnings : List Bytes → List Bytes → List Bytes
kept_warnings kept [] = kept
kept_warnings kept (l ∷ ls) = l ∷ ls
