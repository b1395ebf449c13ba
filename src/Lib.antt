-- ===== src/Lib.antt =====
-- gomposer: a model of the version constraints, the platform check, the solver and some smaller parts of gomposer, a
-- package manager for PHP that is written in Go.
--
-- A manifest asks for packages by constraints. internal/constraint parses versions and constraints and tells which
-- versions satisfy a constraint. internal/resolver chooses a version of each package in the manner of PubGrub: it
-- keeps a partial solution and a list of incompatibilities, propagates, resolves conflicts by going back to an
-- earlier level, and decides the next package with the versions that the registry lists. internal/platform compares
-- the requirements on PHP and its extensions with the runtime. internal/orchestrator merges a root manifest with its
-- workspaces before the solver runs, internal/auth finds the credentials for a host, internal/autoload lists the classes
-- of PHP files for the class map, internal/scripts runs the scripts of the manifest, and the command why of internal/cli
-- explains from the lock file who requires a package. The pipeline of internal/orchestrator runs install and update: it takes
-- or makes a lock file, fetches and extracts its packages below vendor/, removes what the old lock file had, generates the
-- autoloader and writes the new lock file, and runs the scripts of the manifest in between.
--
-- Where the code is modelled:
-- - Prelude, Strings and Sort: Go's int, strings as lists of byte codes, strconv.Atoi, and the packages strings and
--   sort as far as the code uses them. A map from strings is a list of its entries, in the order of one walk over
--   it, or a function from names. sort.Slice is taken to be stable.
-- - Constraint.Version and Constraint.Compare: internal/constraint/version.go, ParseVersion, classifyPre, Compare
--   and Equal.
-- - Constraint.Term, Constraint.Expand and Constraint.Parse: internal/constraint/constraint.go, Parse, the expansion
--   of the shorthands to terms, and Satisfies.
-- - Platform: internal/platform/check.go and the lookups and the fingerprint of internal/platform/platform.go.
-- - Resolver.Term, Resolver.Incompatibility, Resolver.Solution, Resolver.Propagate, Resolver.Conflict,
--   Resolver.Decide, Resolver.Versions, Resolver.Solve and Resolver.Result: the files term.go, incompatibility.go, assignment.go,
--   propagate.go, conflict.go, decide.go, versions.go and solve.go of internal/resolver. What a Go function changes
--   by a pointer it takes and returns here: the partial solution, the incompatibilities and the version lister.
-- - Resolver.Render: internal/resolver/render.go and error.go, the clauses made of one incompatibility, the causes at the
--   leaves of a conflict and writeWrapped.
-- - Workspaces: BuildAggregateManifest of internal/orchestrator/workspace_aggregate.go.
-- - Autoload.Tokens and Autoload.Scan: internal/autoload/phpscan.go, next and the loop of scanClasses. What is left of
--   the text stands for the scanner's position.
-- - Scripts.Quote and Scripts.Run: internal/scripts/exec.go and scripts.go. The two regular expressions are matchers
--   written out, and the state is the list of the subprocesses started and the references being expanded.
-- - Table and Auth: maps from strings, and internal/auth/store.go with the records of file.go and gitUserToken of
--   git_askpass.go.
-- - Why, Why.Load, Why.Restrict, Why.Dependents and Why.Tree: internal/cli/why.go, from the loaded files on.
-- - Pipeline.Locked and Plugins: internal/lock/lock.go with backfillSha and nonWorkspacePackages of
--   internal/orchestrator/pipeline.go, and internal/plugins/plugins.go.
-- - Vendor.Paths: vendorPath and safeVendorPackagePath of internal/orchestrator/pipeline.go. A cleaned path is the list of
--   its names, on Unix.
-- - Pipeline.Effects: what a run does, as a list of actions that grows. A step takes the list and returns with a longer one
--   or raises an error; Go's `if err != nil { return err }` is the bind.
-- - Pipeline.CacheKey, Pipeline.Warnings, Pipeline.Resolving, Pipeline.Phases and Pipeline.Full: cachekey.go,
--   workspace_symlink.go, pipeline.go and orchestrator.go of internal/orchestrator, and workspaceLockPackages of
--   workspace_aggregate.go. Resolving has newPipelineState and resolveOrCache, Phases the steps that change the
--   project, Full their order. Jobs that run at the same time are taken one after the other, in the order of the packages,
--   and go on after one of them has failed.
-- The other modules hold the theorems on these, Resolver.Meaning says what terms mean for a choice of versions, and
-- the modules named Samples run the code on concrete inputs.
--
-- Bounds and fuel: an int has 64 bits, and an increment wraps around. glueOperatorSpaces has fuel for each byte of
-- its text, which is enough as each round reads one. propagate has fuel for each term twice and one round more,
-- which is enough. conflictResolution takes its fuel as an argument, since its loop need not end, and
-- the main loop of Solve takes the number of its steps, which the code sets to 100000; the outcome `stuck` is that
-- of fuel that ran out. The walk of computeDevOnlySet has fuel for each requirement and each
-- assignment, which is enough.
-- Each loop of the PHP scanner with fuel has it for the bytes that are left, which is enough as each round reads one; its
-- end would be an error of its own. runOne goes
-- down on the 33 levels that maxRefDepth leaves. The loops of why have fuel for the edges or the targets of the graph
-- and two rounds or one more, which is enough.
--
-- Parameters: the registry is a function from package names to rows or to the messages of an error. The success of a
-- subprocess is a function of those before it and of its command, base64 and the value that SetBasicAuth sets are
-- functions of their texts, and so is the verb %q of fmt for the resolver. A run of the pipeline has a host: a record that
-- tells, for what was done before, which action succeeds, what a file holds, which key a fetch gives, what the probe, the
-- discovery of workspaces and the resolver answer, and what encoding/json and crypto/sha256 give.
--
-- Not modelled: the texts of errors beyond what they quote, the callbacks and the timings that report progress, the probe
-- that runs PHP, the labels in the rendering of conflicts, the deadline of scripts, the files of credentials and their
-- permissions, the padded and JSON output of why, the speculative prefetches, which change nothing but caches, the autoload
-- and suggest maps of the lock file, and the parts that read and write files or talk to registries: manifest, store,
-- fetcher, cache, registry, and the rest of autoload, orchestrator and cli of internal, and cmd.
pub mod Prelude
pub mod Strings
pub mod Constraint
pub mod Sort
pub mod Platform
pub mod Resolver
pub mod Autoload
pub mod Workspaces
pub mod Scripts
pub mod Table
pub mod Auth
pub mod Why
pub mod Vendor
pub mod Pipeline
pub mod Plugins
