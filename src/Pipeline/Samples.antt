-- ===== src/Pipeline/Samples.antt =====
-- internal/orchestrator/pipeline.go on a concrete project and host.
use gomposer.Prelude.{
  String, true, false, none, some, List, [], ◌∷◌, ◌≡◌, ◌↔◌, ◌⊎◌, refl, All, if◌then◌else◌, arith,
}
use gomposer.Prelude.Bytes.{Bytes, codes}
use gomposer.Prelude.Int.{pos}
use gomposer.Strings.{eq}
use gomposer.Constraint.Version.{numeric, stable}
use gomposer.Platform.{Platform}
use gomposer.Plugins.{no_fields}
use gomposer.Pipeline.Locked.{LockPackage, LockFile}
use gomposer.Pipeline.Effects.{Action, Host, Ending, returned, raised}
use gomposer.Pipeline.Resolving.{
  PipelineOptions, RootManifest, PipelineState, existing_lock, resolve_or_cache,
}
use gomposer.Pipeline.Phases.{fetch_all, materialize_all, prune_vendor}
use gomposer.Pipeline.Full.{wired, run_full_pipeline, run_pipeline}
use gomposer.Pipeline.Traces.{trace}
use gomposer.Pipeline.LockLast.{run_pipeline-LockLast}
use gomposer.Pipeline.Order.{LockLast}
use gomposer.Pipeline.Effects.{fetch, materialize_failed}
use gomposer.Pipeline.Pruning.{GoesOn, IsPruning, prune_vendor_only, IsGone, prune_vendor-returned}
use gomposer.Pipeline.Answers.{Answered, resolve_or_cache-Answered}
use gomposer.Pipeline.Fetched.{OnRaised, fetched-OnRaised}
use gomposer.Pipeline.CacheKey.{cache_key_text, cache_key_text-inj}
use gomposer.Pipeline.Warnings.{evaluate_platform_warnings, lib_line}
use gomposer.Pipeline.Evaluation.{
  Some, HasLine, NamesLib, HasOnlyLibs, evaluate_platform_warnings_iff,
}
use mathlib.Core.List.{Memᴰ}
use gomposer.Pipeline.Installed.{Ran, run_full_pipeline-returned}

abbrev locked : String → LockPackage
locked name = record {
  name = codes name;
  version = codes "1.0.0";
  version_normalized = codes "1.0.0.0";
  kind = codes "library";
  source = record { kind = codes "git"; url = []; ref = [] };
  dist = record { kind = codes "zip"; url = codes "https://example.org"; sha256 = [] };
  requires = (codes "psr/log", codes "^3") ∷ [];
}

abbrev lock_of : List LockPackage → LockFile
lock_of ps = record {
  schema_version = 1;
  generator = record { name = codes "gomposer"; version = codes "0.1.0" };
  manifest_content_hash = [];
  platform_fingerprint = [];
  stability = record { minimum_stability = []; prefer_stable = false };
  packages = ps;
  packages_dev = [];
  aliases = [];
  warnings = codes "old warning" ∷ [];
}

abbrev php : Platform
php = record {
  php_version = record (numeric (pos 8) (pos 2) (pos 0) stable) { original = codes "8.2.0" };
  extensions = [];
}

-- The text "L" is a lock file of one package; every action succeeds.
abbrev host : Host
unfolding eq
host = record {
  succeeds = λ tr a. true;
  fetched_key = λ tr p. some (codes "key");
  wires_deps = true;
  manifest_bytes = λ tr. some (codes "{}");
  lock_bytes = λ tr. codes "L";
  cached_bytes = λ tr key. none;
  probe = λ tr. some php;
  discover = λ tr. some [];
  workspace_bytes = λ tr dir. [];
  resolve = λ tr m pf ignored dev. none;
  unmarshal = λ text. if eq text (codes "L") then some (lock_of (locked "acme/lib" ∷ [])) else none;
  marshal = λ f. some (codes "new");
  sha256_hex = λ text. text;
}

abbrev options : PipelineOptions
options = record {
  project_dir = codes "/app";
  ignore_platform_reqs = [];
  no_dev = false;
  no_scripts = false;
  no_network = false;
  quiet = false;
  rich = false;
  has_source = false;
  has_scripts = false;
}

abbrev manifest : RootManifest
manifest = record {
  project = record {
    name = codes "acme/app";
    version = [];
    requires = (codes "acme/lib", codes "^1.0") ∷ [];
    requires_dev = [];
    minimum_stability = [];
    prefer_stable = false;
    repositories = [];
  };
  workspaces = [];
  extra = no_fields;
}

run_pipeline-LockLast_example : LockLast true (run_pipeline host options manifest true [])
run_pipeline-LockLast_example = run_pipeline-LockLast host options manifest true

installs :
    run_full_pipeline host options manifest false []
    ≡ returned tt (trace (run_full_pipeline host options manifest false []))
unfolding gomposer.Platform.is_platform_req gomposer.Platform.check_one gomposer.Platform.check
    gomposer.Pipeline.Effects.continue gomposer.Pipeline.Full.run_pipeline
installs = refl

run_full_pipeline-returned_example :
    Ran host
      (wired options)
      manifest
      false
      (trace (run_full_pipeline host options manifest false []))
run_full_pipeline-returned_example =
    run_full_pipeline-returned host options manifest false
      (trace (run_full_pipeline host options manifest false [])) installs

decodes : existing_lock host (codes "L") ≡ some (lock_of (locked "acme/lib" ∷ []))
unfolding existing_lock host
decodes = refl

prune_vendor_only_example :
    GoesOn
      (IsPruning (codes "/app") [] (locked "acme/lib" ∷ []))
      []
      (prune_vendor host (codes "/app") (codes "L") [] [])
prune_vendor_only_example =
    prune_vendor_only host (codes "/app") (codes "L") [] (lock_of (locked "acme/lib" ∷ [])) []
      decodes

prunes :
    prune_vendor host (codes "/app") (codes "L") [] []
    ≡ returned tt (trace (prune_vendor host (codes "/app") (codes "L") [] []))
unfolding prune_vendor gomposer.Pipeline.Effects.continue gomposer.Vendor.Paths.vendor_root
    gomposer.Vendor.Paths.vendor_path gomposer.Vendor.Paths.rel gomposer.Vendor.Paths.leaves
prunes = refl

prune_vendor-returned_example :
    All
      (IsGone host (codes "/app") [] (trace (prune_vendor host (codes "/app") (codes "L") [] [])))
      (locked "acme/lib" ∷ [])
prune_vendor-returned_example =
    prune_vendor-returned host (codes "/app") (codes "L") [] (lock_of (locked "acme/lib" ∷ [])) []
      (trace (prune_vendor host (codes "/app") (codes "L") [] [])) decodes prunes

abbrev state : PipelineState
state = record {
  opts = options;
  manifest = manifest;
  manifest_bytes = codes "{}";
  lock_bytes = codes "L";
  platform = some php;
  platform_text = [];
  cache_key = [];
  workspaces = [];
  aggregate = manifest.project;
}

found_there :
    resolve_or_cache host state false [] ≡ returned (lock_of (locked "acme/lib" ∷ []), true) []
unfolding resolve_or_cache
found_there = refl

resolve_or_cache-Answered_example :
    Answered host state false [] (lock_of (locked "acme/lib" ∷ []), true) []
    × ((lock_of (locked "acme/lib" ∷ [])).schema_version ≡ 1)
resolve_or_cache-Answered_example =
    resolve_or_cache-Answered host state false [] [] (lock_of (locked "acme/lib" ∷ []), true)
      found_there

fetches :
    fetch_all host (locked "acme/lib" ∷ []) []
    ≡ returned ((codes "acme/lib", codes "key") ∷ []) (fetch (locked "acme/lib") ∷ [])
unfolding fetch_all gomposer.Pipeline.Phases.fetch_each gomposer.Pipeline.Phases.fetch_one
    gomposer.Pipeline.Effects.continue
fetches = refl

fetched-OnRaised_example :
    OnRaised host
      (λ x. (p : LockPackage) × Memᴰ p (locked "acme/lib" ∷ []) × (x ≡ materialize_failed p.name))
      (materialize_all host
        (codes "/app")
        (locked "acme/lib" ∷ [])
        ((codes "acme/lib", codes "key") ∷ [])
        [])
fetched-OnRaised_example =
    fetched-OnRaised host (codes "/app") (locked "acme/lib" ∷ [])
      ((codes "acme/lib", codes "key") ∷ []) [] (fetch (locked "acme/lib") ∷ []) [] fetches

same_text : cache_key_text (codes "{}") (codes "L") [] ≡ cache_key_text (codes "{}") (codes "L") []
same_text = refl

cache_key_text-inj_example :
    (codes "{}" ≡ codes "{}") × (codes "L" ≡ codes "L") × (codes "" ≡ codes "")
cache_key_text-inj_example =
    cache_key_text-inj (codes "{}") (codes "L") [] (codes "{}") (codes "L") [] (omega arith)
      (omega arith) (omega arith) (omega arith) (omega arith) (omega arith) same_text

-- Lines for a requirement on the platform that is not met, and for one about a library.
abbrev demanding : LockPackage
demanding = record (locked "acme/lib") {
  requires = (codes "ext-intl", codes "*") ∷ (codes "lib-icu", codes "*") ∷ [];
}

evaluate_platform_warnings_iff_example :
    ((l : Bytes)
      → Memᴰ l (evaluate_platform_warnings (demanding ∷ []) (some php) (λ n. false) true).warnings
        ↔ (Some (HasLine (some php) (λ n. false) l) (demanding ∷ [])
            ⊎ (Some (NamesLib (some php) (λ n. false)) (demanding ∷ []) × Memᴰ l lib_line)))
    × (((evaluate_platform_warnings (demanding ∷ []) (some php) (λ n. false) true).hard_fails
          ≡ none)
        ↔ ((true ≡ false) ⊎ All (HasOnlyLibs (some php) (λ n. false)) (demanding ∷ [])))
evaluate_platform_warnings_iff_example =
    evaluate_platform_warnings_iff (demanding ∷ []) php (λ n. false) true
