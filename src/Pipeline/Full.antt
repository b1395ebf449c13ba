-- ===== src/Pipeline/Full.antt =====
-- internal/orchestrator/pipeline.go and orchestrator.go: runFullPipeline, runEmptyUpdate and run. The speculative prefetches,
-- the progress and the timings are left out.
use gomposer.Prelude.{
  Bool, true, false, not, ◌&&◌, ◌||◌, Option, none, some, List, [], ◌∷◌, if◌then◌else◌,
}
use gomposer.Prelude.Bytes.{Bytes}
use gomposer.Table.{Table}
use gomposer.Plugins.{inspect}
use gomposer.Pipeline.Locked.{LockFile, backfill_sha, non_workspace_packages, installed_packages}
use gomposer.Pipeline.Effects.{
  Event, pre_install, post_install, pre_update, post_update, pre_autoload_dump, post_autoload_dump,
  AutoloadRequest, Run, done, fail, ◌>>=◌, Host, deps_failed, platform_unsatisfied, network_needed,
}
use gomposer.Pipeline.Warnings.{evaluate_platform_warnings, printed_lines, kept_warnings}
use gomposer.Pipeline.Resolving.{
  PipelineOptions, RootManifest, PipelineState, is_ignored, new_pipeline_state, build_lock_file,
  resolve_or_cache,
}
use gomposer.Pipeline.Phases.{
  plugin_lines, fire_phase, print_lines, fetch_all, materialize_all, link_workspaces, prune_vendor,
  generate_autoloader, write_lock,
}

unfoldable pub pre_command : Bool → Event
pre_command force = if force then pre_update else pre_install

unfoldable pub post_command : Bool → Event
post_command force = if force then post_update else post_install

-- newAutoloadRequest
unfoldable pub new_autoload_request : PipelineOptions → LockFile → AutoloadRequest
new_autoload_request opts f = record {
  project_dir = opts.project_dir;
  lock_file = f;
  include_dev = not opts.no_dev;
}

-- The lock file with the keys of what was fetched.
unfoldable pub backfilled : Table Bytes → LockFile → LockFile
unfolding backfill_sha
backfilled keys f = record f {
  packages = backfill_sha f.packages keys;
  packages_dev = backfill_sha f.packages_dev keys;
}

-- &lock.File{} with the fields that runEmptyUpdate's request reads
abbrev pub without_lock : LockFile
without_lock = record {
  schema_version = 0;
  generator = record { name = []; version = [] };
  manifest_content_hash = [];
  platform_fingerprint = [];
  stability = record { minimum_stability = []; prefer_stable = false };
  packages = [];
  packages_dev = [];
  aliases = [];
  warnings = [];
}

unfoldable pub is_empty_list {ℓ} : {A : Type ℓ} → List A → Bool
is_empty_list [] = true
is_empty_list (x ∷ xs) = false

unfoldable pub requires_nothing : RootManifest → Bool
unfolding is_empty_list
requires_nothing m =
    is_empty_list m.project.requires
    && is_empty_list m.project.requires_dev
    && is_empty_list m.workspaces

-- What defaultDeps sets in the options.
unfoldable pub wired : PipelineOptions → PipelineOptions
wired opts = record opts {
  has_source = true;
  has_scripts = opts.has_scripts || not opts.no_scripts;
}

module _ (h : Host) where
  unfoldable pub default_deps : PipelineOptions → Run PipelineOptions
  unfolding wired
  default_deps opts = if h.wires_deps then done (wired opts) else fail deps_failed

  -- The tail that runFullPipeline and runEmptyUpdate share: the autoloader, then the lock file. `f` is what the request
  -- has, `written` what is written.
  unfoldable pub finish : PipelineOptions → Bool → LockFile → LockFile → Run (Unit {0})
  unfolding fire_phase generate_autoloader new_autoload_request write_lock post_command
  finish opts force f written = fire_phase h opts pre_autoload_dump >>= λ u.
      generate_autoloader h (new_autoload_request opts f) >>= λ v.
      fire_phase h opts post_autoload_dump >>= λ w.
      write_lock h written >>= λ x. fire_phase h opts (post_command force)

  -- The part of runFullPipeline behind the evaluation of the platform requirements.
  unfoldable pub install_packages : PipelineState → Bool → LockFile → Run (Unit {0})
  unfolding installed_packages non_workspace_packages fetch_all materialize_all link_workspaces
      prune_vendor finish backfilled
  install_packages ps force f =
      let all = installed_packages ps.opts.no_dev f in
      let fetchable = non_workspace_packages all in
      fetch_all h fetchable >>= λ keys.
      materialize_all h ps.opts.project_dir fetchable keys >>= λ u.
      link_workspaces h ps.opts.project_dir ps.workspaces >>= λ v.
      prune_vendor h ps.opts.project_dir ps.lock_bytes all >>= λ w.
      finish ps.opts force (backfilled keys f) (backfilled keys f)

  abbrev pub unless_fatal : Option (List Bytes) → Run (Unit {0})
  unless_fatal none = done tt
  unless_fatal (some fails) = fail (platform_unsatisfied fails)

  -- The part of runFullPipeline behind resolveOrCache.
  unfoldable pub check_and_install : PipelineState → Bool → LockFile × Bool → Run (Unit {0})
  unfolding inspect plugin_lines print_lines evaluate_platform_warnings printed_lines kept_warnings
      installed_packages is_ignored install_packages
  check_and_install ps force (f, from_cache) =
      let opts = ps.opts in
      let ev =
        evaluate_platform_warnings (installed_packages opts.no_dev f) ps.platform
          (is_ignored opts.ignore_platform_reqs) opts.no_dev in
      print_lines h (if opts.quiet then [] else plugin_lines (inspect f ps.manifest.extra)) >>= λ u.
      print_lines h (printed_lines opts.quiet opts.rich opts.no_dev f.warnings ev) >>= λ v.
      unless_fatal ev.hard_fails >>= λ w.
      install_packages ps force (record f { warnings = kept_warnings f.warnings ev.warnings })

  unfoldable pub run_full_pipeline : PipelineOptions → RootManifest → Bool → Run (Unit {0})
  unfolding default_deps fire_phase pre_command new_pipeline_state resolve_or_cache
      check_and_install
  run_full_pipeline opts m force = default_deps opts >>= λ opts'.
      fire_phase h opts' (pre_command force) >>= λ u. new_pipeline_state h opts' m >>= λ ps.
      resolve_or_cache h ps force >>= λ found. check_and_install ps force found

  -- runEmptyUpdate, with the runner of the scripts that it sets
  unfoldable pub run_empty_update : PipelineOptions → RootManifest → Run (Unit {0})
  unfolding fire_phase new_pipeline_state prune_vendor finish build_lock_file
  run_empty_update opts m =
      let opts' : PipelineOptions = record opts {
        has_scripts = opts.has_scripts || not opts.no_scripts;
      } in
      fire_phase h opts' pre_update >>= λ u. new_pipeline_state h opts' m >>= λ ps.
      prune_vendor h opts.project_dir ps.lock_bytes [] >>= λ v.
      finish opts' true without_lock (build_lock_file h ps ([], []))

  -- run
  unfoldable pub run_pipeline : PipelineOptions → RootManifest → Bool → Run (Unit {0})
  unfolding requires_nothing run_empty_update run_full_pipeline
  run_pipeline opts m force =
      if requires_nothing m
      then (if force then run_empty_update opts m else done tt)
      else if opts.no_network
      then fail network_needed
      else run_full_pipeline opts m force
