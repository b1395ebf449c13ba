-- ===== src/Pipeline/LockLast.antt =====
-- runFullPipeline, runEmptyUpdate and run replace the lock file last.
use gomposer.Prelude.{
  Bool, true, false, not, ◌||◌, Option, none, some, List, [], refl, Bool-cases, inl, inr,
  if◌then◌else◌,
}
use gomposer.Prelude.Bytes.{Bytes}
use gomposer.Plugins.{inspect}
use gomposer.Pipeline.Locked.{LockFile, installed_packages, non_workspace_packages}
use gomposer.Pipeline.Effects.{
  pre_update, done, Host, deps_failed, network_needed, platform_unsatisfied,
}
use gomposer.Pipeline.Warnings.{evaluate_platform_warnings, printed_lines, kept_warnings}
use gomposer.Pipeline.Resolving.{
  PipelineOptions, RootManifest, PipelineState, is_ignored, build_lock_file,
}
use gomposer.Pipeline.Phases.{plugin_lines}
use gomposer.Pipeline.Full.{
  pre_command, wired, default_deps, backfilled, install_packages, unless_fatal, check_and_install,
  run_full_pipeline, run_empty_update, without_lock, requires_nothing, run_pipeline,
}
use gomposer.Pipeline.Traces.{IsQuiet, IsQuiet-returned, IsQuiet-raised}
use gomposer.Pipeline.Quiet.{
  IsQuiet-fire_phase, IsQuiet-print_lines, IsQuiet-fetch_all, IsQuiet-materialize_all,
  IsQuiet-link_workspaces, IsQuiet-prune_vendor,
}
use gomposer.Pipeline.QuietStart.{IsQuiet-new_pipeline_state, IsQuiet-resolve_or_cache}
use gomposer.Pipeline.Order.{
  LockLast, IsLockLast, IsLockLast->>=, IsLockLast-finish, IsLockLast-if, IsLockLast-quiet,
}

module _ (h : Host) where
  IsLockLast-install_packages :
      (ps : PipelineState) (force : Bool) (f : LockFile)
      → IsLockLast force (install_packages h ps force f)
  unfolding install_packages
  IsLockLast-install_packages ps force f =
      let all = installed_packages ps.opts.no_dev f in
      let fetchable = non_workspace_packages all in
      IsLockLast->>= (IsQuiet-fetch_all h fetchable) (λ keys.
        IsLockLast->>= (IsQuiet-materialize_all h ps.opts.project_dir fetchable keys) (λ u.
          IsLockLast->>= (IsQuiet-link_workspaces h ps.opts.project_dir ps.workspaces) (λ v.
            IsLockLast->>= (IsQuiet-prune_vendor h ps.opts.project_dir ps.lock_bytes all)
              (λ w. IsLockLast-finish h ps.opts force (backfilled keys f) (backfilled keys f)))))

  pub IsQuiet-unless_fatal : (o : Option (List Bytes)) → IsQuiet (unless_fatal h o)
  IsQuiet-unless_fatal none = IsQuiet-returned tt
  IsQuiet-unless_fatal (some fails) = IsQuiet-raised (platform_unsatisfied fails)

  IsLockLast-check_and_install :
      (ps : PipelineState) (force : Bool) (found : LockFile × Bool)
      → IsLockLast force (check_and_install h ps force found)
  unfolding check_and_install
  IsLockLast-check_and_install ps force (f, from_cache) =
      let opts = ps.opts in
      let ev =
        evaluate_platform_warnings (installed_packages opts.no_dev f) ps.platform
          (is_ignored opts.ignore_platform_reqs) opts.no_dev in
      IsLockLast->>=
        (IsQuiet-print_lines h
          (if opts.quiet then [] else plugin_lines (inspect f ps.manifest.extra)))
        (λ u.
          IsLockLast->>=
            (IsQuiet-print_lines h (printed_lines opts.quiet opts.rich opts.no_dev f.warnings ev))
            (λ v. IsLockLast->>= (IsQuiet-unless_fatal ev.hard_fails) (λ w.
              IsLockLast-install_packages ps force
                (record f { warnings = kept_warnings f.warnings ev.warnings }))))

  IsQuiet-default_deps : (opts : PipelineOptions) → IsQuiet (default_deps h opts)
  unfolding default_deps
  IsQuiet-default_deps opts = elim (Bool-cases h.wires_deps) [
    | inl s ↦ rw (default_deps, s) (IsQuiet-returned (wired opts))
    | inr s ↦ rw (default_deps, s) (IsQuiet-raised deps_failed)
  ]

  IsLockLast-run_full_pipeline :
      (opts : PipelineOptions) (m : RootManifest) (force : Bool)
      → IsLockLast force (run_full_pipeline h opts m force)
  unfolding run_full_pipeline
  IsLockLast-run_full_pipeline opts m force = IsLockLast->>= (IsQuiet-default_deps opts) (λ o.
      IsLockLast->>= (IsQuiet-fire_phase h o (pre_command force)) (λ u.
        IsLockLast->>= (IsQuiet-new_pipeline_state h o m) (λ ps.
          IsLockLast->>= (IsQuiet-resolve_or_cache h ps force)
            (IsLockLast-check_and_install ps force))))

  IsLockLast-run_empty_update :
      (opts : PipelineOptions) (m : RootManifest) → IsLockLast true (run_empty_update h opts m)
  unfolding run_empty_update
  IsLockLast-run_empty_update opts m =
      let o : PipelineOptions = record opts {
        has_scripts = opts.has_scripts || not opts.no_scripts;
      } in
      IsLockLast->>= (IsQuiet-fire_phase h o pre_update) (λ u.
        IsLockLast->>= (IsQuiet-new_pipeline_state h o m) (λ ps.
          IsLockLast->>= (IsQuiet-prune_vendor h opts.project_dir ps.lock_bytes [])
            (λ v. IsLockLast-finish h o true without_lock (build_lock_file h ps ([], [])))))

  without_requirements :
      (opts : PipelineOptions) (m : RootManifest) (force : Bool)
      → IsLockLast force (if force then run_empty_update h opts m else done tt)
  without_requirements opts m true = IsLockLast-run_empty_update opts m
  without_requirements opts m false = IsLockLast-quiet (IsQuiet-returned tt)

  -- Whatever fails in install or update, on every host: the lock file has not been replaced, unless what fails is the
  -- replacing itself or the script of the last event, behind it.
  pub run_pipeline-LockLast :
      (opts : PipelineOptions) (m : RootManifest) (force : Bool)
      → LockLast force (run_pipeline h opts m force [])
  unfolding run_pipeline
  run_pipeline-LockLast opts m force =
      (IsLockLast-if (requires_nothing m) (without_requirements opts m force) (
          IsLockLast-if opts.no_network (IsLockLast-quiet (IsQuiet-raised network_needed))
            (IsLockLast-run_full_pipeline opts m force))).ends
        [] refl
