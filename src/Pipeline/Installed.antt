-- ===== src/Pipeline/Installed.antt =====
-- What a run of the full pipeline that returned has done.
use mathlib.Core.Path.{subst}
use gomposer.Prelude.{Bool, List, [], ◌≡◌, sym, ap, Bool-cases, inl, inr, All, arith}
use gomposer.Prelude.Bytes.{Bytes}
use gomposer.Table.{Table}
use gomposer.Pipeline.Locked.{LockFile, installed_packages, non_workspace_packages}
use gomposer.Pipeline.Effects.{Action, Ending, returned, raised, Host}
use gomposer.Pipeline.Resolving.{
  PipelineOptions, RootManifest, PipelineState, new_pipeline_state, state_of, resolve_or_cache,
}
use gomposer.Pipeline.Phases.{fetch_all, link_workspaces, prune_vendor}
use gomposer.Pipeline.Full.{
  wired, default_deps, backfilled, install_packages, check_and_install, run_full_pipeline,
}
use gomposer.Pipeline.Traces.{GrowsTo, GrowsTo-trans, >>=-returned}
use gomposer.Pipeline.Quiet.{
  IsQuiet-print_lines, IsQuiet-fetch_all, IsQuiet-link_workspaces, IsQuiet-prune_vendor,
}
use gomposer.Pipeline.QuietStart.{IsQuiet-new_pipeline_state, IsQuiet-resolve_or_cache}
use gomposer.Pipeline.LockLast.{IsQuiet-unless_fatal}
use gomposer.Pipeline.Extracted.{
  returned_from, IsExtracted, materialize_all-returned, Finished, finish-returned,
}

module _ (h : Host) where
  -- What is done behind `tr`, in this order: all packages of the lock file `answer`, those for development where these are
  -- included, are fetched and extracted; the workspaces are linked and what is old is pruned; and the run is finished with
  -- this lock file, with the fetched keys and some warnings.
  pub record Installed (ps : PipelineState) (answer : LockFile) (tr t : List Action) : Type 0 where
    pub store_keys : Table Bytes
    pub warnings : List Bytes
    pub at_fetch : List Action
    pub at_extract : List Action
    pub at_link : List Action
    pub at_prune : List Action
    pub at_finish : List Action
    pub before_fetch : GrowsTo tr at_fetch
    pub fetched :
        fetch_all h (non_workspace_packages (installed_packages ps.opts.no_dev answer)) at_fetch
        ≡ returned store_keys at_extract
    pub after_fetch : GrowsTo at_fetch at_extract
    pub extracted :
        All
          (IsExtracted h ps.opts.project_dir store_keys at_extract at_link)
          (non_workspace_packages (installed_packages ps.opts.no_dev answer))
    pub linked : link_workspaces h ps.opts.project_dir ps.workspaces at_link ≡ returned tt at_prune
    pub after_link : GrowsTo at_link at_prune
    pub pruned :
        prune_vendor h ps.opts.project_dir ps.lock_bytes
          (installed_packages ps.opts.no_dev answer)
          at_prune
        ≡ returned tt at_finish
    pub after_prune : GrowsTo at_prune at_finish
    pub finished :
        Finished h ps.opts
          (backfilled store_keys (record answer { warnings = warnings }))
          (backfilled store_keys (record answer { warnings = warnings }))
          at_finish
          t

  install_packages-returned :
      (ps : PipelineState) (force : Bool) (answer : LockFile) (warnings : List Bytes)
      (from tr t : List Action)
      → GrowsTo from tr
      → install_packages h ps force (record answer { warnings = warnings }) tr ≡ returned tt t
      → Installed ps answer from t
  unfolding install_packages installed_packages
  install_packages-returned ps force answer warnings from tr t g p =
      let f : LockFile = record answer { warnings = warnings } in
      let dir = ps.opts.project_dir in
      let all = installed_packages ps.opts.no_dev f in
      let fetchable = non_workspace_packages all in
      let (keys, t1, r1, p1) = >>=-returned _ _ tr t tt p in
      let (u2, t2, r2, p2) = >>=-returned _ _ t1 t tt p1 in
      let (u3, t3, r3, p3) = >>=-returned _ _ t2 t tt p2 in
      let (u4, t4, r4, p4) = >>=-returned _ _ t3 t tt p3 in
      record {
        store_keys = keys;
        warnings = warnings;
        at_fetch = tr;
        at_extract = t1;
        at_link = t2;
        at_prune = t3;
        at_finish = t4;
        before_fetch = g;
        fetched = r1;
        after_fetch = returned_from _ tr t1 keys (IsQuiet-fetch_all h fetchable) r1;
        extracted = materialize_all-returned h dir fetchable keys t1 t2 r2;
        linked = r3;
        after_link = returned_from _ t2 t3 u3 (IsQuiet-link_workspaces h dir ps.workspaces) r3;
        pruned = r4;
        after_prune = returned_from _ t3 t4 u4 (IsQuiet-prune_vendor h dir ps.lock_bytes all) r4;
        finished = finish-returned h ps.opts force (backfilled keys f) (backfilled keys f) t4 t p4;
      }

  check_and_install-returned :
      (ps : PipelineState) (force : Bool) (found : LockFile × Bool) (tr t : List Action)
      → check_and_install h ps force found tr ≡ returned tt t
      → Installed ps found.0 tr t
  unfolding check_and_install
  check_and_install-returned ps force (f, from_cache) tr t p =
      let (u1, t1, r1, p1) = >>=-returned _ _ tr t tt p in
      let (u2, t2, r2, p2) = >>=-returned _ _ t1 t tt p1 in
      let (u3, t3, r3, p3) = >>=-returned _ _ t2 t tt p2 in
      let g1 = returned_from _ tr t1 u1 (IsQuiet-print_lines h _) r1 in
      let g2 = returned_from _ t1 t2 u2 (IsQuiet-print_lines h _) r2 in
      let g3 = returned_from _ t2 t3 u3 (IsQuiet-unless_fatal h _) r3 in
      install_packages-returned ps force f _ tr t3 t
        (GrowsTo-trans tr t1 t3 g1 (GrowsTo-trans t1 t2 t3 g2 g3)) p3

  new_pipeline_state-opts :
      (opts : PipelineOptions) (m : RootManifest) (tr t : List Action) (ps : PipelineState)
      → new_pipeline_state h opts m tr ≡ returned ps t
      → ps.opts ≡ opts
  unfolding new_pipeline_state state_of
  new_pipeline_state-opts opts m tr t ps p =
      let (text, t1, r1, p1) = >>=-returned _ _ tr t ps p in
      let (pf, t2, r2, p2) = >>=-returned _ _ t1 t ps p1 in
      let (ws, t3, r3, p3) = >>=-returned _ _ t2 t ps p2 in
      let (aggregate, t4, r4, p4) = >>=-returned _ _ t3 t ps p3 in sym (ap (λ o. opts_of o) p4)
    where
      opts_of : Ending PipelineState → PipelineOptions
      opts_of (returned s tr) = s.opts
      opts_of (raised e tr) = opts

  default_deps-returned :
      (opts o : PipelineOptions) (tr t : List Action)
      → default_deps h opts tr ≡ returned o t
      → o ≡ wired opts
  unfolding default_deps
  default_deps-returned opts o tr t p = elim (Bool-cases h.wires_deps) [
    | inl w ↦ sym (ap (λ x. chosen x) (rw (default_deps, w) at p))
    | inr w ↦ let absurd = rw (default_deps, w) at p in ground (arith, absurd)
  ]
    where
      chosen : Ending PipelineOptions → PipelineOptions
      chosen (returned s tr) = s
      chosen (raised e tr) = opts

  -- What the full pipeline does where it returns, in this order.
  pub record Ran (opts : PipelineOptions) (m : RootManifest) (force : Bool) (t : List Action)
      : Type 0 where
    pub state : PipelineState
    pub at_state : List Action
    pub at_answer : List Action
    pub at_install : List Action
    pub lock_answer : LockFile
    pub cached : Bool
    pub started : new_pipeline_state h opts m at_state ≡ returned state at_answer
    pub options : state.opts ≡ opts
    pub after_state : GrowsTo at_state at_answer
    pub resolution :
        resolve_or_cache h state force at_answer ≡ returned (lock_answer, cached) at_install
    pub after_answer : GrowsTo at_answer at_install
    pub installed : Installed state lock_answer at_install t

  -- Where the full pipeline returns, on any host and for install and update, these were done one behind the other: it has
  -- made its state and a lock file by resolveOrCache; fetchAll has answered a key for the packages of this lock file that
  -- are not workspaces, with those for development unless they are left out; behind that each of these was extracted into
  -- its directory with its key; behind all of these the workspaces were linked and vendor/ pruned; behind that the
  -- autoloader was generated for this lock file with the keys filled in, up to its warnings; behind that the encoding of
  -- the same lock file was written and, as the next step, put in its place. Each extraction, the generation, the writing
  -- and the replacing succeeded.
  pub run_full_pipeline-returned :
      (opts : PipelineOptions) (m : RootManifest) (force : Bool) (t : List Action)
      → run_full_pipeline h opts m force [] ≡ returned tt t
      → Ran (wired opts) m force t
  unfolding run_full_pipeline
  run_full_pipeline-returned opts m force t p =
      let (o, t1, r1, p1) = >>=-returned _ _ [] t tt p in
      let (u2, t2, r2, p2) = >>=-returned _ _ t1 t tt p1 in
      let (ps, t3, r3, p3) = >>=-returned _ _ t2 t tt p2 in
      let (found, t4, r4, p4) = >>=-returned _ _ t3 t tt p3 in
      subst (λ x. Ran x m force t) (default_deps-returned opts o [] t1 r1)
        (record {
          state = ps;
          at_state = t2;
          at_answer = t3;
          at_install = t4;
          lock_answer = found.0;
          cached = found.1;
          started = r3;
          options = new_pipeline_state-opts o m t2 t3 ps r3;
          after_state = returned_from _ t2 t3 ps (IsQuiet-new_pipeline_state h o m) r3;
          resolution = r4;
          after_answer = returned_from _ t3 t4 found (IsQuiet-resolve_or_cache h ps force) r4;
          installed = check_and_install-returned ps force found t4 t p4;
        })
