-- ===== src/Pipeline/QuietStart.antt =====
-- Making the state and the lock file of a run, internal/orchestrator/pipeline.go, puts no lock file in its place.
use gomposer.Prelude.{
  Bool, true, false, not, Option, none, some, List, [], ◌∷◌, ◌≡◌, refl, Bool-cases, Option-cases,
  inl, inr,
}
use gomposer.Prelude.Bytes.{Bytes, codes}
use gomposer.Workspaces.{Project, Merged, merged, refused, build_aggregate_manifest}
use gomposer.Pipeline.Locked.{LockFile, decode}
use gomposer.Pipeline.Effects.{store_resolution, evict, Host, LocatedWorkspace, aggregate_failed}
use gomposer.Pipeline.Resolving.{
  PipelineOptions, RootManifest, PipelineState, is_ignored, plain_workspaces, probed, aggregated,
  read_manifest, discovered, state_of, new_pipeline_state, build_lock_file, load_resolution,
  solve_and_store, or_solve, existing_lock, resolve_or_cache,
}
use gomposer.Pipeline.Traces.{
  IsQuiet, IsQuiet-returned, IsQuiet-raised, QuietFrom-refl, IsQuiet->>=, IsQuiet-try,
}

module _ (h : Host) where
  IsQuiet-probed : (ignored : List Bytes) → IsQuiet (probed h ignored)
  unfolding probed
  IsQuiet-probed ignored = record {
    adds = λ tr. elim (Bool-cases (is_ignored ignored (codes "*"))) [
      | inl s ↦ rw (probed, s) (QuietFrom-refl tr)
      | inr s ↦ elim (Option-cases (h.probe tr)) [
        | inl p ↦ rw (probed, s, p) (QuietFrom-refl tr)
        | inr (x, p) ↦ rw (probed, s, p) (QuietFrom-refl tr)
      ]
    ];
  }

  IsQuiet-aggregated :
      (opts : PipelineOptions) (m : RootManifest) (ws : List LocatedWorkspace)
      → IsQuiet (aggregated h opts m ws)
  unfolding aggregated
  IsQuiet-aggregated opts m [] = IsQuiet-returned m.project
  IsQuiet-aggregated opts m (w ∷ ws) =
      go (build_aggregate_manifest m.project (plain_workspaces (w ∷ ws)) (not opts.no_dev)) refl
    where
      go :
          (o : Merged Project)
          → build_aggregate_manifest m.project (plain_workspaces (w ∷ ws)) (not opts.no_dev) ≡ o
          → IsQuiet (aggregated h opts m (w ∷ ws))
      go (merged p) e = rw (aggregated, e) (IsQuiet-returned p)
      go (refused x) e = rw (aggregated, e) (IsQuiet-raised (aggregate_failed x))

  IsQuiet-read_manifest : IsQuiet (read_manifest h)
  unfolding read_manifest
  IsQuiet-read_manifest = record {
    adds = λ tr. elim (Option-cases (h.manifest_bytes tr)) [
      | inl p ↦ rw (read_manifest, p) (QuietFrom-refl tr)
      | inr (x, p) ↦ rw (read_manifest, p) (QuietFrom-refl tr)
    ];
  }

  IsQuiet-discovered : IsQuiet (discovered h)
  unfolding discovered
  IsQuiet-discovered = record {
    adds = λ tr. elim (Option-cases (h.discover tr)) [
      | inl p ↦ rw (discovered, p) (QuietFrom-refl tr)
      | inr (x, p) ↦ rw (discovered, p) (QuietFrom-refl tr)
    ];
  }

  pub IsQuiet-new_pipeline_state :
      (opts : PipelineOptions) (m : RootManifest) → IsQuiet (new_pipeline_state h opts m)
  unfolding new_pipeline_state state_of
  IsQuiet-new_pipeline_state opts m = IsQuiet->>= IsQuiet-read_manifest (λ text.
      IsQuiet->>= (IsQuiet-probed opts.ignore_platform_reqs) (λ pf.
        IsQuiet->>= IsQuiet-discovered (λ ws.
          IsQuiet->>= (IsQuiet-aggregated opts m ws) (λ p. record { adds = QuietFrom-refl }))))

  IsQuiet-load_resolution : (key : Bytes) → IsQuiet (load_resolution h key)
  unfolding load_resolution
  IsQuiet-load_resolution key = record {
    adds = λ tr. elim (Option-cases (h.cached_bytes tr key)) [
      | inl p ↦ rw (load_resolution, p) (QuietFrom-refl tr)
      | inr (text, p) ↦ elim (Option-cases (decode h.unmarshal text)) [
        | inl q ↦
            rw (load_resolution, p, q)
              ((IsQuiet->>= (IsQuiet-try h (evict key) refl) (λ u. IsQuiet-returned none)).adds tr)
        | inr (f, q) ↦ rw (load_resolution, p, q) (QuietFrom-refl tr)
      ]
    ];
  }

  IsQuiet-solve_and_store : (ps : PipelineState) → IsQuiet (solve_and_store h ps)
  unfolding solve_and_store
  IsQuiet-solve_and_store ps = record {
    adds = λ tr. elim (Bool-cases ps.opts.has_source) [
      | inr s ↦ rw (solve_and_store, s) (QuietFrom-refl tr)
      | inl s ↦
          elim (Option-cases (
            h.resolve tr ps.aggregate ps.platform ps.opts.ignore_platform_reqs
              (not ps.opts.no_dev))) [
                | inl p ↦ rw (solve_and_store, s, p) (QuietFrom-refl tr)
                | inr (both, p) ↦
                    rw (solve_and_store, s, p)
                      ((IsQuiet->>=
                          (IsQuiet-try h (store_resolution ps.cache_key (build_lock_file h ps both))
                            refl)
                          (λ u. IsQuiet-returned (build_lock_file h ps both, false))).adds
                        tr)
              ]
    ];
  }

  IsQuiet-or_solve : (ps : PipelineState) (o : Option LockFile) → IsQuiet (or_solve h ps o)
  unfolding solve_and_store
  IsQuiet-or_solve ps none = IsQuiet-solve_and_store ps
  IsQuiet-or_solve ps (some f) = IsQuiet-returned (f, true)

  pub IsQuiet-resolve_or_cache :
      (ps : PipelineState) (force : Bool) → IsQuiet (resolve_or_cache h ps force)
  unfolding resolve_or_cache
  IsQuiet-resolve_or_cache ps true = IsQuiet-solve_and_store ps
  IsQuiet-resolve_or_cache ps false = elim (Option-cases (existing_lock h ps.lock_bytes)) [
    | inl p ↦
        rw (resolve_or_cache, p)
          (IsQuiet->>= (IsQuiet-load_resolution ps.cache_key) (IsQuiet-or_solve ps))
    | inr (f, p) ↦ rw (resolve_or_cache, p) (IsQuiet-returned (f, true))
  ]
