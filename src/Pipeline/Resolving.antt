-- ===== src/Pipeline/Resolving.antt =====
-- internal/orchestrator/pipeline.go: the state of a run, and the lock file that it starts from.
use gomposer.Prelude.{
  Bool, true, false, not, Option, none, some, List, [], ◌∷◌, ◌++◌, if◌then◌else◌, any,
}
use gomposer.Prelude.Bytes.{Bytes, codes}
use gomposer.Strings.{eq, is_empty}
use gomposer.Sort.{sort_by, bytes_less}
use gomposer.Platform.{Platform, fingerprint}
use gomposer.Plugins.{JsonFields}
use gomposer.Workspaces.{Project, Workspace, merged, refused, build_aggregate_manifest}
use gomposer.Vendor.Paths.{clean_join, rel}
use gomposer.Pipeline.Locked.{LockPackage, LockFile, schema_version, decode}
use gomposer.Pipeline.Effects.{
  Action, evict, store_resolution, Run, done, fail, ◌>>=◌, Host, LocatedWorkspace, try,
  manifest_unreadable, probe_failed, discover_failed, aggregate_failed, no_source, resolve_failed,
}
use gomposer.Pipeline.CacheKey.{cache_key_text}

-- Options, without what names the injected implementations; `rich` tells whether Progress is a journeyProgress.
pub record PipelineOptions : Type 0 where
  pub project_dir : Bytes
  pub ignore_platform_reqs : List Bytes
  pub no_dev : Bool
  pub no_scripts : Bool
  pub no_network : Bool
  pub quiet : Bool
  pub rich : Bool
  pub has_source : Bool
  pub has_scripts : Bool

-- manifest.Manifest: what the aggregation reads, the patterns of its workspaces, and `extra`
pub record RootManifest : Type 0 where
  pub project : Project
  pub workspaces : List Bytes
  pub extra : JsonFields

pub record PipelineState : Type 0 where
  pub opts : PipelineOptions
  pub manifest : RootManifest
  pub manifest_bytes : Bytes
  pub lock_bytes : Bytes
  pub platform : Option Platform
  pub platform_text : Bytes
  pub cache_key : Bytes
  pub workspaces : List LocatedWorkspace
  pub aggregate : Project

-- ignoreSet[name]
unfoldable pub is_ignored : List Bytes → Bytes → Bool
unfolding eq
is_ignored ignored name = any (λ n. eq n name) ignored

abbrev pub by_workspace_name : LocatedWorkspace → LocatedWorkspace → Bool
unfolding bytes_less
by_workspace_name v w = bytes_less v.workspace.name w.workspace.name

abbrev pub plain_workspaces : List LocatedWorkspace → List Workspace
plain_workspaces [] = []
plain_workspaces (w ∷ ws) = w.workspace ∷ plain_workspaces ws

-- The names of a relative path with their slashes; no name is the path ".".
unfoldable pub path_text : List Bytes → Bytes
path_text [] = codes "."
path_text (p ∷ []) = p
path_text (p ∷ q ∷ ps) = p ++ b'/' ∷ path_text (q ∷ ps)

abbrev pub url_of : Bytes → Option (List Bytes) → Bytes
unfolding path_text
url_of dir none = dir
url_of dir (some names) = path_text names

-- workspaceLockPackages
unfoldable pub workspace_lock_packages : Bytes → List LocatedWorkspace → List LockPackage
unfolding clean_join rel path_text
workspace_lock_packages root [] = []
workspace_lock_packages root (w ∷ ws) =
    (record {
      name = w.workspace.name;
      version = w.workspace.version;
      version_normalized = [];
      kind = codes "workspace";
      source = record {
        kind = codes "path";
        url = url_of w.dir (rel (clean_join root []) (clean_join w.dir []));
        ref = [];
      };
      dist = record { kind = []; url = []; sha256 = [] };
      requires = [];
    })
    ∷ workspace_lock_packages root ws

module _ (h : Host) where
  unfoldable pub workspace_texts : List Action → List LocatedWorkspace → Bytes
  workspace_texts tr [] = []
  workspace_texts tr (w ∷ ws) = h.workspace_bytes tr w.dir ++ workspace_texts tr ws

  -- computeCacheKey
  unfoldable pub compute_cache_key : Bytes → Bytes → Bytes → Bytes
  unfolding cache_key_text
  compute_cache_key m l p = h.sha256_hex (cache_key_text m l p)

  -- platform.Probe, unless all of the platform is ignored
  unfoldable pub probed : List Bytes → Run (Option Platform)
  probed ignored tr =
      if is_ignored ignored (codes "*")
      then done none tr
      else elim (h.probe tr) [ none ↦ fail probe_failed tr | some p ↦ done (some p) tr ]

  unfoldable pub aggregated : PipelineOptions → RootManifest → List LocatedWorkspace → Run Project
  aggregated opts m [] tr = done m.project tr
  aggregated opts m (w ∷ ws) tr =
      elim (build_aggregate_manifest m.project (plain_workspaces (w ∷ ws)) (not opts.no_dev)) [
        | merged p ↦ done p tr
        | refused e ↦ fail (aggregate_failed e) tr
      ]

  unfoldable pub read_manifest : Run Bytes
  read_manifest tr = elim (h.manifest_bytes tr) [
    | none ↦ fail manifest_unreadable tr
    | some text ↦ done text tr
  ]

  unfoldable pub discovered : Run (List LocatedWorkspace)
  discovered tr = elim (h.discover tr) [ none ↦ fail discover_failed tr | some ws ↦ done ws tr ]

  unfoldable pub state_of :
      PipelineOptions
      → RootManifest
      → Bytes
      → Option Platform
      → List LocatedWorkspace
      → Project
      → Run PipelineState
  unfolding sort_by compute_cache_key workspace_texts
  state_of opts m text pf ws aggregate tr =
      let texts = text ++ workspace_texts tr (sort_by by_workspace_name ws) in
      done
        (record {
          opts = opts;
          manifest = m;
          manifest_bytes = text;
          lock_bytes = h.lock_bytes tr;
          platform = pf;
          platform_text = fingerprint pf;
          cache_key = compute_cache_key texts (h.lock_bytes tr) (fingerprint pf);
          workspaces = ws;
          aggregate = aggregate;
        })
        tr

  -- newPipelineState
  unfoldable pub new_pipeline_state : PipelineOptions → RootManifest → Run PipelineState
  unfolding read_manifest probed discovered aggregated state_of
  new_pipeline_state opts m = read_manifest >>= λ text. probed opts.ignore_platform_reqs >>= λ pf.
      discovered >>= λ ws.
      aggregated opts m ws >>= λ aggregate. state_of opts m text pf ws aggregate

  -- buildLockFile, on the packages of the result
  unfoldable pub build_lock_file : PipelineState → List LockPackage × List LockPackage → LockFile
  unfolding workspace_lock_packages
  build_lock_file ps (prod, dev) = record {
    schema_version = schema_version;
    generator = record { name = codes "gomposer"; version = codes "0.1.0" };
    manifest_content_hash = codes "sha256:" ++ h.sha256_hex ps.manifest_bytes;
    platform_fingerprint = ps.platform_text;
    stability = record {
      minimum_stability = ps.manifest.project.minimum_stability;
      prefer_stable = ps.manifest.project.prefer_stable;
    };
    packages = prod ++ workspace_lock_packages ps.opts.project_dir ps.workspaces;
    packages_dev = dev;
    aliases = [];
    warnings = [];
  }

  -- loadResolution: an entry that does not parse is removed.
  unfoldable pub load_resolution : Bytes → Run (Option LockFile)
  unfolding decode
  load_resolution key tr = elim (h.cached_bytes tr key) [
    | none ↦ done none tr
    | some text ↦ elim (decode h.unmarshal text) [
      | none ↦ (try h (evict key) >>= λ u. done none) tr
      | some f ↦ done (some f) tr
    ]
  ]

  unfoldable pub solve_and_store : PipelineState → Run (LockFile × Bool)
  unfolding build_lock_file
  solve_and_store ps tr =
      if ps.opts.has_source
      then elim (h.resolve tr ps.aggregate ps.platform ps.opts.ignore_platform_reqs
          (not ps.opts.no_dev)) [
            | none ↦ fail resolve_failed tr
            | some both ↦
                let f = build_lock_file ps both in
                (try h (store_resolution ps.cache_key f) >>= λ u. done (f, false)) tr
          ]
      else fail no_source tr

  abbrev pub or_solve : PipelineState → Option LockFile → Run (LockFile × Bool)
  unfolding solve_and_store
  or_solve ps (some f) = done (f, true)
  or_solve ps none = solve_and_store ps

  -- The lock file on the disk; no text is no lock file.
  unfoldable pub existing_lock : Bytes → Option LockFile
  unfolding decode is_empty
  existing_lock text = if is_empty text then none else decode h.unmarshal text

  -- resolveOrCache: the lock file, and whether it was found.
  unfoldable pub resolve_or_cache : PipelineState → Bool → Run (LockFile × Bool)
  unfolding existing_lock load_resolution solve_and_store
  resolve_or_cache ps true = solve_and_store ps
  resolve_or_cache ps false = elim (existing_lock ps.lock_bytes) [
    | some f ↦ done (f, true)
    | none ↦ load_resolution ps.cache_key >>= or_solve ps
  ]
