-- ===== src/Pipeline/Effects.antt =====
-- What a run of the pipeline does to the project, in its order, and how the steps of internal/orchestrator/pipeline.go are
-- composed. Concurrent fetches and extractions are taken one after the other, in the order of the packages.
use gomposer.Prelude.{Bool, Option, List, [], ◌∷◌, ◌++◌, if◌then◌else◌}
use gomposer.Prelude.Bytes.{Bytes}
use gomposer.Workspaces.{Project, Workspace, AggregateError}
use gomposer.Platform.{Platform}
use gomposer.Vendor.Paths.{CleanPath}
use gomposer.Pipeline.Locked.{LockPackage, LockFile}

-- scripts.Event
pub data Event : Type 0 where
  pre_install post_install pre_update post_update pre_autoload_dump post_autoload_dump : Event

-- AutoloadRequest, whose manifest is the one of the run
pub record AutoloadRequest : Type 0 where
  pub project_dir : Bytes
  pub lock_file : LockFile
  pub include_dev : Bool

-- A line is what follows "gomposer: ". A link has its place and its relative target.
pub data Action : Type 0 where
  fire_event : Event → Action
  warn : Bytes → Action
  evict : Bytes → Action
  store_resolution : Bytes → LockFile → Action
  fetch : LockPackage → Action
  materialize : Bytes → CleanPath → Action
  remove_all remove_dir make_dirs : CleanPath → Action
  make_link : CleanPath → List Bytes → Action
  generate : AutoloadRequest → Action
  write_temp : Bytes → Action
  rename_lock : Action

pub data PipelineError : Type 0 where
  deps_failed manifest_unreadable probe_failed discover_failed no_source : PipelineError
  resolve_failed network_needed autoload_failed encode_failed write_failed : PipelineError
  rename_failed : PipelineError
  script_failed : Event → PipelineError
  aggregate_failed : AggregateError → PipelineError
  platform_unsatisfied : List Bytes → PipelineError
  fetch_failed missing_key materialize_failed link_failed unsafe_name prune_failed :
      Bytes → PipelineError

pub data Ending {ℓ} (A : Type ℓ) : Type ℓ where
  returned : A → List Action → Ending A
  raised : PipelineError → List Action → Ending A

-- A step continues what was done before it.
abbrev pub Run {ℓ} : Type ℓ → Type ℓ
Run A = List Action → Ending A

abbrev pub done {ℓ} : {A : Type ℓ} → A → Run A
done a tr = returned a tr

abbrev pub fail {ℓ} : {A : Type ℓ} → PipelineError → Run A
fail e tr = raised e tr

unfoldable pub continue {ℓ κ} : {A : Type ℓ} {B : Type κ} → (A → Run B) → Ending A → Ending B
continue f (returned a tr) = f a tr
continue f (raised e tr) = raised e tr

infixl 5 ◌>>=◌
abbrev pub ◌>>=◌ {ℓ κ} : {A : Type ℓ} {B : Type κ} → Run A → (A → Run B) → Run B
unfolding continue
(r >>= f) tr = continue f (r tr)

-- manifest.Workspace with its directory
pub record LocatedWorkspace : Type 0 where
  pub dir : Bytes
  pub workspace : Workspace

-- The code that is not modelled here and the disk, at a point of the run.
pub record Host : Type 0 where
  -- whether an action succeeds
  pub succeeds : List Action → Action → Bool
  -- Fetcher.Fetch
  pub fetched_key : List Action → LockPackage → Option Bytes
  -- whether defaultDeps finds the cache directory and makes its clients
  pub wires_deps : Bool
  -- composer.json, gomposer.lock, where no file is the empty text, and the entry of the resolution cache
  pub manifest_bytes : List Action → Option Bytes
  pub lock_bytes : List Action → Bytes
  pub cached_bytes : List Action → Bytes → Option Bytes
  -- platform.Probe, manifest.DiscoverWorkspaces and the manifest in a directory
  pub probe : List Action → Option Platform
  pub discover : List Action → Option (List LocatedWorkspace)
  pub workspace_bytes : List Action → Bytes → Bytes
  -- resolveFunc with ToLockPackages, on the manifest, the platform, what is ignored of it and includeDev
  pub resolve :
      List Action
      → Project
      → Option Platform
      → List Bytes
      → Bool
      → Option (List LockPackage × List LockPackage)
  -- encoding/json and crypto/sha256 with encoding/hex
  pub unmarshal : Bytes → Option LockFile
  pub marshal : LockFile → Option Bytes
  pub sha256_hex : Bytes → Bytes

module _ (h : Host) where
  unfoldable pub attempt : PipelineError → Action → Run (Unit {0})
  attempt e a tr = if h.succeeds tr a then returned tt (tr ++ a ∷ []) else raised e (tr ++ a ∷ [])

  -- An action whose error is dropped.
  unfoldable pub try : Action → Run (Unit {0})
  try a tr = returned tt (tr ++ a ∷ [])
