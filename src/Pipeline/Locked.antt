-- ===== src/Pipeline/Locked.antt =====
-- internal/lock/lock.go: the lock file; and the operations of internal/orchestrator/pipeline.go on its packages.
use gomposer.Prelude.{ℕ, Bool, Option, none, some, List, [], ◌∷◌, ◌++◌, ◌==◌, if◌then◌else◌}
use gomposer.Prelude.Bytes.{Bytes, codes}
use gomposer.Strings.{eq, is_empty}
use gomposer.Sort.{Entries}
use gomposer.Table.{Table, get}

pub record LockSource : Type 0 where
  pub kind : Bytes
  pub url : Bytes
  pub ref : Bytes

pub record LockDist : Type 0 where
  pub kind : Bytes
  pub url : Bytes
  pub sha256 : Bytes

-- Package, without its autoload and suggest maps
pub record LockPackage : Type 0 where
  pub name : Bytes
  pub version : Bytes
  pub version_normalized : Bytes
  pub kind : Bytes
  pub source : LockSource
  pub dist : LockDist
  pub requires : Entries

pub record LockAlias : Type 0 where
  pub package_name : Bytes
  pub version : Bytes
  pub alias : Bytes

pub record Generator : Type 0 where
  pub name : Bytes
  pub version : Bytes

pub record LockStability : Type 0 where
  pub minimum_stability : Bytes
  pub prefer_stable : Bool

pub record LockFile : Type 0 where
  pub schema_version : ℕ
  pub generator : Generator
  pub manifest_content_hash : Bytes
  pub platform_fingerprint : Bytes
  pub stability : LockStability
  pub packages : List LockPackage
  pub packages_dev : List LockPackage
  pub aliases : List LockAlias
  pub warnings : List Bytes

abbrev pub schema_version : ℕ
schema_version = 1

-- Decode, where `unmarshal` is json.Unmarshal into a File; none for its errors.
unfoldable pub decode : (Bytes → Option LockFile) → Bytes → Option LockFile
decode unmarshal text = elim (unmarshal text) [
  | none ↦ none
  | some f ↦ if f.schema_version == schema_version then some f else none
]

-- One round of backfillSha
unfoldable pub backfill : Table Bytes → LockPackage → LockPackage
unfolding is_empty get
backfill keys p =
    if is_empty p.dist.sha256
    then elim (get p.name keys) [
      | none ↦ p
      | some k ↦ record p { dist = record { kind = p.dist.kind; url = p.dist.url; sha256 = k } }
    ]
    else p

unfoldable pub backfill_sha : List LockPackage → Table Bytes → List LockPackage
unfolding backfill
backfill_sha [] keys = []
backfill_sha (p ∷ ps) keys = backfill keys p ∷ backfill_sha ps keys

unfoldable pub non_workspace_packages : List LockPackage → List LockPackage
unfolding eq
non_workspace_packages [] = []
non_workspace_packages (p ∷ ps) =
    let rest = non_workspace_packages ps in if eq p.kind (codes "workspace") then rest else p ∷ rest

-- The packages that runFullPipeline installs.
unfoldable pub installed_packages : Bool → LockFile → List LockPackage
installed_packages no_dev f = if no_dev then f.packages else f.packages ++ f.packages_dev
