-- ===== src/Pipeline/Phases.antt =====
-- internal/orchestrator/pipeline.go and workspace_symlink.go: the phases that change the project.
use gomposer.Prelude.{Bool, not, ◌||◌, Option, none, some, List, [], ◌∷◌, ◌++◌, if◌then◌else◌, any}
use gomposer.Prelude.Bytes.{Bytes, codes}
use gomposer.Strings.{eq}
use gomposer.Table.{Table, get, put}
use gomposer.Vendor.Paths.{
  CleanPath, clean_join, vendor_root, vendor_path, rel, safe_vendor_package_path,
}
use gomposer.Plugins.{Warning}
use gomposer.Pipeline.Locked.{LockPackage, LockFile}
use gomposer.Pipeline.Effects.{
  Event, AutoloadRequest, fire_event, warn, fetch, materialize, remove_all, remove_dir, make_dirs,
  make_link, generate, write_temp, rename_lock, Run, Ending, returned, raised, done, fail, ◌>>=◌,
  Host, LocatedWorkspace, attempt, try, PipelineError, script_failed, fetch_failed, missing_key,
  materialize_failed, link_failed, unsafe_name, prune_failed, autoload_failed, encode_failed,
  write_failed, rename_failed,
}
use gomposer.Pipeline.Resolving.{PipelineOptions, existing_lock}

-- filepath.Dir of a path with a name
unfoldable pub parent : CleanPath → CleanPath
parent p = record { rooted = p.rooted; names = elim p.names [ [] ↦ [] | n ∷ ns ↦ ns ] }

-- keep[name]
unfoldable pub is_kept : List LockPackage → Bytes → Bool
unfolding eq
is_kept current name = any (λ p. eq p.name name) current

-- The line of runFullPipeline about a plugin
unfoldable pub plugin_line : Warning → Bytes
plugin_line w =
    codes "gomposer does not run plugins: "
    ++ (w.name
        ++ (b'@' ∷ w.version
            ++ (codes " (type=" ++ (w.kind ++ (codes ") " ++ (226 ∷ 128 ∷ 148 ∷ 32 ∷ w.message))))))

unfoldable pub plugin_lines : List Warning → List Bytes
unfolding plugin_line
plugin_lines [] = []
plugin_lines (w ∷ ws) = plugin_line w ∷ plugin_lines ws

module _ (h : Host) where
  -- fireEvent and firePhase
  unfoldable pub fire_phase : PipelineOptions → Event → Run (Unit {0})
  unfolding attempt
  fire_phase opts event =
      if opts.no_scripts || not opts.has_scripts
      then done tt
      else attempt h (script_failed event) (fire_event event)

  unfoldable pub print_lines : List Bytes → Run (Unit {0})
  unfolding try
  print_lines [] = done tt
  print_lines (l ∷ ls) = try h (warn l) >>= λ u. print_lines ls

  -- One job of fetchAll; it keeps the first error and goes on, as the other jobs of the group do.
  unfoldable pub fetch_one :
      Option PipelineError × Table Bytes → LockPackage → Run (Option PipelineError × Table Bytes)
  unfolding put
  fetch_one (e, keys) p tr = elim (h.fetched_key tr p) [
    | some k ↦ returned (e, put p.name k keys) (tr ++ fetch p ∷ [])
    | none ↦ elim e [
      | some first ↦ returned (some first, keys) (tr ++ fetch p ∷ [])
      | none ↦ returned (some (fetch_failed p.name), keys) (tr ++ fetch p ∷ [])
    ]
  ]

  unfoldable pub fetch_each :
      List LockPackage
      → Option PipelineError × Table Bytes
      → Run (Option PipelineError × Table Bytes)
  unfolding fetch_one
  fetch_each [] got = done got
  fetch_each (p ∷ ps) got = fetch_one got p >>= fetch_each ps

  abbrev pub unless_failed {ℓ} : {A : Type ℓ} → Option PipelineError × A → Run A
  unless_failed (none, a) = done a
  unless_failed (some e, a) = fail e

  -- fetchAll
  unfoldable pub fetch_all : List LockPackage → Run (Table Bytes)
  unfolding fetch_each
  fetch_all ps = fetch_each ps (none, []) >>= unless_failed

  abbrev pub first_error : Option PipelineError → Ending (Unit {0}) → Ending (Option PipelineError)
  first_error (some e) (returned u tr) = returned (some e) tr
  first_error (some e) (raised f tr) = returned (some e) tr
  first_error none (returned u tr) = returned none tr
  first_error none (raised f tr) = returned (some f) tr

  -- The loop of materializeAll: a package without a key ends it, and a failed job does not.
  unfoldable pub materialize_each :
      Bytes → Table Bytes → List LockPackage → Option PipelineError → Run (Option PipelineError)
  unfolding get vendor_path attempt
  materialize_each dir keys [] e = done e
  materialize_each dir keys (p ∷ ps) e = elim (get p.name keys) [
    | none ↦ fail (missing_key p.name)
    | some k ↦
        (λ tr.
          first_error e
            (attempt h (materialize_failed p.name) (materialize k (vendor_path dir p.name)) tr))
        >>= materialize_each dir keys ps
  ]

  unfoldable pub materialize_all : Bytes → List LockPackage → Table Bytes → Run (Unit {0})
  unfolding materialize_each
  materialize_all dir ps keys = materialize_each dir keys ps none >>= λ e. unless_failed (e, tt)

  -- replaceSymlink, where the target may have no relative path
  unfoldable pub replace_symlink : Bytes → CleanPath → Option (List Bytes) → Run (Unit {0})
  unfolding attempt
  replace_symlink name link none = fail (link_failed name)
  replace_symlink name link (some target) = attempt h (link_failed name) (remove_all link) >>= λ u.
      attempt h (link_failed name) (make_link link target)

  -- One round of linkWorkspaces
  unfoldable pub link_workspace : Bytes → LocatedWorkspace → Run (Unit {0})
  unfolding replace_symlink clean_join vendor_root vendor_path rel parent attempt
  link_workspace root w =
      let name = w.workspace.name in
      let cross = vendor_path root name in
      replace_symlink name (clean_join w.dir (codes "vendor" ∷ []))
        (rel (clean_join w.dir []) (vendor_root root))
      >>= λ u. attempt h (link_failed name) (make_dirs (parent cross)) >>= λ v.
          replace_symlink name cross (rel (parent cross) (clean_join w.dir []))

  unfoldable pub link_workspaces : Bytes → List LocatedWorkspace → Run (Unit {0})
  unfolding link_workspace
  link_workspaces root [] = done tt
  link_workspaces root (w ∷ ws) = link_workspace root w >>= λ u. link_workspaces root ws

  -- One round of pruneVendor, for a package that is not kept
  unfoldable pub prune_package : Bytes → LockPackage → Run (Unit {0})
  unfolding safe_vendor_package_path attempt try parent
  prune_package dir p = elim (safe_vendor_package_path dir p.name) [
    | none ↦ fail (unsafe_name p.name)
    | some dest ↦
        attempt h (prune_failed p.name) (remove_all dest) >>= λ u. try h (remove_dir (parent dest))
  ]

  unfoldable pub prune_each : Bytes → List LockPackage → List LockPackage → Run (Unit {0})
  unfolding is_kept prune_package
  prune_each dir current [] = done tt
  prune_each dir current (p ∷ old) =
      (if is_kept current p.name then done tt else prune_package dir p) >>= λ u.
      prune_each dir current old

  -- pruneVendor
  unfoldable pub prune_vendor : Bytes → Bytes → List LockPackage → Run (Unit {0})
  unfolding existing_lock prune_each
  prune_vendor dir previous current = elim (existing_lock h previous) [
    | none ↦ done tt
    | some f ↦ prune_each dir current (f.packages ++ f.packages_dev)
  ]

  -- generateAutoloader
  unfoldable pub generate_autoloader : AutoloadRequest → Run (Unit {0})
  unfolding attempt
  generate_autoloader req = attempt h autoload_failed (generate req)

  -- writeLock
  unfoldable pub write_lock : LockFile → Run (Unit {0})
  unfolding attempt
  write_lock f = elim (h.marshal f) [
    | none ↦ fail encode_failed
    | some text ↦
        attempt h write_failed (write_temp text) >>= λ u. attempt h rename_failed rename_lock
  ]
