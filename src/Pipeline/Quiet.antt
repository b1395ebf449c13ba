-- ===== src/Pipeline/Quiet.antt =====
-- The phases of internal/orchestrator/pipeline.go that change the project put no lock file in its place.
use gomposer.Prelude.{
  not, ◌||◌, Option, none, some, List, [], ◌∷◌, ◌++◌, ◌≡◌, refl, Bool-cases, Option-cases, inl, inr,
}
use gomposer.Prelude.Bytes.{Bytes, codes}
use gomposer.Table.{Table, get}
use gomposer.Vendor.Paths.{
  CleanPath, clean_join, vendor_root, vendor_path, rel, safe_vendor_package_path,
}
use gomposer.Pipeline.Locked.{LockPackage}
use gomposer.Pipeline.Effects.{
  Event, AutoloadRequest, fire_event, warn, fetch, materialize, remove_all, remove_dir, make_dirs,
  make_link, generate, Run, Ending, returned, raised, Host, LocatedWorkspace, attempt,
  PipelineError, script_failed, materialize_failed, link_failed, prune_failed, autoload_failed,
  missing_key, unsafe_name,
}
use gomposer.Pipeline.Resolving.{PipelineOptions, existing_lock}
use gomposer.Pipeline.Phases.{
  parent, is_kept, fire_phase, print_lines, fetch_one, fetch_each, unless_failed, fetch_all,
  first_error, materialize_each, materialize_all, replace_symlink, link_workspace, link_workspaces,
  prune_package, prune_each, prune_vendor, generate_autoloader,
}
use gomposer.Pipeline.Traces.{
  trace, IsQuiet, IsQuiet-returned, IsQuiet-raised, QuietFrom-one, IsQuiet->>=, IsQuiet-attempt,
  IsQuiet-try,
}

module _ (h : Host) where
  pub IsQuiet-fire_phase : (opts : PipelineOptions) (e : Event) → IsQuiet (fire_phase h opts e)
  unfolding fire_phase
  IsQuiet-fire_phase opts e = elim (Bool-cases (opts.no_scripts || not opts.has_scripts)) [
    | inl s ↦ rw (fire_phase, s) (IsQuiet-returned tt)
    | inr s ↦ rw (fire_phase, s) (IsQuiet-attempt h (script_failed e) (fire_event e) refl)
  ]

  pub IsQuiet-print_lines : (ls : List Bytes) → IsQuiet (print_lines h ls)
  unfolding print_lines
  IsQuiet-print_lines [] = IsQuiet-returned tt
  IsQuiet-print_lines (l ∷ ls) =
      IsQuiet->>= (IsQuiet-try h (warn l) refl) (λ u. IsQuiet-print_lines ls)

  IsQuiet-fetch_one :
      (got : Option PipelineError × Table Bytes) (p : LockPackage) → IsQuiet (fetch_one h got p)
  unfolding fetch_one
  IsQuiet-fetch_one (e, keys) p = record {
    adds = λ tr. elim (Option-cases (h.fetched_key tr p)) [
      | inr (k, same) ↦ rw (fetch_one, same) (QuietFrom-one tr (fetch p) refl)
      | inl same ↦ elim (Option-cases e) [
        | inl first ↦ rw (fetch_one, same, first) (QuietFrom-one tr (fetch p) refl)
        | inr (x, first) ↦ rw (fetch_one, same, first) (QuietFrom-one tr (fetch p) refl)
      ]
    ];
  }

  IsQuiet-fetch_each :
      (ps : List LockPackage) (got : Option PipelineError × Table Bytes)
      → IsQuiet (fetch_each h ps got)
  unfolding fetch_each
  IsQuiet-fetch_each [] got = IsQuiet-returned got
  IsQuiet-fetch_each (p ∷ ps) got = IsQuiet->>= (IsQuiet-fetch_one got p) (IsQuiet-fetch_each ps)

  IsQuiet-unless_failed {ℓ} :
      {A : Type ℓ} (o : Option PipelineError × A) → IsQuiet (unless_failed h o)
  IsQuiet-unless_failed (none, a) = IsQuiet-returned a
  IsQuiet-unless_failed (some e, a) = IsQuiet-raised e

  pub IsQuiet-fetch_all : (ps : List LockPackage) → IsQuiet (fetch_all h ps)
  unfolding fetch_all
  IsQuiet-fetch_all ps = IsQuiet->>= (IsQuiet-fetch_each ps (none, [])) IsQuiet-unless_failed

  trace-first_error :
      (e : Option PipelineError) (o : Ending (Unit {0})) → trace (first_error h e o) ≡ trace o
  trace-first_error (some e) (returned u tr) = refl
  trace-first_error (some e) (raised x tr) = refl
  trace-first_error none (returned u tr) = refl
  trace-first_error none (raised x tr) = refl

  IsQuiet-first_error :
      (e : Option PipelineError) (r : Run (Unit {0}))
      → IsQuiet r
      → IsQuiet (λ tr. first_error h e (r tr))
  IsQuiet-first_error e r q = record { adds = λ tr. rw (trace-first_error e (r tr)) (q.adds tr) }

  pub IsQuiet-materialize_each :
      (dir : Bytes) (keys : Table Bytes) (ps : List LockPackage) (e : Option PipelineError)
      → IsQuiet (materialize_each h dir keys ps e)
  unfolding materialize_each
  IsQuiet-materialize_each dir keys [] e = IsQuiet-returned e
  IsQuiet-materialize_each dir keys (p ∷ ps) e = elim (Option-cases (get p.name keys)) [
    | inl same ↦ rw (materialize_each, same) (IsQuiet-raised (missing_key p.name))
    | inr (k, same) ↦
        let job = materialize k (vendor_path dir p.name) in
        rw (materialize_each, same)
          (IsQuiet->>=
            (IsQuiet-first_error e (attempt h (materialize_failed p.name) job)
              (IsQuiet-attempt h (materialize_failed p.name) job refl))
            (IsQuiet-materialize_each dir keys ps))
  ]

  pub IsQuiet-materialize_all :
      (dir : Bytes) (ps : List LockPackage) (keys : Table Bytes)
      → IsQuiet (materialize_all h dir ps keys)
  unfolding materialize_all
  IsQuiet-materialize_all dir ps keys =
      IsQuiet->>= (IsQuiet-materialize_each dir keys ps none) (λ e. IsQuiet-unless_failed (e, tt))

  IsQuiet-replace_symlink :
      (name : Bytes) (link : CleanPath) (target : Option (List Bytes))
      → IsQuiet (replace_symlink h name link target)
  unfolding replace_symlink
  IsQuiet-replace_symlink name link none = IsQuiet-raised (link_failed name)
  IsQuiet-replace_symlink name link (some target) =
      IsQuiet->>= (IsQuiet-attempt h (link_failed name) (remove_all link) refl)
        (λ u. IsQuiet-attempt h (link_failed name) (make_link link target) refl)

  IsQuiet-link_workspace : (root : Bytes) (w : LocatedWorkspace) → IsQuiet (link_workspace h root w)
  unfolding link_workspace
  IsQuiet-link_workspace root w =
      let name = w.workspace.name in
      let cross = vendor_path root name in
      IsQuiet->>=
        (IsQuiet-replace_symlink name (clean_join w.dir (codes "vendor" ∷ []))
          (rel (clean_join w.dir []) (vendor_root root)))
        (λ u.
          IsQuiet->>= (IsQuiet-attempt h (link_failed name) (make_dirs (parent cross)) refl)
            (λ v. IsQuiet-replace_symlink name cross (rel (parent cross) (clean_join w.dir []))))

  pub IsQuiet-link_workspaces :
      (root : Bytes) (ws : List LocatedWorkspace) → IsQuiet (link_workspaces h root ws)
  unfolding link_workspaces
  IsQuiet-link_workspaces root [] = IsQuiet-returned tt
  IsQuiet-link_workspaces root (w ∷ ws) =
      IsQuiet->>= (IsQuiet-link_workspace root w) (λ u. IsQuiet-link_workspaces root ws)

  pub IsQuiet-generate_autoloader : (req : AutoloadRequest) → IsQuiet (generate_autoloader h req)
  unfolding generate_autoloader
  IsQuiet-generate_autoloader req = IsQuiet-attempt h autoload_failed (generate req) refl

  IsQuiet-prune_package : (dir : Bytes) (p : LockPackage) → IsQuiet (prune_package h dir p)
  unfolding prune_package
  IsQuiet-prune_package dir p = elim (Option-cases (safe_vendor_package_path dir p.name)) [
    | inl same ↦ rw (prune_package, same) (IsQuiet-raised (unsafe_name p.name))
    | inr (dest, same) ↦
        rw (prune_package, same)
          (IsQuiet->>= (IsQuiet-attempt h (prune_failed p.name) (remove_all dest) refl)
            (λ u. IsQuiet-try h (remove_dir (parent dest)) refl))
  ]

  pub IsQuiet-prune_each :
      (dir : Bytes) (current old : List LockPackage) → IsQuiet (prune_each h dir current old)
  unfolding prune_each
  IsQuiet-prune_each dir current [] = IsQuiet-returned tt
  IsQuiet-prune_each dir current (p ∷ old) = elim (Bool-cases (is_kept current p.name)) [
    | inl k ↦
        rw (prune_each, k)
          (IsQuiet->>= (IsQuiet-returned tt) (λ u. IsQuiet-prune_each dir current old))
    | inr k ↦
        rw (prune_each, k)
          (IsQuiet->>= (IsQuiet-prune_package dir p) (λ u. IsQuiet-prune_each dir current old))
  ]

  pub IsQuiet-prune_vendor :
      (dir previous : Bytes) (current : List LockPackage)
      → IsQuiet (prune_vendor h dir previous current)
  unfolding prune_vendor
  IsQuiet-prune_vendor dir previous current = elim (Option-cases (existing_lock h previous)) [
    | inl same ↦ rw (prune_vendor, same) (IsQuiet-returned tt)
    | inr (f, same) ↦
        rw (prune_vendor, same) (IsQuiet-prune_each dir current (f.packages ++ f.packages_dev))
  ]
