-- ===== src/Pipeline/Order.antt =====
-- When a run of install or update replaces the lock file.
use mathlib.Core.Path.{subst}
use gomposer.Prelude.{
  Bool, true, false, not, ◌||◌, List, [], ◌∷◌, ◌++◌, ◌≡◌, refl, ◌⊎◌, inl, inr, Bool-cases,
  Option-cases, if◌then◌else◌,
}
use gomposer.Pipeline.Locked.{LockFile}
use gomposer.Pipeline.Effects.{
  pre_autoload_dump, post_autoload_dump, Action, fire_event, write_temp, rename_lock, Run, Ending,
  returned, raised, continue, ◌>>=◌, Host, attempt, script_failed, rename_failed,
}
use gomposer.Pipeline.Phases.{fire_phase, write_lock}
use gomposer.Pipeline.Resolving.{PipelineOptions}
use gomposer.Pipeline.Full.{post_command, new_autoload_request, finish}
use gomposer.Pipeline.Traces.{trace, NoLock, QuietFrom, QuietFrom-one, QuietFrom-NoLock, IsQuiet}
use gomposer.Pipeline.Quiet.{IsQuiet-fire_phase, IsQuiet-generate_autoloader}

-- A run that failed has left the lock file as it was, or failed in replacing it or in the scripts behind that.
abbrev pub LockLast : Bool → Ending (Unit {0}) → Type 0
LockLast force (returned u tr) = Unit {0}
LockLast force (raised e tr) =
    NoLock tr ⊎ (e ≡ rename_failed) ⊎ (e ≡ script_failed (post_command force))

pub record IsLockLast (force : Bool) (r : Run (Unit {0})) : Type 0 where
  pub ends : (tr : List Action) → NoLock tr → LockLast force (r tr)

pub IsLockLast->>= {ℓ} :
    {A : Type ℓ} {force : Bool} {r : Run A} {f : A → Run (Unit {0})}
    → IsQuiet r
    → ((a : A) → IsLockLast force (f a))
    → IsLockLast force (r >>= f)
unfolding continue
IsLockLast->>= {A = A} {force = force} {r = r} {f = f} q l = record {
  ends = λ tr n. go tr n (r tr) refl;
}
  where
    go : (tr : List Action) → NoLock tr → (o : Ending A) → r tr ≡ o → LockLast force (continue f o)
    go tr n (returned a t) e =
        (l a).ends t (QuietFrom-NoLock tr t (subst (λ x. QuietFrom tr (trace x)) e (q.adds tr)) n)
    go tr n (raised x t) e =
        inl (QuietFrom-NoLock tr t (subst (λ y. QuietFrom tr (trace y)) e (q.adds tr)) n)

pub IsLockLast-if :
    {force : Bool} (b : Bool) {r s : Run (Unit {0})}
    → IsLockLast force r
    → IsLockLast force s
    → IsLockLast force (if b then r else s)
IsLockLast-if true p q = p
IsLockLast-if false p q = q

pub IsLockLast-quiet : {force : Bool} {r : Run (Unit {0})} → IsQuiet r → IsLockLast force r
IsLockLast-quiet {force = force} {r = r} q = record { ends = λ tr n. go tr n (r tr) refl }
  where
    go : (tr : List Action) → NoLock tr → (o : Ending (Unit {0})) → r tr ≡ o → LockLast force o
    go tr n (returned a t) e = tt
    go tr n (raised x t) e =
        inl (QuietFrom-NoLock tr t (subst (λ y. QuietFrom tr (trace y)) e (q.adds tr)) n)

module _ (h : Host) where
  fire_phase-post :
      (opts : PipelineOptions) (force : Bool) (tr : List Action)
      → LockLast force (fire_phase h opts (post_command force) tr)
  unfolding fire_phase attempt
  fire_phase-post opts force tr = elim (Bool-cases (opts.no_scripts || not opts.has_scripts)) [
    | inl s ↦ rw (fire_phase, s) tt
    | inr s ↦ elim (Bool-cases (h.succeeds tr (fire_event (post_command force)))) [
      | inl k ↦ rw (fire_phase, s, attempt, k) tt
      | inr k ↦ rw (fire_phase, s, attempt, k) (inr (inr refl))
    ]
  ]

  rename_then_fire :
      (opts : PipelineOptions) (force : Bool) (tr : List Action)
      → LockLast force
          ((attempt h rename_failed rename_lock >>= λ x. fire_phase h opts (post_command force)) tr)
  unfolding attempt continue
  rename_then_fire opts force tr = elim (Bool-cases (h.succeeds tr rename_lock)) [
    | inl k ↦ rw (attempt, k) (fire_phase-post opts force (tr ++ rename_lock ∷ []))
    | inr k ↦ rw (attempt, k) (inr (inl refl))
  ]

  write_then_fire :
      (opts : PipelineOptions) (force : Bool) (f : LockFile)
      → IsLockLast force (write_lock h f >>= λ x. fire_phase h opts (post_command force))
  unfolding write_lock attempt continue
  write_then_fire opts force f = record {
    ends = λ tr n. elim (Option-cases (h.marshal f)) [
      | inl m ↦ rw (write_lock, m) (inl n)
      | inr (text, m) ↦ elim (Bool-cases (h.succeeds tr (write_temp text))) [
        | inl k ↦
            rw (write_lock, m, attempt, k)
              (rename_then_fire opts force (tr ++ write_temp text ∷ []))
        | inr k ↦
            rw (write_lock, m, attempt, k)
              (inl (
                QuietFrom-NoLock tr (tr ++ write_temp text ∷ [])
                  (QuietFrom-one tr (write_temp text) refl) n))
      ]
    ];
  }

  pub IsLockLast-finish :
      (opts : PipelineOptions) (force : Bool) (f written : LockFile)
      → IsLockLast force (finish h opts force f written)
  unfolding finish
  IsLockLast-finish opts force f written =
      IsLockLast->>= (IsQuiet-fire_phase h opts pre_autoload_dump) (λ u.
        IsLockLast->>= (IsQuiet-generate_autoloader h (new_autoload_request opts f)) (λ v.
          IsLockLast->>= (IsQuiet-fire_phase h opts post_autoload_dump)
            (λ w. write_then_fire opts force written)))
