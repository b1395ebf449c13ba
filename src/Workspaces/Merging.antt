-- ===== src/Workspaces/Merging.antt =====
-- internal/orchestrator/workspace_aggregate.go: what the merged requirements say.
use gomposer.Prelude.{
  Bool, true, false, Option, none, some, List, [], ◌∷◌, ◌++◌, ◌≡◌, inl, inr, refl, ap, ◌∙◌, arith,
  All, Bool-cases, Option-cases,
}
use mathlib.Core.Path.{subst}
use mathlib.Core.List.{append_assoc}
use gomposer.Prelude.Bytes.{Bytes}
use gomposer.Strings.{eq, after_prefix}
use gomposer.Strings.Equality.{eq_refl}
use gomposer.Sort.{Entries}
use gomposer.Constraint.Version.{Version, Error}
use gomposer.Constraint.Term.{Constraint, satisfies}
use gomposer.Constraint.Parse.{parse}
use gomposer.Constraint.Alternatives.{bar, ends_in, workspace_prefix, after_prefix-append, parse-or}
use gomposer.Workspaces.{
  Project, Workspace, Merged, merged, refused, ◌>>=◌, by_name, workspace_fits, lookup_entry,
  set_entry, join_requirement, add_requirement, merge_parsed, merge_requires, merge_dev,
  merge_workspaces, build_aggregate_manifest,
}

abbrev pub IsPlain : Bytes → Type 0
IsPlain raw = after_prefix workspace_prefix raw ≡ none

abbrev pub ArePlain : Entries → Type 0
ArePlain = All (λ e. IsPlain e.1)

parse-IsPlain :
    (raw : Bytes) (c : Constraint) → parse raw ≡ (c, none) → c.is_workspace ≡ false → IsPlain raw
unfolding parse
parse-IsPlain raw c h k = elim (Option-cases (after_prefix workspace_prefix raw)) [
  | inl e ↦ e
  | inr ([], e) ↦ absurd (ground arith)
  | inr (d ∷ s, e) ↦ absurd (ground arith)
]

join-IsPlain :
    (o : Option Bytes) (raw : Bytes)
    → ((t : Bytes) → o ≡ some t → IsPlain t)
    → IsPlain raw
    → IsPlain (join_requirement o raw)
join-IsPlain none raw h k = k
join-IsPlain (some t) raw h k = elim (Bool-cases (eq t raw)) [
  | inl e ↦ rw e (h t refl)
  | inr e ↦ rw e (after_prefix-append workspace_prefix t raw 32 refl (h t refl))
]

lookup-IsPlain :
    (m : Entries) (name t : Bytes) → ArePlain m → lookup_entry m name ≡ some t → IsPlain t
unfolding lookup_entry
lookup-IsPlain [] name t h k = ground arith
lookup-IsPlain ((j, v) ∷ m) name t (h, hs) k = elim (Bool-cases (eq j name)) [
  | inl e ↦ subst IsPlain (ground arith) h
  | inr e ↦ lookup-IsPlain m name t hs (rw e at k)
]

set_entry-ArePlain :
    (m : Entries) (name raw : Bytes) → ArePlain m → IsPlain raw → ArePlain (set_entry m name raw)
unfolding set_entry
set_entry-ArePlain [] name raw h k = (k, tt)
set_entry-ArePlain ((j, v) ∷ m) name raw (h, hs) k = elim (Bool-cases (eq j name)) [
  | inl e ↦ rw e (k, hs)
  | inr e ↦ rw e (h, set_entry-ArePlain m name raw hs k)
]

add_requirement-ArePlain :
    (m : Entries) (name raw : Bytes)
    → ArePlain m
    → IsPlain raw
    → ArePlain (add_requirement m name raw)
unfolding add_requirement
add_requirement-ArePlain m name raw h k =
    set_entry-ArePlain m name _ h
      (join-IsPlain (lookup_entry m name) raw (λ t e. lookup-IsPlain m name t h e) k)

-- The property holds of the value, if there is one.
abbrev pub OnMerged {ℓ} : {A : Type ℓ} → (A → Type 0) → Merged A → Type 0
OnMerged P (merged a) = P a
OnMerged P (refused e) = Unit

OnMerged-bind {ℓ κ} :
    {A : Type ℓ} {B : Type κ} (P : A → Type 0) (Q : B → Type 0) (m : Merged A) (f : A → Merged B)
    → OnMerged P m
    → ((a : A) → P a → OnMerged Q (f a))
    → OnMerged Q (m >>= f)
OnMerged-bind P Q (merged a) f h k = k a h
OnMerged-bind P Q (refused e) f h k = tt

any_merged {ℓ} : {A : Type ℓ} (m : Merged A) → OnMerged (λ a. Unit) m
any_merged (merged a) = tt
any_merged (refused e) = tt

merge_parsed-ArePlain :
    (ws : List Workspace) (owner : Bytes) (dst : Entries) (name raw : Bytes)
    (p : Constraint × Option Error)
    → parse raw ≡ p
    → ArePlain dst
    → OnMerged ArePlain (merge_parsed ws owner dst name raw p)
merge_parsed-ArePlain ws owner dst name raw (c, some e) h k = tt
merge_parsed-ArePlain ws owner dst name raw (c, none) h k = elim (Bool-cases c.is_workspace) [
  | inl e ↦ simp e (
      OnMerged-bind (λ u. Unit) ArePlain (workspace_fits owner name raw c (by_name ws name))
        (λ u. merged dst) (any_merged (workspace_fits owner name raw c (by_name ws name)))
        (λ a u. k))
  | inr e ↦ simp e (add_requirement-ArePlain dst name raw k (parse-IsPlain raw c h e))
]

merge_requires-ArePlain :
    (ws : List Workspace) (owner : Bytes) (dst src : Entries)
    → ArePlain dst
    → OnMerged ArePlain (merge_requires ws owner dst src)
unfolding merge_requires
merge_requires-ArePlain ws owner dst [] h = h
merge_requires-ArePlain ws owner dst ((name, raw) ∷ src) h =
    OnMerged-bind ArePlain ArePlain (merge_parsed ws owner dst name raw (parse raw))
      (λ d. merge_requires ws owner d src)
      (merge_parsed-ArePlain ws owner dst name raw (parse raw) refl h)
      (λ d k. merge_requires-ArePlain ws owner d src k)

merge_dev-ArePlain :
    (include_dev : Bool) (ws : List Workspace) (owner : Bytes) (dst src : Entries)
    → ArePlain dst
    → OnMerged ArePlain (merge_dev include_dev ws owner dst src)
merge_dev-ArePlain true ws owner dst src h = merge_requires-ArePlain ws owner dst src h
merge_dev-ArePlain false ws owner dst src h = h

abbrev BothPlain : Entries × Entries → Type 0
BothPlain (prod, dev) = ArePlain prod × ArePlain dev

merge_workspaces-BothPlain :
    (include_dev : Bool) (all : List Workspace) (both : Entries × Entries) (ws : List Workspace)
    → BothPlain both
    → OnMerged BothPlain (merge_workspaces include_dev all both ws)
unfolding merge_workspaces
merge_workspaces-BothPlain include_dev all both [] h = h
merge_workspaces-BothPlain include_dev all (prod, dev) (w ∷ ws) (h, k) =
    OnMerged-bind ArePlain BothPlain (merge_requires all w.name prod w.manifest.requires) _
      (merge_requires-ArePlain all w.name prod w.manifest.requires h)
      (λ prod' h'.
        OnMerged-bind ArePlain BothPlain
          (merge_dev include_dev all w.name dev w.manifest.requires_dev) _
          (merge_dev-ArePlain include_dev all w.name dev w.manifest.requires_dev k)
          (λ dev' k'. merge_workspaces-BothPlain include_dev all (prod', dev') ws (h', k')))

abbrev pub HasNoWorkspace : Project → Type 0
HasNoWorkspace m = ArePlain m.requires × ArePlain m.requires_dev

-- Where the manifests are merged, the text of no requirement of the result begins with "workspace:". A plain requirement
-- on the name of a workspace stays.
pub aggregate-HasNoWorkspace :
    (root : Project) (ws : List Workspace) (include_dev : Bool)
    → OnMerged HasNoWorkspace (build_aggregate_manifest root ws include_dev)
unfolding build_aggregate_manifest
aggregate-HasNoWorkspace root ws include_dev =
    OnMerged-bind ArePlain HasNoWorkspace (merge_requires ws root.name [] root.requires) _
      (merge_requires-ArePlain ws root.name [] root.requires tt)
      (λ prod h.
        OnMerged-bind ArePlain HasNoWorkspace
          (merge_dev include_dev ws root.name [] root.requires_dev) _
          (merge_dev-ArePlain include_dev ws root.name [] root.requires_dev tt)
          (λ dev k.
            OnMerged-bind BothPlain HasNoWorkspace (merge_workspaces include_dev ws (prod, dev) ws)
              _ (merge_workspaces-BothPlain include_dev ws (prod, dev) ws (h, k)) (λ both p. p)))

lookup-set : (m : Entries) (name raw : Bytes) → lookup_entry (set_entry m name raw) name ≡ some raw
unfolding lookup_entry set_entry
lookup-set [] name raw = rw (eq_refl name) refl
lookup-set ((j, v) ∷ m) name raw = elim (Bool-cases (eq j name)) [
  | inl e ↦ rw e (rw (e, lookup_entry) refl)
  | inr e ↦ rw e (rw (e, lookup_entry) (lookup-set m name raw))
]

-- A constraint with alternatives and a second one on the same package: what satisfies the first alternative alone
-- satisfies the merged constraint, whatever the second one excludes.
pub merged_alternative :
    (dst : Entries) (name s t raw : Bytes) (v : Version)
    → lookup_entry dst name ≡ some (s ++ bar ∷ bar ∷ t)
    → eq (s ++ bar ∷ bar ∷ t) raw ≡ false
    → IsPlain s
    → IsPlain t
    → ends_in bar s ≡ false
    → (parse s).1 ≡ none
    → satisfies (parse s).0 v ≡ true
    → (text : Bytes) × (lookup_entry (add_requirement dst name raw) name ≡ some text)
      × (satisfies (parse text).0 v ≡ true)
unfolding add_requirement
merged_alternative dst name s t raw v l d ps pt b ok_s h =
    let text = s ++ bar ∷ bar ∷ (t ++ 32 ∷ raw) in
    let e : join_requirement (some (s ++ bar ∷ bar ∷ t)) raw ≡ text =
      rw d (append_assoc s (bar ∷ bar ∷ t) (32 ∷ raw)) in
    (
      text,
      ap (λ o. lookup_entry (set_entry dst name (join_requirement o raw)) name) l
          ∙ lookup-set dst name _
          ∙ ap some e,
      (parse-or s (t ++ 32 ∷ raw) v ps (after_prefix-append workspace_prefix t raw 32 refl pt) b
            ok_s).0
          ∙ rw h refl,
    )
