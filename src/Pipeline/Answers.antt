-- ===== src/Pipeline/Answers.antt =====
-- Which lock file resolveOrCache of internal/orchestrator/pipeline.go answers.
use mathlib.Core.Option.{some_inj}
use mathlib.Core.Path.{subst}
use gomposer.Prelude.{
  Bool, true, false, not, Option, none, some, List, [], ◌∷◌, ◌++◌, ◌==◌, ◌≡◌, refl, sym, ap, ◌∙◌,
  ◌⊎◌, inl, inr, Bool-cases, Option-cases, arith, ==_iff,
}
use gomposer.Prelude.Bytes.{Bytes}
use gomposer.Strings.{is_empty}
use gomposer.Pipeline.Locked.{LockPackage, LockFile, schema_version, decode}
use gomposer.Pipeline.Effects.{
  Action, evict, store_resolution, Ending, returned, raised, continue, Host, try,
}
use gomposer.Pipeline.Resolving.{
  PipelineState, existing_lock, load_resolution, solve_and_store, build_lock_file, resolve_or_cache,
}
use gomposer.Pipeline.Traces.{trace, >>=-returned}

decode-version :
    (unmarshal : Bytes → Option LockFile) (text : Bytes) (f : LockFile)
    → decode unmarshal text ≡ some f
    → (unmarshal text ≡ some f) × (f.schema_version ≡ schema_version)
unfolding decode
decode-version unmarshal text f d = elim (Option-cases (unmarshal text)) [
  | inl n ↦ let absurd = rw (decode, n) at d in ground (arith, absurd)
  | inr (g, u) ↦ elim (Bool-cases (g.schema_version == schema_version)) [
    | inl v ↦
        let same = some_inj.0 (rw (decode, u, v) at d) in
        (
          u ∙ ap (λ x. some x) same,
          ap (λ x. x.schema_version) (sym same) ∙ (==_iff g.schema_version schema_version).0 v,
        )
    | inr v ↦ let absurd = rw (decode, u, v) at d in ground (arith, absurd)
  ]
]

module _ (h : Host) where
  -- Nothing usable is in the cache: it has no entry, or one that cannot be decoded and is evicted.
  abbrev pub Missed : Bytes → List Action → List Action → Type 0
  Missed key s at =
      ((h.cached_bytes s key ≡ none) × (at ≡ s))
      ⊎ ((text : Bytes) × (h.cached_bytes s key ≡ some text)
          × (decode h.unmarshal text ≡ none)
          × (at ≡ s ++ evict key ∷ []))

  -- Why the packages are resolved, and what was done until then.
  abbrev pub Needed : PipelineState → Bool → List Action → List Action → Type 0
  Needed ps force s at =
      ((force ≡ true) × (at ≡ s))
      ⊎ ((force ≡ false) × (existing_lock h ps.lock_bytes ≡ none) × Missed ps.cache_key s at)

  -- What an answer is: found on the disk or in the cache, where nothing forces a resolution, or resolved.
  abbrev pub Answered : PipelineState → Bool → List Action → LockFile × Bool → List Action → Type 0
  Answered ps force s (f, true) t =
      (force ≡ false)
      × (s ≡ t)
      × ((existing_lock h ps.lock_bytes ≡ some f)
          ⊎ ((existing_lock h ps.lock_bytes ≡ none)
              × (text : Bytes) × (h.cached_bytes s ps.cache_key ≡ some text)
              × (decode h.unmarshal text ≡ some f)))
  Answered ps force s (f, false) t =
      (at : List Action) × Needed ps force s at
      × (both : List LockPackage × List LockPackage) × (h.resolve at ps.aggregate ps.platform
            ps.opts.ignore_platform_reqs (not ps.opts.no_dev)
          ≡ some both)
      × (f ≡ build_lock_file h ps both)
      × (t ≡ at ++ store_resolution ps.cache_key f ∷ [])

  abbrev answer_of {ℓ} : {A : Type ℓ} → A → Ending A → A
  answer_of d (returned a t) = a
  answer_of d (raised e t) = d

  same_answer {ℓ} :
      {A : Type ℓ} (a b : A) (s t : List Action) → returned a s ≡ returned b t → (a ≡ b) × (s ≡ t)
  same_answer a b s t e = (ap (λ o. answer_of a o) e, ap (λ o. trace o) e)

  abbrev Solved : PipelineState → List Action → LockFile × Bool → List Action → Type 0
  Solved ps s a t =
      (both : List LockPackage × List LockPackage) × (h.resolve s ps.aggregate ps.platform
          ps.opts.ignore_platform_reqs (not ps.opts.no_dev)
        ≡ some both)
      × (a ≡ (build_lock_file h ps both, false))
      × (t ≡ s ++ store_resolution ps.cache_key (build_lock_file h ps both) ∷ [])

  solve_and_store-returned :
      (ps : PipelineState) (s t : List Action) (a : LockFile × Bool)
      → solve_and_store h ps s ≡ returned a t
      → Solved ps s a t
  unfolding solve_and_store try continue
  solve_and_store-returned ps s t a r = elim (Bool-cases ps.opts.has_source) [
    | inr n ↦ let absurd = rw (solve_and_store, n) at r in ground (arith, absurd)
    | inl n ↦
        elim (Option-cases (
          h.resolve s ps.aggregate ps.platform ps.opts.ignore_platform_reqs (not ps.opts.no_dev))) [
            | inl e ↦ let absurd = rw (solve_and_store, n, e) at r in ground (arith, absurd)
            | inr (both, e) ↦
                let (same, end) =
                  same_answer (build_lock_file h ps both, false) a
                    (s ++ store_resolution ps.cache_key (build_lock_file h ps both) ∷ []) t
                    (rw (solve_and_store, n, e) at r) in
                (both, e, sym same, sym end)
          ]
  ]

  Solved-Answered :
      (ps : PipelineState) (force : Bool) (s s' t : List Action) (a : LockFile × Bool)
      → Needed ps force s' s
      → Solved ps s a t
      → Answered ps force s' a t × (a.0.schema_version ≡ schema_version)
  unfolding build_lock_file
  Solved-Answered ps force s s' t a why (both, e, same, end) =
      subst (λ b. Answered ps force s' b t × (b.0.schema_version ≡ schema_version)) (sym same)
        ((s, why, both, e, refl, end), refl)

  load_resolution-returned :
      (key : Bytes) (s t : List Action) (o : Option LockFile)
      → load_resolution h key s ≡ returned o t
      → ((o ≡ none) × Missed key s t)
        ⊎ ((f : LockFile) × (text : Bytes) × (o ≡ some f)
            × (s ≡ t)
            × (h.cached_bytes s key ≡ some text)
            × (decode h.unmarshal text ≡ some f))
  unfolding load_resolution try continue
  load_resolution-returned key s t o r = elim (Option-cases (h.cached_bytes s key)) [
    | inl n ↦
        let (same, end) = same_answer none o s t (rw (load_resolution, n) at r) in
        inl (sym same, inl (n, sym end))
    | inr (text, e) ↦ elim (Option-cases (decode h.unmarshal text)) [
      | inl n ↦
          let (same, end) =
            same_answer none o (s ++ evict key ∷ []) t (rw (load_resolution, e, n) at r) in
          inl (sym same, inr (text, e, n, sym end))
      | inr (f, d) ↦
          let (same, end) = same_answer (some f) o s t (rw (load_resolution, e, d) at r) in
          inr (f, text, sym same, end, e, d)
    ]
  ]

  existing_lock-version :
      (text : Bytes) (f : LockFile)
      → existing_lock h text ≡ some f
      → f.schema_version ≡ schema_version
  unfolding existing_lock
  existing_lock-version text f e = elim (Bool-cases (is_empty text)) [
    | inl n ↦ let absurd = rw (existing_lock, n) at e in ground (arith, absurd)
    | inr n ↦ (decode-version h.unmarshal text f (rw (existing_lock, n) at e)).1
  ]

  -- Where resolveOrCache returns, on any host, its lock file has the schema version of this build. It is one that was found
  -- only where nothing forces a resolution, and then nothing was done: it is the lock file on the disk, if that can be
  -- decoded, and the one in the cache under the run's key only if not. Else it is the one made of what the resolver
  -- answered, and it has been handed to the cache last: either because a resolution is forced, or because the lock file on
  -- the disk cannot be decoded and the cache has no entry under the run's key, or one that cannot be decoded and was
  -- evicted.
  pub resolve_or_cache-Answered :
      (ps : PipelineState) (force : Bool) (s t : List Action) (a : LockFile × Bool)
      → resolve_or_cache h ps force s ≡ returned a t
      → Answered ps force s a t × (a.0.schema_version ≡ schema_version)
  unfolding resolve_or_cache
  resolve_or_cache-Answered ps true s t a r =
      Solved-Answered ps true s s t a (inl (refl, refl)) (solve_and_store-returned ps s t a r)
  resolve_or_cache-Answered ps false s t a r = elim (Option-cases (existing_lock h ps.lock_bytes)) [
    | inr (f, e) ↦
        let (same, end) = same_answer (f, true) a s t (rw (resolve_or_cache, e) at r) in
        subst (λ b. Answered ps false s b t × (b.0.schema_version ≡ schema_version)) same
          ((refl, end, inl e), existing_lock-version ps.lock_bytes f e)
    | inl none_there ↦
        let (o, s', loaded, rest) =
          >>=-returned _ _ s t a (rw (resolve_or_cache, none_there) at r) in
        elim (load_resolution-returned ps.cache_key s s' o loaded) [
          | inl (n, missed) ↦
              Solved-Answered ps false s' s t a (inr (refl, none_there, missed))
                (solve_and_store-returned ps s' t a (rw n at rest))
          | inr (f, text, n, start, cached, d) ↦
              let (same, end) = same_answer (f, true) a s' t (rw n at rest) in
              subst (λ b. Answered ps false s b t × (b.0.schema_version ≡ schema_version)) same
                (
                  (refl, start ∙ end, inr (none_there, text, cached, d)),
                  (decode-version h.unmarshal text f d).1,
                )
        ]
  ]
