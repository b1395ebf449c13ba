-- ===== src/Pipeline/Extracted.antt =====
-- What fetchAll, materializeAll and the tail of the pipeline have done where they return.
use mathlib.Core.Path.{subst}
use gomposer.Prelude.{
  Bool, true, Option, none, some, List, [], ◌∷◌, ◌++◌, ◌≡◌, refl, inl, inr, Option-cases, All,
  arith,
}
use gomposer.Prelude.Bytes.{Bytes}
use gomposer.Table.{Table, get}
use gomposer.Vendor.Paths.{vendor_path}
use gomposer.Pipeline.Locked.{LockPackage, LockFile}
use gomposer.Pipeline.Effects.{
  pre_autoload_dump, post_autoload_dump, Action, materialize, generate, write_temp, rename_lock,
  Run, Ending, returned, raised, Host, attempt, PipelineError, materialize_failed, autoload_failed,
  write_failed, rename_failed,
}
use gomposer.Pipeline.Phases.{
  unless_failed, first_error, materialize_each, materialize_all, generate_autoloader, write_lock,
}
use gomposer.Pipeline.Resolving.{PipelineOptions}
use gomposer.Pipeline.Full.{post_command, new_autoload_request, finish}
use gomposer.Pipeline.Traces.{
  trace, GrowsTo, QuietFrom, IsQuiet, >>=-returned, DidSince, DidSince-one, DidSince-later,
  DidSince-before, attempt-returned,
}
use gomposer.Pipeline.Quiet.{IsQuiet-fire_phase, IsQuiet-materialize_each}

-- A run that returned went on from where it began.
pub returned_from {ℓ} :
    {A : Type ℓ} (r : Run A) (tr t : List Action) (a : A)
    → IsQuiet r
    → r tr ≡ returned a t
    → GrowsTo tr t
returned_from r tr t a q e =
    let (xs, p, n) = subst (λ o. QuietFrom tr (trace o)) e (q.adds tr) in (xs, p)

module _ (h : Host) where
  -- Behind the first trace and within the second, the package is extracted into its directory below vendor/, with the key
  -- that was fetched for it.
  abbrev pub IsExtracted : Bytes → Table Bytes → List Action → List Action → LockPackage → Type 0
  IsExtracted dir keys s t p =
      (k : Bytes) × (get p.name keys ≡ some k)
      × DidSince h s t (materialize k (vendor_path dir p.name))

  IsExtracted-before :
      (dir : Bytes) (keys : Table Bytes) (s t u : List Action) (ps : List LockPackage)
      → GrowsTo s t
      → All (IsExtracted dir keys t u) ps
      → All (IsExtracted dir keys s u) ps
  IsExtracted-before dir keys s t u [] e a = a
  IsExtracted-before dir keys s t u (p ∷ ps) e ((k, found, did), rest) = (
    (k, found, DidSince-before h s t u (materialize k (vendor_path dir p.name)) e did),
    IsExtracted-before dir keys s t u ps e rest,
  )

  first_error-none :
      (e : Option PipelineError) (o : Ending (Unit {0})) (s : List Action)
      → first_error h e o ≡ returned none s
      → (e ≡ none) × (o ≡ returned tt s)
  first_error-none (some e) (returned u tr) s p = ground (arith, p)
  first_error-none (some e) (raised x tr) s p = ground (arith, p)
  first_error-none none (returned u tr) s p = ground (arith, p)
  first_error-none none (raised x tr) s p = ground (arith, p)

  materialize_each-returned :
      (dir : Bytes) (keys : Table Bytes) (ps : List LockPackage) (e : Option PipelineError)
      (tr t : List Action)
      → materialize_each h dir keys ps e tr ≡ returned none t
      → (e ≡ none) × All (IsExtracted dir keys tr t) ps
  unfolding materialize_each
  materialize_each-returned dir keys [] e tr t p = (ground (arith, p), tt)
  materialize_each-returned dir keys (p ∷ ps) e tr t q = elim (Option-cases (get p.name keys)) [
    | inl missing ↦ let absurd = rw (materialize_each, missing) at q in ground (arith, absurd)
    | inr (k, found) ↦
        let job = attempt h (materialize_failed p.name) (materialize k (vendor_path dir p.name)) in
        let (e', s, one, later) =
          >>=-returned (λ r. first_error h e (job r)) (materialize_each h dir keys ps) tr t none
            (rw (materialize_each, found) at q) in
        let (settled, rest) = materialize_each-returned dir keys ps e' s t later in
        let (no_error, ran) = first_error-none e (job tr) s (rw settled at one) in
        let (grown, ok) =
          attempt-returned h (materialize_failed p.name) (materialize k (vendor_path dir p.name)) tr
            s ran in
        let goes_on =
          returned_from (materialize_each h dir keys ps e') s t none
            (IsQuiet-materialize_each h dir keys ps e') later in
        let extract = materialize k (vendor_path dir p.name) in
        (
          no_error,
          (
            (
              k,
              found,
              DidSince-later h tr s t extract goes_on (DidSince-one h tr s extract grown ok),
            ),
            IsExtracted-before dir keys tr s t ps (extract ∷ [], grown) rest,
          ),
        )
  ]

  unless_failed-returned :
      (e : Option PipelineError) (s t : List Action)
      → unless_failed h (e, tt {0}) s ≡ returned tt t
      → (e ≡ none) × (s ≡ t)
  unless_failed-returned none s t p = (refl, ground (arith, p))
  unless_failed-returned (some x) s t p = ground (arith, p)

  pub materialize_all-returned :
      (dir : Bytes) (ps : List LockPackage) (keys : Table Bytes) (tr t : List Action)
      → materialize_all h dir ps keys tr ≡ returned tt t
      → All (IsExtracted dir keys tr t) ps
  unfolding materialize_all
  materialize_all-returned dir ps keys tr t p =
      let (e, s, ran, last) =
        >>=-returned (materialize_each h dir keys ps none) (λ e. unless_failed h (e, tt)) tr t tt
          p in
      let (settled, same) = unless_failed-returned e s t last in
      (materialize_each-returned dir keys ps none tr t (rw (settled, same) at ran)).1

  -- What the end of a run does behind `tr`, in this order: the autoloader of the lock file `f` is generated, the encoding of
  -- `written` is written beside the lock file and then put in its place, each with success, and there is the last script
  -- only behind this.
  pub record Finished (opts : PipelineOptions) (f written : LockFile) (tr t : List Action)
      : Type 0 where
    pub text : Bytes
    pub at_generate : List Action
    pub at_write : List Action
    pub encoded : h.marshal written ≡ some text
    pub before_autoload : GrowsTo tr at_generate
    pub generated : h.succeeds at_generate (generate (new_autoload_request opts f)) ≡ true
    pub after_autoload :
        GrowsTo (at_generate ++ generate (new_autoload_request opts f) ∷ []) at_write
    pub wrote : h.succeeds at_write (write_temp text) ≡ true
    pub replaced : h.succeeds (at_write ++ write_temp text ∷ []) rename_lock ≡ true
    pub last : GrowsTo ((at_write ++ write_temp text ∷ []) ++ rename_lock ∷ []) t

  write_lock-returned :
      (f : LockFile) (s t : List Action)
      → write_lock h f s ≡ returned tt t
      → (text : Bytes) × (h.marshal f ≡ some text)
        × (h.succeeds s (write_temp text) ≡ true)
        × (h.succeeds (s ++ write_temp text ∷ []) rename_lock ≡ true)
        × (t ≡ (s ++ write_temp text ∷ []) ++ rename_lock ∷ [])
  unfolding write_lock
  write_lock-returned f s t p = elim (Option-cases (h.marshal f)) [
    | inl m ↦ let absurd = rw (write_lock, m) at p in ground (arith, absurd)
    | inr (text, m) ↦
        let (u, s', wrote, replaced) = >>=-returned _ _ s t tt (rw (write_lock, m) at p) in
        let (grown, ok) = attempt-returned h write_failed (write_temp text) s s' wrote in
        let (end, ok') = attempt-returned h rename_failed rename_lock s' t replaced in
        (text, m, ok, rw grown at ok', rw grown at end)
  ]

  pub finish-returned :
      (opts : PipelineOptions) (force : Bool) (f written : LockFile) (tr t : List Action)
      → finish h opts force f written tr ≡ returned tt t
      → Finished opts f written tr t
  unfolding finish generate_autoloader
  finish-returned opts force f written tr t p =
      let req = new_autoload_request opts f in
      let (u1, t1, r1, p1) = >>=-returned _ _ tr t tt p in
      let (u2, t2, r2, p2) = >>=-returned _ _ t1 t tt p1 in
      let (u3, t3, r3, p3) = >>=-returned _ _ t2 t tt p2 in
      let (u4, t4, r4, p4) = >>=-returned _ _ t3 t tt p3 in
      let before = returned_from _ tr t1 u1 (IsQuiet-fire_phase h opts pre_autoload_dump) r1 in
      let (e2, ok) = attempt-returned h autoload_failed (generate req) t1 t2 r2 in
      let between = returned_from _ t2 t3 u3 (IsQuiet-fire_phase h opts post_autoload_dump) r3 in
      let (text, m, wrote, replaced, e4) = write_lock-returned written t3 t4 r4 in
      let last = returned_from _ t4 t tt (IsQuiet-fire_phase h opts (post_command force)) p4 in
      record {
        text = text;
        at_generate = t1;
        at_write = t3;
        encoded = m;
        before_autoload = before;
        generated = ok;
        after_autoload = subst (λ s. GrowsTo s t3) e2 between;
        wrote = wrote;
        replaced = replaced;
        last = subst (λ s. GrowsTo s t) e4 last;
      }
