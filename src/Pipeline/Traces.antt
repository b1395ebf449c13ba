-- ===== src/Pipeline/Traces.antt =====
-- What the steps of a run of the pipeline add to what was done, for every host.
use mathlib.Core.Path.{subst}
use mathlib.Core.List.{append_assoc, append-nil}
use gomposer.Prelude.{
  Bool, true, false, List, [], ◌∷◌, ◌++◌, ◌≡◌, refl, sym, ap, ◌∙◌, inl, inr, all, all-append,
  Bool-cases, arith,
}
use gomposer.Pipeline.Effects.{
  Action, rename_lock, Run, Ending, returned, raised, done, fail, continue, ◌>>=◌, Host, attempt,
  try, PipelineError,
}

abbrev pub trace {ℓ} : {A : Type ℓ} → Ending A → List Action
trace (returned a tr) = tr
trace (raised e tr) = tr

abbrev is_quiet : Action → Bool
is_quiet rename_lock = false
is_quiet _ = true

-- The second trace goes on from the first.
abbrev pub GrowsTo : List Action → List Action → Type 0
GrowsTo s t = (xs : List Action) × (t ≡ s ++ xs)

pub GrowsTo-trans : (s t u : List Action) → GrowsTo s t → GrowsTo t u → GrowsTo s u
GrowsTo-trans s t u (xs, p) (ys, q) = (xs ++ ys, q ∙ (ap (λ z. z ++ ys) p ∙ append_assoc s xs ys))

-- Nothing of it puts a lock file in its place.
abbrev pub NoLock : List Action → Type 0
NoLock tr = all is_quiet tr ≡ true

-- The trace goes on from another one without a lock file.
abbrev pub QuietFrom : List Action → List Action → Type 0
QuietFrom tr tr' = (xs : List Action) × (tr' ≡ tr ++ xs) × NoLock xs

pub record IsQuiet {ℓ} {A : Type ℓ} (r : Run A) : Type 0 where
  pub adds : (tr : List Action) → QuietFrom tr (trace (r tr))

pub QuietFrom-refl : (tr : List Action) → QuietFrom tr tr
QuietFrom-refl tr = ([], sym (append-nil tr), refl)

pub QuietFrom-one :
    (tr : List Action) (a : Action) → is_quiet a ≡ true → QuietFrom tr (tr ++ a ∷ [])
QuietFrom-one tr a q = (a ∷ [], refl, rw q refl)

QuietFrom-trans : (s t u : List Action) → QuietFrom s t → QuietFrom t u → QuietFrom s u
QuietFrom-trans s t u (xs, p, q) (ys, p', q') = (
  xs ++ ys,
  p' ∙ (ap (λ z. z ++ ys) p ∙ append_assoc s xs ys),
  all-append is_quiet xs ys ∙ rw (q, q') refl,
)

pub QuietFrom-NoLock : (s t : List Action) → QuietFrom s t → NoLock s → NoLock t
QuietFrom-NoLock s t (xs, p, q) n = rw p (all-append is_quiet s xs ∙ rw (n, q) refl)

pub IsQuiet-returned {ℓ} : {A : Type ℓ} (a : A) → IsQuiet (done a)
IsQuiet-returned a = record { adds = QuietFrom-refl }

pub IsQuiet-raised {ℓ} : {A : Type ℓ} (e : PipelineError) → IsQuiet {A = A} (fail e)
IsQuiet-raised e = record { adds = QuietFrom-refl }

pub IsQuiet->>= {ℓ κ} :
    {A : Type ℓ} {B : Type κ} {r : Run A} {f : A → Run B}
    → IsQuiet r
    → ((a : A) → IsQuiet (f a))
    → IsQuiet (r >>= f)
unfolding continue
IsQuiet->>= {A = A} {r = r} {f = f} q qs = record { adds = λ tr. go tr (r tr) refl }
  where
    go : (tr : List Action) (o : Ending A) → r tr ≡ o → QuietFrom tr (trace (continue f o))
    go tr (returned a t) e =
        QuietFrom-trans tr t (trace (f a t)) (subst (λ x. QuietFrom tr (trace x)) e (q.adds tr))
          ((qs a).adds t)
    go tr (raised x t) e = subst (λ y. QuietFrom tr (trace y)) e (q.adds tr)

-- What a run of two steps that returned did.
pub >>=-returned {ℓ κ} :
    {A : Type ℓ} {B : Type κ} (r : Run A) (f : A → Run B) (tr t : List Action) (b : B)
    → (r >>= f) tr ≡ returned b t
    → (a : A) × (s : List Action) × (r tr ≡ returned a s) × (f a s ≡ returned b t)
unfolding continue
>>=-returned {A = A} {B = B} r f tr t b h = go (r tr) refl
  where
    go :
        (o : Ending A)
        → r tr ≡ o
        → (a : A) × (s : List Action) × (r tr ≡ returned a s) × (f a s ≡ returned b t)
    go (returned a s) e = (a, s, e, ap (continue f) (sym e) ∙ h)
    go (raised x s) e = let absurd = ap (continue f) (sym e) ∙ h in ground (arith, absurd)

module _ (h : Host) where
  pub IsQuiet-attempt :
      (e : PipelineError) (a : Action) → is_quiet a ≡ true → IsQuiet (attempt h e a)
  unfolding attempt
  IsQuiet-attempt e a q = record {
    adds = λ tr. elim (Bool-cases (h.succeeds tr a)) [
      | inl s ↦ rw (attempt, s) (QuietFrom-one tr a q)
      | inr s ↦ rw (attempt, s) (QuietFrom-one tr a q)
    ];
  }

  pub IsQuiet-try : (a : Action) → is_quiet a ≡ true → IsQuiet (try h a)
  unfolding try
  IsQuiet-try a q = record { adds = λ tr. QuietFrom-one tr a q }

  -- The action was done, and it succeeded.
  abbrev pub Did : List Action → Action → Type 0
  Did tr a =
      (before : List Action) × (after : List Action) × (tr ≡ before ++ a ∷ after)
      × (h.succeeds before a ≡ true)

  pub Did-later :
      (s t : List Action) (a : Action) (xs : List Action) → t ≡ s ++ xs → Did s a → Did t a
  Did-later s t a xs p (before, after, q, ok) =
      (before, after ++ xs, p ∙ (ap (λ z. z ++ xs) q ∙ append_assoc before (a ∷ after) xs), ok)

  -- The action was done behind the first trace and within the second, and it succeeded.
  abbrev pub DidSince : List Action → List Action → Action → Type 0
  DidSince s t a =
      (mid : List Action) × (after : List Action) × (t ≡ (s ++ mid) ++ a ∷ after)
      × (h.succeeds (s ++ mid) a ≡ true)

  pub DidSince-one :
      (s t : List Action) (a : Action) → t ≡ s ++ a ∷ [] → h.succeeds s a ≡ true → DidSince s t a
  DidSince-one s t a p ok =
      ([], [], p ∙ ap (λ x. x ++ a ∷ []) (sym (append-nil s)), rw (append-nil s) ok)

  pub DidSince-later :
      (s t u : List Action) (a : Action) → GrowsTo t u → DidSince s t a → DidSince s u a
  DidSince-later s t u a (xs, p) (mid, after, q, ok) =
      (mid, after ++ xs, p ∙ (ap (λ z. z ++ xs) q ∙ append_assoc (s ++ mid) (a ∷ after) xs), ok)

  pub DidSince-before :
      (s t u : List Action) (a : Action) → GrowsTo s t → DidSince t u a → DidSince s u a
  DidSince-before s t u a (xs, p) (mid, after, q, ok) =
      let e : t ++ mid ≡ s ++ (xs ++ mid) = ap (λ z. z ++ mid) p ∙ append_assoc s xs mid in
      (xs ++ mid, after, q ∙ ap (λ z. z ++ a ∷ after) e, subst (λ z. h.succeeds z a ≡ true) e ok)

  pub attempt-returned :
      (e : PipelineError) (a : Action) (tr t : List Action)
      → attempt h e a tr ≡ returned tt t
      → (t ≡ tr ++ a ∷ []) × (h.succeeds tr a ≡ true)
  unfolding attempt
  attempt-returned e a tr t r = ground (arith, r)
