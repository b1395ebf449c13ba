-- ===== src/Pipeline/Fetched.antt =====
-- After fetchAll of internal/orchestrator/pipeline.go has returned, materializeAll finds a key for every package.
use mathlib.Core.List.{Memᴰ}
use gomposer.Prelude.{
  Option, none, some, List, [], ◌∷◌, ◌++◌, ◌≡◌, refl, sym, ap, ◌∙◌, inl, inr, Bool-cases,
  Option-cases, All, arith,
}
use gomposer.Prelude.Bytes.{Bytes}
use gomposer.Strings.{eq}
use gomposer.Strings.Equality.{eq_refl}
use gomposer.Table.{Table, get, put, get-put}
use gomposer.Vendor.Paths.{vendor_path}
use gomposer.Pipeline.Locked.{LockPackage}
use gomposer.Pipeline.Effects.{
  Action, materialize, Run, Ending, returned, raised, ◌>>=◌, continue, Host, attempt, PipelineError,
  materialize_failed,
}
use gomposer.Pipeline.Phases.{
  fetch_one, fetch_each, unless_failed, fetch_all, materialize_each, materialize_all,
}
use gomposer.Pipeline.Traces.{>>=-returned}

abbrev HasKey : Table Bytes → Bytes → Type 0
HasKey keys n = (k : Bytes) × (get n keys ≡ some k)

HasKey-put : (n m k : Bytes) (keys : Table Bytes) → HasKey keys n → HasKey (put m k keys) n
HasKey-put n m k keys (j, e) = elim (Bool-cases (eq m n)) [
  | inl s ↦ (k, get-put m k keys n ∙ rw s refl)
  | inr s ↦ (j, get-put m k keys n ∙ rw s e)
]

abbrev Got : Type 0
Got = Option PipelineError × Table Bytes

abbrev got_of : Got → Ending Got → Got
got_of d (returned g t) = g
got_of d (raised e t) = d

abbrev keys_of : Table Bytes → Ending (Table Bytes) → Table Bytes
keys_of d (returned ks t) = ks
keys_of d (raised e t) = d

module _ (h : Host) where
  -- A job that leaves no error adds the key of its package and loses none.
  fetch_one-returned :
      (e : Option PipelineError) (keys : Table Bytes) (p : LockPackage) (tr t : List Action)
      (got : Got)
      → fetch_one h (e, keys) p tr ≡ returned got t
      → got.0 ≡ none
      → (e ≡ none) × (k : Bytes) × (got.1 ≡ put p.name k keys)
  unfolding fetch_one
  fetch_one-returned e keys p tr t got r no_error = elim (Option-cases (h.fetched_key tr p)) [
    | inr (k, f) ↦
        let same = ap (λ o. got_of (e, keys) o) (rw (fetch_one, f) at r) in
        (ap (λ g. g.0) same ∙ no_error, k, sym (ap (λ g. g.1) same))
    | inl f ↦ elim (Option-cases e) [
      | inl x ↦
          let same = ap (λ o. got_of (e, keys) o) (rw (fetch_one, f, x) at r) in
          let absurd = ap (λ g. g.0) same ∙ no_error in ground (arith, absurd)
      | inr (y, x) ↦
          let same = ap (λ o. got_of (e, keys) o) (rw (fetch_one, f, x) at r) in
          let absurd = ap (λ g. g.0) same ∙ no_error in ground (arith, absurd)
    ]
  ]

  fetch_each-returned :
      (ps : List LockPackage) (e : Option PipelineError) (keys : Table Bytes) (tr t : List Action)
      (got : Got)
      → fetch_each h ps (e, keys) tr ≡ returned got t
      → got.0 ≡ none
      → (e ≡ none)
        × All (λ p. HasKey got.1 p.name) ps
        × ((n : Bytes) → HasKey keys n → HasKey got.1 n)
  unfolding fetch_each
  fetch_each-returned [] e keys tr t got r no_error =
      let same = ap (λ o. got_of (e, keys) o) r in
      (ap (λ g. g.0) same ∙ no_error, tt, λ n (k, found). (k, rw (← ap (λ g. g.1) same) found))
  fetch_each-returned (p ∷ ps) e keys tr t got r no_error =
      let ((e', keys'), s, one, rest) = >>=-returned _ _ tr t got r in
      let (settled, all, still) = fetch_each-returned ps e' keys' s t got rest no_error in
      let (before, k, added) = fetch_one-returned e keys p tr s (e', keys') one settled in
      (
        before,
        (still p.name (k, rw added (get-put p.name k keys p.name ∙ rw (eq_refl p.name) refl)), all),
        λ n had. still n (rw added (HasKey-put n p.name k keys had)),
      )

  abbrev OnError : (PipelineError → Type 0) → Option PipelineError → Type 0
  OnError Q none = Unit {0}
  OnError Q (some x) = Q x

  abbrev OnEachEnding : (PipelineError → Type 0) → Ending (Option PipelineError) → Type 0
  OnEachEnding Q (returned e t) = OnError Q e
  OnEachEnding Q (raised x t) = Q x

  -- The error of a run has the property.
  abbrev pub OnRaised {ℓ} : {A : Type ℓ} → (PipelineError → Type 0) → Ending A → Type 0
  OnRaised Q (returned a t) = Unit {0}
  OnRaised Q (raised x t) = Q x

  materialize_each-OnError :
      (Q : PipelineError → Type 0) (dir : Bytes) (keys : Table Bytes) (ps : List LockPackage)
      (e : Option PipelineError) (tr : List Action)
      → ((p : LockPackage) → Memᴰ p ps → Q (materialize_failed p.name))
      → All (λ p. HasKey keys p.name) ps
      → OnError Q e
      → OnEachEnding Q (materialize_each h dir keys ps e tr)
  unfolding materialize_each attempt continue
  materialize_each-OnError Q dir keys [] e tr fits has q = q
  materialize_each-OnError Q dir keys (p ∷ ps) e tr fits ((k, found), has) q =
      let job = materialize k (vendor_path dir p.name) in
      let next : (e' : Option PipelineError)
          → OnError Q e'
          → OnEachEnding Q (materialize_each h dir keys ps e' (tr ++ job ∷ [])) =
        λ e' q'.
          materialize_each-OnError Q dir keys ps e' (tr ++ job ∷ []) (λ r m. fits r (Memᴰ.tail m))
            has q' in
      elim (Bool-cases (h.succeeds tr job)) [
        | inl ok ↦ elim (Option-cases e) [
          | inl n ↦ rw (materialize_each, found, attempt, ok, n) (next none tt)
          | inr (x, n) ↦ rw (materialize_each, found, attempt, ok, n) (next (some x) (rw n at q))
        ]
        | inr ok ↦ elim (Option-cases e) [
          | inl n ↦
              rw (materialize_each, found, attempt, ok, n)
                (next (some (materialize_failed p.name)) (fits p (Memᴰ.head refl)))
          | inr (x, n) ↦ rw (materialize_each, found, attempt, ok, n) (next (some x) (rw n at q))
        ]
      ]

  unless_failed-OnRaised :
      (Q : PipelineError → Type 0) (o : Ending (Option PipelineError))
      → OnEachEnding Q o
      → OnRaised Q (continue (λ e. unless_failed h (e, tt {0})) o)
  unfolding continue
  unless_failed-OnRaised Q (returned none t) q = tt
  unless_failed-OnRaised Q (returned (some x) t) q = q
  unless_failed-OnRaised Q (raised x t) q = q

  then_unless_failed :
      (Q : PipelineError → Type 0) (r : Run (Option PipelineError)) (s : List Action)
      → OnEachEnding Q (r s)
      → OnRaised Q ((r >>= λ e. unless_failed h (e, tt {0})) s)
  unfolding continue
  then_unless_failed Q r s q = unless_failed-OnRaised Q (r s) q

  unless_failed-keys :
      (got : Got) (u t : List Action) (keys : Table Bytes)
      → unless_failed h got u ≡ returned keys t
      → (got.0 ≡ none) × (got.1 ≡ keys)
  unless_failed-keys (none, ks) u t keys r = (refl, ap (λ o. keys_of keys o) r)
  unless_failed-keys (some x, ks) u t keys r = ground (arith, r)

  -- Whatever fetchAll has fetched without an error, materializeAll of the same packages finds a key for each of them, at any
  -- later point of the run: it fails only where an extraction of one of these packages fails.
  pub fetched-OnRaised :
      (dir : Bytes) (ps : List LockPackage) (keys : Table Bytes) (tr t s : List Action)
      → fetch_all h ps tr ≡ returned keys t
      → OnRaised
          (λ x. (p : LockPackage) × Memᴰ p ps × (x ≡ materialize_failed p.name))
          (materialize_all h dir ps keys s)
  unfolding fetch_all materialize_all
  fetched-OnRaised dir ps keys tr t s r =
      let (got, u, fetched, last) = >>=-returned _ _ tr t keys r in
      let (no_error, same) = unless_failed-keys got u t keys last in
      let (start, has, still) = fetch_each-returned ps none [] tr u got fetched no_error in
      then_unless_failed (λ x. (p : LockPackage) × Memᴰ p ps × (x ≡ materialize_failed p.name))
        (materialize_each h dir keys ps none) s
        (materialize_each-OnError
          (λ x. (p : LockPackage) × Memᴰ p ps × (x ≡ materialize_failed p.name)) dir keys ps none s
          (λ p m. (p, m, refl)) (rw same at has) tt)
