-- ===== src/Scripts/Expansion.antt =====
-- What a run of a script's bodies starts, for internal/scripts/scripts.go.
use gomposer.Prelude.{
  ℕ, zero, suc, Bool, true, false, Option-cases, some, List, [], ◌∷◌, ◌++◌, ◌≡◌, refl, arith, sym,
  ap, ◌∙◌, Bool-cases, inl, inr,
}
use mathlib.Core.List.{append_assoc, append-nil}
use mathlib.Core.Path.{subst}
use gomposer.Prelude.Bytes.{Bytes, codes}
use gomposer.Strings.{is_empty}
use gomposer.Strings.Equality.{eq_refl}
use gomposer.Scripts.Quote.{append_args}
use gomposer.Scripts.Run.{
  Options, Command, sh, php, RunError, Form, empty_form, shell_form, ref_form, callable_form,
  classify, php_bootstrap, RunState, Outcome, finished, stopped, then_run, lookup_script,
  is_visited, unvisit, run_all, run_command, run_ref, run_form, run_one, run_listed, run_bodies,
  run_start, max_ref_depth, leave,
}

-- What one body starts, and what a list of bodies starts: the command of each leaf, and for a reference the
-- commands of the bodies of its name.
mutual
  pub data Expands (opts : Options) : Bytes → List Command → Type 0 where
    shell :
        {body : Bytes}
        → classify body ≡ shell_form
        → Expands opts body (sh (append_args body opts.extra_args) ∷ [])
    callable :
        {body : Bytes} (class method : Bytes)
        → classify body ≡ callable_form class method
        → Expands opts body (php (php_bootstrap opts.project_dir class method) ∷ [])
    reference :
        {body : Bytes} (name : Bytes) (nested : List Bytes) {cs : List Command}
        → classify body ≡ ref_form name
        → lookup_script opts.scripts name ≡ some nested
        → ExpandsAll opts nested cs
        → Expands opts body cs

  pub data ExpandsAll (opts : Options) : List Bytes → List Command → Type 0 where
    nothing : ExpandsAll opts [] []
    first :
        {body : Bytes} {bodies : List Bytes} {cs ds : List Command}
        → Expands opts body cs
        → ExpandsAll opts bodies ds
        → ExpandsAll opts (body ∷ bodies) (cs ++ ds)

-- Each command succeeds after those before it.
pub data AllSucceed (exec : List Command → Command → Bool)
    : List Command → List Command → Type 0 where
  no_more : {before : List Command} → AllSucceed exec before []
  succeeds :
      {before : List Command} {c : Command} {cs : List Command}
      → exec before c ≡ true
      → AllSucceed exec (before ++ c ∷ []) cs
      → AllSucceed exec before (c ∷ cs)

AllSucceed-append :
    {exec : List Command → Command → Bool} {before cs ds : List Command}
    → AllSucceed exec before cs
    → AllSucceed exec (before ++ cs) ds
    → AllSucceed exec before (cs ++ ds)
AllSucceed-append {exec = exec} {before = before} {ds = ds} no_more h =
    subst (λ b. AllSucceed exec b ds) (append-nil before) h
AllSucceed-append {exec = exec} {before = before} {ds = ds} (succeeds {c = c} {cs = cs} e r) h =
    succeeds e (
      AllSucceed-append r
        (subst (λ b. AllSucceed exec b ds) (sym (append_assoc before (c ∷ []) cs)) h))

-- From one state to another exactly the expansion `P` is started, every command of it succeeds, and the references
-- that are being expanded are the same again.
abbrev pub Grew :
    (List Command → Command → Bool) → (List Command → Type 0) → RunState → RunState → Type 0
Grew exec P st st' =
    (cs : List Command) × P cs
    × AllSucceed exec st.commands cs
    × (st'.commands ≡ st.commands ++ cs)
    × (st'.visited ≡ st.visited)

finished-inj : {st st' : RunState} → finished st ≡ finished st' → st ≡ st'
finished-inj {st = st} e = ap (λ o. the o) e
  where
    the : Outcome → RunState
    the (finished s) = s
    the (stopped x s) = st

not_finished : {e : RunError} {st st' : RunState} → stopped e st ≡ finished st' → ⊥
not_finished p = ground (arith, p)

pub unvisit-new :
    (name : Bytes) (names : List Bytes) → is_visited names name ≡ false → unvisit name names ≡ names
unfolding unvisit is_visited
unvisit-new name [] h = refl
unvisit-new name (n ∷ names) h = ground (arith, h, unvisit-new name names)

unvisit-again :
    (name : Bytes) (names : List Bytes)
    → is_visited names name ≡ false
    → unvisit name (name ∷ names) ≡ names
unfolding unvisit
unvisit-again name names h = rw (eq_refl name) (unvisit-new name names h)

-- The two ends of `then_run`.
pub then_run-finished :
    (f : RunState → Outcome) (o : Outcome) {st' : RunState}
    → then_run f o ≡ finished st'
    → (st : RunState) × (o ≡ finished st) × (f st ≡ finished st')
then_run-finished f (finished st) e = (st, refl, e)
then_run-finished f (stopped x st) e = elim (not_finished e) [ ]

module _ (exec : List Command → Command → Bool) (opts : Options) where
  abbrev pub GrowsOne : (Bytes → RunState → Outcome) → Type 0
  GrowsOne one =
      (body : Bytes) (st st' : RunState)
      → one body st ≡ finished st'
      → Grew exec (Expands opts body) st st'

  run_all_grows :
      (one : Bytes → RunState → Outcome)
      → GrowsOne one
      → (bodies : List Bytes) (st st' : RunState) → run_all one bodies st ≡ finished st'
      → Grew exec (ExpandsAll opts bodies) st st'
  unfolding run_all
  run_all_grows one h [] st st' e =
      let p = finished-inj e in
      (
        [],
        nothing,
        no_more,
        ap (λ s. s.commands) (sym p) ∙ sym (append-nil st.commands),
        ap (λ s. s.visited) (sym p),
      )
  run_all_grows one h (body ∷ bodies) st st' e =
      let (mid, ran, rest) = then_run-finished (run_all one bodies) (one body st) e in
      let (cs, expands, all_cs, grown, same) = h body st mid ran in
      let (ds, expands_all, all_ds, grown_more, same_more) =
        run_all_grows one h bodies mid st' rest in
      (
        cs ++ ds,
        first expands expands_all,
        AllSucceed-append all_cs (subst (λ b. AllSucceed exec b ds) grown all_ds),
        grown_more ∙ (ap (λ b. b ++ ds) grown ∙ append_assoc st.commands cs ds),
        same_more ∙ same,
      )

  run_command_grows :
      (c : Command) (text : Bytes) (st st' : RunState)
      → run_command exec opts c text st ≡ finished st'
      → Grew exec (λ cs. cs ≡ c ∷ []) st st'
  unfolding run_command
  run_command_grows c text st st' e = elim (Bool-cases (exec st.commands c)) [
    | inl h ↦
        let p = finished-inj (rw h at e) in
        (
          c ∷ [],
          refl,
          succeeds h no_more,
          ap (λ s. s.commands) (sym p),
          ap (λ s. s.visited) (sym p),
        )
    | inr h ↦ elim (not_finished (rw h at e)) [ ]
  ]

  run_ref_grows :
      (one : Bytes → RunState → Outcome)
      → GrowsOne one
      → (body name : Bytes) (st st' : RunState) → classify body ≡ ref_form name
      → run_ref exec opts one name st ≡ finished st'
      → Grew exec (Expands opts body) st st'
  unfolding run_ref
  run_ref_grows one h body name st st' f e = elim (Bool-cases (is_visited st.visited name)) [
    | inl v ↦ elim (not_finished (rw v at e)) [ ]
    | inr v ↦ elim (Option-cases (lookup_script opts.scripts name)) [
      | inl l ↦ elim (not_finished (rw (v, l) at e)) [ ]
      | inr (nested, l) ↦
          let (mid, ran, rest) =
            then_run-finished (leave exec opts name)
              (run_all one nested (record { commands = st.commands; visited = name ∷ st.visited }))
              (rw (v, l) at e) in
          let (cs, expands, all_cs, grown, same) =
            run_all_grows one h nested
              (record { commands = st.commands; visited = name ∷ st.visited }) mid ran in
          let p = finished-inj rest in
          (
            cs,
            reference name nested f l expands,
            all_cs,
            ap (λ s. s.commands) (sym p) ∙ grown,
            ap (λ s. s.visited) (sym p)
                ∙ (ap (unvisit name) same ∙ unvisit-again name st.visited v),
          )
    ]
  ]

  run_form_grows :
      (one : Bytes → RunState → Outcome)
      → GrowsOne one
      → (body : Bytes) (st st' : RunState) (form : Form) → classify body ≡ form
      → run_form exec opts one body st form ≡ finished st'
      → Grew exec (Expands opts body) st st'
  unfolding run_form
  run_form_grows one h body st st' empty_form f e = elim (not_finished e) [ ]
  run_form_grows one h body st st' (ref_form name) f e = run_ref_grows one h body name st st' f e
  run_form_grows one h body st st' shell_form f e =
      let (cs, q, all_cs, grown, same) =
        run_command_grows (sh (append_args body opts.extra_args)) (append_args body opts.extra_args)
          st st' e in
      (cs, subst (Expands opts body) (sym q) (shell f), all_cs, grown, same)
  run_form_grows one h body st st' (callable_form class method) f e =
      let (cs, q, all_cs, grown, same) =
        run_command_grows (php (php_bootstrap opts.project_dir class method))
          (class ++ (codes "::" ++ method)) st st' e in
      (cs, subst (Expands opts body) (sym q) (callable class method f), all_cs, grown, same)

  pub run_one_grows : (left : ℕ) → GrowsOne (run_one exec opts left)
  unfolding run_one run_form
  run_one_grows zero body st st' e = elim (not_finished e) [ ]
  run_one_grows (suc left) body st st' e =
      run_form_grows (run_one exec opts left) (run_one_grows left) body st st' (classify body) refl
        e

  run_listed_expands :
      (bodies : List Bytes) (st : RunState)
      → run_listed exec opts bodies ≡ finished st
      → ExpandsAll opts bodies st.commands × AllSucceed exec [] st.commands
  unfolding run_listed
  run_listed_expands [] st e =
      subst (λ s. ExpandsAll opts [] s.commands × AllSucceed exec [] s.commands) (finished-inj e)
        (nothing, no_more)
  run_listed_expands (body ∷ bodies) st e = elim (Bool-cases (is_empty opts.project_dir)) [
    | inl d ↦ elim (not_finished (rw d at e)) [ ]
    | inr d ↦
        let (cs, expands, all_cs, grown, same) =
          run_all_grows (run_one exec opts (suc max_ref_depth)) (run_one_grows (suc max_ref_depth))
            (body ∷ bodies) (run_start exec opts) st (rw d at e) in
        subst (λ cs. ExpandsAll opts (body ∷ bodies) cs × AllSucceed exec [] cs) (sym grown)
          (expands, all_cs)
  ]

  -- Where RunNamed ends without an error, the name has bodies, the subprocesses started are exactly what these expand
  -- to, in their order, and each of them succeeded.
  pub run_bodies-Expands :
      (name : Bytes) (st : RunState)
      → run_bodies exec opts name true ≡ finished st
      → (bodies : List Bytes) × (lookup_script opts.scripts name ≡ some bodies)
        × ExpandsAll opts bodies st.commands
        × AllSucceed exec [] st.commands
  unfolding run_bodies
  run_bodies-Expands name st e = elim (Option-cases (lookup_script opts.scripts name)) [
    | inl l ↦ elim (not_finished (rw (run_bodies, l) at e)) [ ]
    | inr (bodies, l) ↦
        let (expands, all_succeed) = run_listed_expands bodies st (rw (run_bodies, l) at e) in
        (bodies, l, expands, all_succeed)
  ]
