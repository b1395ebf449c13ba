-- ===== src/Scripts/Depth.antt =====
-- The two tests against endless references of internal/scripts/scripts.go: by names and by depth.
use mathlib.Core.Path.{subst}
use gomposer.Prelude.{
  ℕ, zero, suc, ◌+◌, ◌≤◌, ◌<◌, Bool, false, Option-cases, some, List, [], ◌∷◌, ◌++◌, ◌≡◌, ◌⊎◌, refl,
  arith, sym, ap, Bool-cases, inl, inr, length,
}
use gomposer.Prelude.Bytes.{Bytes, codes}
use gomposer.Strings.{eq, is_empty}
use gomposer.Strings.Equality.{eq_iff}
use gomposer.Scripts.Quote.{append_args}
use gomposer.Scripts.Run.{
  Options, Command, sh, php, RunError, too_deep, Form, empty_form, shell_form, ref_form,
  callable_form, classify, php_bootstrap, RunState, Outcome, finished, stopped, then_run,
  lookup_script, is_visited, unvisit, run_all, run_command, run_ref, run_form, run_one, run_listed,
  run_bodies, run_start, max_ref_depth, leave,
}
use gomposer.Scripts.Expansion.{GrowsOne, run_one_grows, unvisit-new}

-- The references that are being expanded: each is new, and each has bodies.
data Chain (scripts : List (Bytes × List Bytes)) : List Bytes → Type 0 where
  top : Chain scripts []
  deeper :
      {name : Bytes} {bodies : List Bytes} {names : List Bytes}
      → is_visited names name ≡ false
      → lookup_script scripts name ≡ some bodies
      → Chain scripts names
      → Chain scripts (name ∷ names)

eq-swap : (s t : Bytes) → eq s t ≡ false → eq t s ≡ false
eq-swap s t h = elim (Bool-cases (eq t s)) [
  | inl e ↦ let q = (eq_iff t s).0 e in let r = (eq_iff s t).1 (sym q) in ground (arith, h, r)
  | inr e ↦ e
]

is_visited-unvisit :
    (k name : Bytes) (names : List Bytes)
    → is_visited names name ≡ false
    → is_visited (unvisit k names) name ≡ false
unfolding is_visited unvisit
is_visited-unvisit k name [] h = refl
is_visited-unvisit k name (n ∷ names) h = ground (arith, h, is_visited-unvisit k name names)

length-unvisit :
    {scripts : List (Bytes × List Bytes)} (k : Bytes) (names : List Bytes)
    → Chain scripts names
    → length names ≤ suc (length (unvisit k names))
unfolding unvisit
length-unvisit k [] top = omega arith
length-unvisit k (n ∷ names) (deeper new known chain) = elim (Bool-cases (eq n k)) [
  | inl e ↦
      let same =
        unvisit-new k names (subst (λ m. is_visited names m ≡ false) ((eq_iff n k).0 e) new) in
      rw (e, same) (omega arith)
  | inr e ↦ let ih = length-unvisit k names chain in rw e (omega (arith, ih))
]

Chain-unvisit :
    (k : Bytes) (v : List Bytes) (m : List (Bytes × List Bytes)) (names : List Bytes)
    → Chain ((k, v) ∷ m) names
    → Chain m (unvisit k names)
unfolding unvisit lookup_script
Chain-unvisit k v m [] top = top
Chain-unvisit k v m (n ∷ names) (deeper new known chain) =
    let ih = Chain-unvisit k v m names chain in
    elim (Bool-cases (eq n k)) [
      | inl e ↦ rw e ih
      | inr e ↦ rw e (deeper (is_visited-unvisit k n names new) (rw (eq-swap n k e) at known) ih)
    ]

length-Chain :
    (scripts : List (Bytes × List Bytes)) (names : List Bytes)
    → Chain scripts names
    → length names ≤ length scripts
unfolding lookup_script
length-Chain [] [] top = omega arith
length-Chain [] (n ∷ names) (deeper new known chain) = ground (arith, known)
length-Chain ((k, v) ∷ m) names chain =
    let ih = length-Chain m (unvisit k names) (Chain-unvisit k v m names chain) in
    let by_one = length-unvisit k names chain in omega (arith, ih, by_one)

then_run-stopped :
    (f : RunState → Outcome) (o : Outcome) {x : RunError} {st' : RunState}
    → then_run f o ≡ stopped x st'
    → (o ≡ stopped x st') ⊎ ((st : RunState) × (o ≡ finished st) × (f st ≡ stopped x st'))
then_run-stopped f (finished st) e = inr (st, refl, e)
then_run-stopped f (stopped x st) e = inl e

same_error : {x y : RunError} {st st' : RunState} → stopped x st ≡ stopped y st' → x ≡ y
same_error {x = x} e = ap (λ o. the o) e
  where
    the : Outcome → RunError
    the (finished s) = x
    the (stopped z s) = z

module _ (exec : List Command → Command → Bool) (opts : Options) where
  -- A body that hits the bound on the depth stands below as many names as there are levels.
  abbrev Bounded : ℕ → (Bytes → RunState → Outcome) → Type 0
  Bounded left one =
      (body : Bytes) (st st' : RunState)
      → Chain opts.scripts st.visited
      → one body st ≡ stopped too_deep st'
      → length st.visited + left ≤ length opts.scripts

  run_all-Bounded :
      (left : ℕ) (one : Bytes → RunState → Outcome)
      → GrowsOne exec opts one
      → Bounded left one
      → (bodies : List Bytes) (st st' : RunState) → Chain opts.scripts st.visited
      → run_all one bodies st ≡ stopped too_deep st'
      → length st.visited + left ≤ length opts.scripts
  unfolding run_all
  run_all-Bounded left one g h [] st st' chain e = ground (arith, e)
  run_all-Bounded left one g h (body ∷ bodies) st st' chain e =
      elim (then_run-stopped (run_all one bodies) (one body st) e) [
        | inl f ↦ h body st st' chain f
        | inr (mid, ran, f) ↦
            let (cs, expands, all_cs, grown, same) = g body st mid ran in
            subst (λ v. length v + left ≤ length opts.scripts) same
              (run_all-Bounded left one g h bodies mid st'
                (subst (Chain opts.scripts) (sym same) chain) f)
      ]

  run_ref-Bounded :
      (left : ℕ) (one : Bytes → RunState → Outcome)
      → GrowsOne exec opts one
      → Bounded left one
      → (name : Bytes) (st st' : RunState) → Chain opts.scripts st.visited
      → run_ref exec opts one name st ≡ stopped too_deep st'
      → length st.visited + suc left ≤ length opts.scripts
  unfolding run_ref
  run_ref-Bounded left one g h name st st' chain e =
      elim (Bool-cases (is_visited st.visited name)) [
        | inl v ↦ let x = same_error (rw v at e) in ground (arith, x)
        | inr v ↦ elim (Option-cases (lookup_script opts.scripts name)) [
          | inl l ↦ let x = same_error (rw (v, l) at e) in ground (arith, x)
          | inr (nested, l) ↦
              let entered : RunState = record {
                commands = st.commands;
                visited = name ∷ st.visited;
              } in
              elim (then_run-stopped (leave exec opts name) (run_all one nested entered)
                (rw (v, l) at e)) [
                  | inl f ↦
                      omega (
                        arith,
                        run_all-Bounded left one g h nested entered st' (deeper v l chain) f,
                      )
                  | inr (mid, ran, f) ↦ ground (arith, f)
                ]
        ]
      ]

  run_command_not_deep :
      (c : Command) (text : Bytes) (st st' : RunState)
      → run_command exec opts c text st ≡ stopped too_deep st'
      → ⊥
  unfolding run_command
  run_command_not_deep c text st st' e = elim (Bool-cases (exec st.commands c)) [
    | inl h ↦ ground (arith, rw h at e)
    | inr h ↦ let x = same_error (rw h at e) in ground (arith, x)
  ]

  run_form-Bounded :
      (left : ℕ) (one : Bytes → RunState → Outcome)
      → GrowsOne exec opts one
      → Bounded left one
      → (body : Bytes) (st st' : RunState) (form : Form) → Chain opts.scripts st.visited
      → run_form exec opts one body st form ≡ stopped too_deep st'
      → length st.visited + suc left ≤ length opts.scripts
  unfolding run_form
  run_form-Bounded left one g h body st st' empty_form chain e =
      let x = same_error e in ground (arith, x)
  run_form-Bounded left one g h body st st' (ref_form name) chain e =
      run_ref-Bounded left one g h name st st' chain e
  run_form-Bounded left one g h body st st' shell_form chain e =
      elim (run_command_not_deep (sh (append_args body opts.extra_args))
        (append_args body opts.extra_args) st st' e) [ ]
  run_form-Bounded left one g h body st st' (callable_form class method) chain e =
      elim (run_command_not_deep (php (php_bootstrap opts.project_dir class method))
        (class ++ (codes "::" ++ method)) st st' e) [ ]

  run_one-Bounded : (left : ℕ) → Bounded left (run_one exec opts left)
  unfolding run_one
  run_one-Bounded zero body st st' chain e =
      omega (arith, length-Chain opts.scripts st.visited chain)
  run_one-Bounded (suc left) body st st' chain e =
      run_form-Bounded left (run_one exec opts left) (run_one_grows exec opts left)
        (run_one-Bounded left) body st st' (classify body) chain e

  -- Run and RunNamed report that the references are too deep only where there are more than 32 names: with fewer, a
  -- chain of references ends or is found to be a cycle first.
  run_bodies_too_deep :
      (name : Bytes) (required : Bool) (st : RunState)
      → run_bodies exec opts name required ≡ stopped too_deep st
      → max_ref_depth < length opts.scripts
  unfolding run_bodies run_listed
  run_bodies_too_deep name required st e = elim (Option-cases (lookup_script opts.scripts name)) [
    | inl l ↦ elim (Bool-cases required) [
      | inl r ↦ let x = same_error (rw (run_bodies, l, r) at e) in ground (arith, x)
      | inr r ↦ ground (arith, rw (run_bodies, l, r) at e)
    ]
    | inr (bodies, l) ↦ listed bodies (rw (run_bodies, l) at e)
  ]
    where
      listed :
          (bodies : List Bytes)
          → run_listed exec opts bodies ≡ stopped too_deep st
          → max_ref_depth < length opts.scripts
      listed [] e = ground (arith, e)
      listed (body ∷ bodies) e = elim (Bool-cases (is_empty opts.project_dir)) [
        | inl d ↦ let x = same_error (rw d at e) in ground (arith, x)
        | inr d ↦
            let bound =
              run_all-Bounded (suc max_ref_depth) (run_one exec opts (suc max_ref_depth))
                (run_one_grows exec opts (suc max_ref_depth)) (run_one-Bounded (suc max_ref_depth))
                (body ∷ bodies) (run_start exec opts) st top (rw d at e) in
            omega (arith, bound)
      ]
