-- ===== src/Workflow/Engine/Cancelling.antt =====
-- engine.go: an execution is touched by its own events only, and what follows its cancellation.
use open_machine_core.Prelude.{
  ℕ, ◌+◌, ◌-◌, ◌≤◌, String, List, [], ◌∷◌, ◌≡◌, refl, sym, subst, ap, ◌∙◌, Bool, true, false,
  Option, none, some, some_inj, Uuid, ◌⊎◌, inl, inr, length, if_rule, if◌then◌else◌, ◌==◌, ==_iff,
  arith, Bool-cases,
}
use open_machine_core.Prelude.Outcome.{Outcome, ok, err, panic, ok_inj, >>=-eq-ok}
use open_machine_core.Prelude.Maps.{lookup_id, insert_id, lookup_id-insert_id}
use open_machine_core.Types.{Float64}
use open_machine_core.Workflow.Validator.Device.{Env}
use open_machine_core.Workflow.Operations.{Data}
use open_machine_core.Workflow.Executor.{Plant, Ran}
use open_machine_core.Workflow.Definition.{Workflow, build_hierarchical_step_id}
use open_machine_core.Workflow.Engine.{
  Execution, ExecutionStep, RunState, cancel_round, first_updated,
}
use open_machine_core.Workflow.Engine.Running.{
  Phase, starting, looping, entering, executing, leaving, gone, Entry, Executions, cancelled,
  turned, turn, cancel_found, cancel_execution, turn_found, Event, executes, cancels, turns,
  new_entry, created, parsed, loaded, execute_workflow, step, run_events,
}

-- Steps that may still be recorded once the context is done, and turns to the end of the run.
abbrev pub begun : {F : Type 0} → Phase F → ℕ
begun (entering index step steps) = 1
begun _ = 0

abbrev pub turns_left : {F : Type 0} → Phase F → ℕ
turns_left (starting steps) = 2
turns_left (looping index steps) = 1
turns_left (entering index step steps) = 3
turns_left (executing index step steps) = 2
turns_left leaving = 0
turns_left gone = 0

abbrev pub turns_in : {F : Type 0} → Uuid → Event F → ℕ
turns_in id (executes i taken wid input plant) = 0
turns_in id (cancels i) = 0
turns_in id (turns i ran) = if i == id then 1 else 0

abbrev pub turns_of : {F : Type 0} → Uuid → List (Event F) → ℕ
turns_of id [] = 0
turns_of id (e ∷ evs) = turns_in id e + turns_of id evs

abbrev pub recorded_of : {F : Type 0} → Option (Entry F) → ℕ
recorded_of none = 0
recorded_of (some en) = length en.run.steps

-- The number of steps that an execution has recorded.
abbrev pub recorded : {F : Type 0} → Uuid → Executions F → ℕ
recorded id es = recorded_of (lookup_id id es)

-- `n` turns bring a cancelled execution this much nearer to its end; meanwhile its stored row stays
-- as it is.
pub record Nearer {F : Type 0} (n : ℕ) (phase : Phase F) (before : RunState F) (en : Entry F)
    : Type 0 where
  pub is_done : en.run.done ≡ true
  pub updates : en.run.updates ≡ before.updates
  pub steps : length en.run.steps + begun en.phase ≤ length before.steps + begun phase
  pub turns : turns_left en.phase ≤ turns_left phase - n

abbrev OfOk : {A : Type 0} → (A → Type 0) → Outcome (Unit {0}) A → Type 0
OfOk P (ok a) = P a
OfOk P (err e) = Unit
OfOk P panic = Unit

-- A write whose context is done.
unless_done-true :
    (d : Bool) (x : Execution) (old : List Execution)
    → d ≡ true
    → (if d then old else x ∷ old) ≡ old
unless_done-true true x old e = refl
unless_done-true false x old e = cc

module _ {F : Type 0} where
  length-first_updated :
      (f : ExecutionStep F → ExecutionStep F) (steps : List (ExecutionStep F))
      → length (first_updated f steps) ≡ length steps
  length-first_updated f [] = refl
  length-first_updated f (step ∷ steps) = refl

  turned-Nearer :
      (ran : Ran F) (phase : Phase F) (en : Entry F)
      → en.run.done ≡ true
      → OfOk (Nearer 1 phase en.run) (turned ran phase en)
  unfolding build_hierarchical_step_id
  turned-Nearer ran (starting steps) en c = record {
    is_done = c;
    updates = unless_done-true en.run.done _ en.run.updates c;
    steps = omega arith;
    turns = omega arith;
  }
  turned-Nearer ran (looping index []) en c = record {
    is_done = c;
    updates = unless_done-true en.run.done _ en.run.updates c;
    steps = omega arith;
    turns = omega arith;
  }
  turned-Nearer ran (looping index (st ∷ steps)) en c =
      if_rule (OfOk (Nearer 1 (looping index (st ∷ steps)) en.run)) en.run.done
        (ok (record en { phase = leaving; run = cancel_round st en.run }))
        (ok (record en { phase = entering index st steps }))
        (λ _. record {
          is_done = c;
          updates = unless_done-true en.run.done _ en.run.updates c;
          steps = omega arith;
          turns = omega arith;
        })
        (λ f. cc)
  turned-Nearer ran (entering index st steps) en c = record {
    is_done = c;
    updates = refl;
    steps = omega arith;
    turns = omega arith;
  }
  turned-Nearer (plant, ok output) (executing index st steps) en c = record {
    is_done = c;
    updates = refl;
    steps = omega (arith, length-first_updated _ en.run.steps);
    turns = omega arith;
  }
  turned-Nearer (plant, err e) (executing index st steps) en c = record {
    is_done = c;
    updates = unless_done-true en.run.done _ en.run.updates c;
    steps = omega (arith, length-first_updated _ en.run.steps);
    turns = omega arith;
  }
  turned-Nearer (plant, panic) (executing index st steps) en c = tt
  turned-Nearer ran leaving en c = record {
    is_done = c;
    updates = refl;
    steps = omega arith;
    turns = omega arith;
  }
  turned-Nearer ran gone en c = record {
    is_done = c;
    updates = refl;
    steps = omega arith;
    turns = omega arith;
  }

  -- A map in which the entry of `id` is nearer to its end by `n` turns.
  abbrev pub Follows : Uuid → ℕ → Entry F → Executions F → Type 0
  Follows id n en es = (en' : Entry F) × (lookup_id id es ≡ some en') × Nearer n en.phase en.run en'

  same-Nearer : (en : Entry F) → en.run.done ≡ true → Nearer 0 en.phase en.run en
  same-Nearer en c = record {
    is_done = c;
    updates = refl;
    steps = omega arith;
    turns = omega arith;
  }

  found_insert :
      (id i : Uuid) (en new : Entry F) (es : Executions F) (n : ℕ)
      → lookup_id id es ≡ some en
      → en.run.done ≡ true
      → (i ≡ id → Nearer n en.phase en.run new)
      → Follows id (if i == id then n else 0) en (insert_id i new es)
  found_insert id i en new es n h c k = elim (Bool-cases (i == id)) [
    | inl e ↦ rw e (new, lookup_id-insert_id i id new es ∙ rw e refl, k ((==_iff i id).0 e))
    | inr e ↦ rw e (en, lookup_id-insert_id i id new es ∙ rw e h, same-Nearer en c)
  ]

  turn_found-Follows :
      (id i : Uuid) (ran : Ran F) (en : Entry F) (o : Option (Entry F)) (es es' : Executions F)
      → lookup_id i es ≡ o
      → lookup_id id es ≡ some en
      → en.run.done ≡ true
      → turn_found i ran o es ≡ ok es'
      → Follows id (if i == id then 1 else 0) en es'
  unfolding turn
  turn_found-Follows id i ran en none es es' q h c t =
      subst (Follows id (if i == id then 1 else 0) en) (ok_inj t) (
        if_rule (λ n. Follows id n en es) (i == id) 1 0 (λ e. cc ((==_iff i id).0 e))
          (λ _. (en, h, same-Nearer en c)))
  turn_found-Follows id i ran en (some x) es es' q h c t =
      let (x', tx, r) = >>=-eq-ok (turned ran x.phase x) (λ y. ok (insert_id i y es)) t in
      subst (Follows id (if i == id then 1 else 0) en) (ok_inj r) (
        found_insert id i en x' es 1 h c (λ e.
          let same : x ≡ en = some_inj (sym q ∙ (ap (λ j. lookup_id j es) e ∙ h)) in
          subst (OfOk (Nearer 1 en.phase en.run))
            (ap (λ (y : Entry F). turned ran y.phase y) (sym same) ∙ tx)
            (turned-Nearer ran en.phase en c)))

  cancel_found-Follows :
      (id i : Uuid) (en : Entry F) (o : Option (Entry F)) (es : Executions F)
      → lookup_id i es ≡ o
      → lookup_id id es ≡ some en
      → en.run.done ≡ true
      → Follows id 0 en (cancel_found i o es).0
  cancel_found-Follows id i en none es q h c = (en, h, same-Nearer en c)
  cancel_found-Follows id i en (some x) es q h c =
      if_rule (λ (r : Executions F × _). Follows id 0 en r.0) x.registered _ _
        (λ _.
          subst (λ n. Follows id n en (insert_id i (cancelled x) es))
            (if_rule (λ n. n ≡ 0) (i == id) 0 0 (λ _. refl) (λ _. refl))
            (found_insert id i en (cancelled x) es 0 h c (λ e.
              let same : x ≡ en = some_inj (sym q ∙ (ap (λ j. lookup_id j es) e ∙ h)) in
              subst (λ (y : Entry F). Nearer 0 en.phase en.run (cancelled y)) (sym same)
                (record {
                  is_done = refl;
                  updates = refl;
                  steps = omega arith;
                  turns = omega arith;
                }))))
        (λ _. (en, h, same-Nearer en c))

module _ (fl : Float64) (env : Env fl.F) where
  open fl use {F}

  created-Follows :
      (id i : Uuid) (taken : Bool) (new en : Entry F) (o : Option (Entry F)) (es : Executions F)
      → lookup_id i es ≡ o
      → lookup_id id es ≡ some en
      → en.run.done ≡ true
      → Follows id 0 en (created fl env i taken new o es).0
  created-Follows id i taken new en (some x) es q h c = (en, h, same-Nearer en c)
  created-Follows id i false new en none es q h c = (en, h, same-Nearer en c)
  created-Follows id i true new en none es q h c =
      subst (λ n. Follows id n en (insert_id i new es))
        (if_rule (λ n. n ≡ 0) (i == id) 0 0 (λ _. refl) (λ _. refl))
        (found_insert id i en new es 0 h c (λ e. cc))

  loaded-Follows :
      (id i : Uuid) (taken : Bool) (wid : Uuid) (input : Data F) (plant : Plant F)
      (r : String ⊎ String) (en : Entry F) (es : Executions F)
      → lookup_id id es ≡ some en
      → en.run.done ≡ true
      → Follows id 0 en (loaded fl env i taken wid input plant r es).0
  loaded-Follows id i taken wid input plant (inl e) en es h c = (en, h, same-Nearer en c)
  loaded-Follows id i taken wid input plant (inr text) en es h c =
      parsed-Follows (env.parse_workflow text)
    where
      parsed-Follows :
          (r : String ⊎ Workflow F) → Follows id 0 en (parsed fl env i taken wid input plant r es).0
      parsed-Follows (inl e) = (en, h, same-Nearer en c)
      parsed-Follows (inr def) =
          created-Follows id i taken (new_entry fl env i wid input plant def) en (lookup_id i es) es
            refl h c

  step-Follows :
      (id : Uuid) (e : Event F) (en : Entry F) (es es' : Executions F)
      → lookup_id id es ≡ some en
      → en.run.done ≡ true
      → step fl env e es ≡ ok es'
      → Follows id (turns_in id e) en es'
  unfolding step execute_workflow cancel_execution
  step-Follows id (executes i taken wid input plant) en es es' h c t =
      subst (Follows id 0 en) (ok_inj t)
        (loaded-Follows id i taken wid input plant (env.load_workflow wid) en es h c)
  step-Follows id (cancels i) en es es' h c t =
      subst (Follows id 0 en) (ok_inj t) (cancel_found-Follows id i en (lookup_id i es) es refl h c)
  step-Follows id (turns i ran) en es es' h c t =
      turn_found-Follows id i ran en (lookup_id i es) es es' refl h c t

  -- A cancelled execution, whatever happens.
  pub run_events-Follows :
      (id : Uuid) (evs : List (Event F)) (en : Entry F) (es after : Executions F)
      → lookup_id id es ≡ some en
      → en.run.done ≡ true
      → run_events fl env evs es ≡ ok after
      → Follows id (turns_of id evs) en after
  unfolding run_events
  run_events-Follows id [] en es after h c t =
      subst (Follows id 0 en) (ok_inj t) (en, h, same-Nearer en c)
  run_events-Follows id (e ∷ evs) en es after h c t =
      let (mid, s, t') = >>=-eq-ok (step fl env e es) (run_events fl env evs) t in
      let (en1, h1, n1) = step-Follows id e en es mid h c s in
      let (en2, h2, n2) = run_events-Follows id evs en1 mid after h1 n1.is_done t' in
      (
        en2,
        h2,
        record {
          is_done = n2.is_done;
          updates = n2.updates ∙ n1.updates;
          steps = omega (arith, n1.steps, n2.steps);
          turns = omega (arith, n1.turns, n2.turns);
        },
      )
