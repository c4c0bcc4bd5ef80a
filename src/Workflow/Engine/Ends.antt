-- ===== src/Workflow/Engine/Ends.antt =====
-- engine.go: an execution of a validated workflow ends.
use open_machine_core.Prelude.{
  ℕ, suc, ◌≤◌, List, [], ◌∷◌, ◌≡◌, refl, ap, ◌∙◌, Bool, true, false, some, Option, inr, Uuid, All,
  if◌then◌else◌,
}
use open_machine_core.Prelude.Outcome.{ok, err, panic}
use open_machine_core.Types.{Float64}
use open_machine_core.Workflow.Definition.{Workflow, Step}
use open_machine_core.Workflow.Validator.Device.{Env}
use open_machine_core.Workflow.Validator.Report.{Report}
use open_machine_core.Workflow.Validator.Walk.{validate_by_id}
use open_machine_core.Workflow.Validator.Walk.Checks.{Loads}
use open_machine_core.Workflow.Operations.{Data}
use open_machine_core.Workflow.Executor.{Plant, Ran, execute}
use open_machine_core.Workflow.Executor.Ends.{Answers, execute_validated}
use open_machine_core.Workflow.Engine.{
  RunState, Finish, returned, executed, execute_step, after_step, run_steps, later, interrupt,
  cancel_round, begin_step, run_execution, send, workflow_step,
}

module _ (fl : Float64) (env : Env fl.F) where
  open fl use {F}

  module _ (exec : Step F → Data F → Plant F → Option (Ran F)) (input : Data F) where
    after_step_answers :
        (rest : RunState F → Option (RunState F × Finish)) (step : Step F) (index : ℕ)
        (cancels : List Bool) (r : Ran F) (s : RunState F)
        → ((t : RunState F) → (q : RunState F × Finish) × (rest t ≡ some q))
        → (q : RunState F × Finish) × (after_step exec input rest step
              (executed exec input index cancels (some r) s)
            ≡ some q)
    after_step_answers rest step index cancels (plant, ok x) s h = h _
    after_step_answers rest step index cancels (plant, err x) s h = (_, refl)
    after_step_answers rest step index cancels (plant, panic) s h = (_, refl)

    either_answers :
        (d : Bool) (t : RunState F) (rest : Option (RunState F × Finish))
        → ((q : RunState F × Finish) × (rest ≡ some q))
        → (q : RunState F × Finish) × ((if d then some (t, returned) else rest) ≡ some q)
    either_answers true t rest h = (_, refl)
    either_answers false t rest h = h

    run_steps_answer :
        (index : ℕ) (steps : List (Step F)) (cancels : List Bool) (s : RunState F)
        → All (Answers fl env exec) steps
        → (q : RunState F × Finish) × (run_steps exec input index steps cancels s ≡ some q)
    unfolding run_steps execute_step
    run_steps_answer index [] cancels s a = (_, refl)
    run_steps_answer index (step ∷ steps) cancels s a =
        let s' = interrupt cancels s in
        let t = send workflow_step step.name "running" s' in
        let now = later cancels in
        let rest = λ (q : RunState F). run_steps exec input (suc index) steps (later now) q in
        let h = a.0 input s.plant in
        let r =
          after_step_answers rest step index now h.0 (begin_step index step t)
            (λ q. run_steps_answer (suc index) steps (later now) q a.1) in
        either_answers s'.done (cancel_round step s') _ (
          r.0,
          ap
                (λ (o : Option (Ran F)).
                  after_step exec input rest step
                    (executed exec input index now o (begin_step index step t)))
                h.1
              ∙ r.1,
        )

  -- After a valid report there is a fuel from which on the execution of the workflow comes to an
  -- end, for every input and whatever the devices, the waits and the cancellations do, as long as
  -- the stored definitions stay those that were validated.
  pub run_execution_ends :
      (fuel : ℕ) (wid : Uuid) (r : Report)
      → validate_by_id env fuel wid ≡ inr (some r)
      → r.valid ≡ true
      → (depth : ℕ) × ((n : ℕ) (def : Workflow F) (input : Data F) (cancels : List Bool)
            (s : RunState F)
          → depth ≤ n
          → Loads env wid def
          → (q : RunState F × Finish) × (run_execution fl env n def input cancels s ≡ some q))
  unfolding run_execution
  run_execution_ends fuel wid r e v =
      let t = execute_validated fl env fuel wid r e v in
      (
        t.0,
        λ n def input cancels s l d.
            run_steps_answer (λ t i p. execute fl env n t i p) input 0 def.steps (later cancels) _
              (t.1 n def l d),
      )
