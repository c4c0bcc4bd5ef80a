-- ===== src/Workflow/Engine/Running.antt =====
-- engine.go: the engine with all its executions, their contexts and goroutines: ExecuteWorkflow,
-- CancelExecution and the rounds of runExecution, as steps that interleave.
use open_machine_core.Prelude.{
  ℕ, suc, String, List, [], ◌∷◌, Bool, true, false, Option, none, some, Uuid, ◌⊎◌, inl, inr,
  if◌then◌else◌,
}
use open_machine_core.Prelude.Outcome.{Outcome, ok, err, panic, ◌>>=◌}
use open_machine_core.Prelude.Maps.{UuidMap, lookup_id, insert_id}
use open_machine_core.Types.{Float64}
use open_machine_core.Workflow.Definition.{Workflow, Step}
use open_machine_core.Workflow.Validator.Device.{Env}
use open_machine_core.Workflow.Operations.{Data, ExecError}
use open_machine_core.Workflow.Executor.{Plant, Ran}
use open_machine_core.Workflow.Engine.{
  RunState, begin_run, begin_step, end_step, cancel_round, fail_round, succeed, send, track,
  workflow_step, new_run,
}

-- Where the goroutine of an execution stands: before its first operation, at the select of a round,
-- in its default case before and within the executor's call, before the deferred deletion, or past
-- it.
pub data Phase (F : Type 0) : Type 0 where
  starting : List (Step F) → Phase F
  looping : ℕ → List (Step F) → Phase F
  entering executing : ℕ → Step F → List (Step F) → Phase F
  leaving gone : Phase F

-- An execution, under its id: `registered` tells whether `runningContexts` and `executionTrackers`, which are
-- written together, hold its id. Whether its context is done is in `run`.
pub record Entry (F : Type 0) : Type 0 where
  pub registered : Bool
  pub phase : Phase F
  pub input : Data F
  pub run : RunState F

pub data StartError : Type 0 where
  workflow_not_loaded workflow_not_parsed : String → StartError
  execution_not_created : StartError

pub data CancelError : Type 0 where
  not_running : CancelError

-- The executions that were created, by their ids.
abbrev pub Executions : Type 0 → Type 0
Executions F = UuidMap (Entry F)

module _ {F : Type 0} where
  abbrev pub round :
      ℕ
      → List (Step F)
      → RunState F × Outcome ExecError (Data F)
      → Step F
      → Entry F
      → Outcome (Unit {0}) (Entry F)
  round index steps (s, ok output) step en = ok (record en {
    phase = looping (suc index) steps;
    run = send workflow_step step.name "completed" (track s);
  })
  round index steps (s, err e) step en =
      ok (record en { phase = leaving; run = fail_round step (track s) })
  round index steps (s, panic) step en = panic

  -- The goroutine goes on to its next phase. `ran` is what the executor leaves and answers, if it
  -- is called.
  abbrev pub turned : Ran F → Phase F → Entry F → Outcome (Unit {0}) (Entry F)
  turned ran (starting steps) en =
      ok (record en { phase = looping 0 steps; run = begin_run en.run })
  turned ran (looping index []) en = ok (record en { phase = leaving; run = succeed en.run })
  turned ran (looping index (step ∷ steps)) en =
      if en.run.done
      then ok (record en { phase = leaving; run = cancel_round step en.run })
      else ok (record en { phase = entering index step steps })
  turned ran (entering index step steps) en = ok (record en {
    phase = executing index step steps;
    run = begin_step index step (send workflow_step step.name "running" en.run);
  })
  turned ran (executing index step steps) en = round index steps (end_step index ran en.run) step en
  turned ran leaving en = ok (record en { registered = false; phase = gone })
  turned ran gone en = ok (record en { phase = gone })

  unfoldable pub turn : Ran F → Entry F → Outcome (Unit {0}) (Entry F)
  turn ran en = turned ran en.phase en

  -- the call of the cancel function
  abbrev pub cancelled : Entry F → Entry F
  cancelled en = record en { run = record en.run { done = true } }

  abbrev pub cancel_found :
      Uuid → Option (Entry F) → Executions F → Executions F × Outcome CancelError (Unit {0})
  cancel_found id none es = (es, err not_running)
  cancel_found id (some en) es =
      if en.registered then (insert_id id (cancelled en) es, ok tt) else (es, err not_running)

  unfoldable pub cancel_execution :
      Uuid → Executions F → Executions F × Outcome CancelError (Unit {0})
  cancel_execution id es = cancel_found id (lookup_id id es) es

  abbrev pub turn_found :
      Uuid → Ran F → Option (Entry F) → Executions F → Outcome (Unit {0}) (Executions F)
  turn_found id ran none es = ok es
  turn_found id ran (some en) es = turn ran en >>= λ en'. ok (insert_id id en' es)

-- A call of `ExecuteWorkflow`, with its new id, what the database says to the new row, and the
-- plant; one of `CancelExecution`; a turn of a goroutine.
pub data Event (F : Type 0) : Type 0 where
  executes : Uuid → Bool → Uuid → Data F → Plant F → Event F
  cancels : Uuid → Event F
  turns : Uuid → Ran F → Event F

module _ (fl : Float64) (env : Env fl.F) where
  open fl use {F}

  abbrev pub new_entry : Uuid → Uuid → Data F → Plant F → Workflow F → Entry F
  new_entry id wid input plant def = record {
    registered = true;
    phase = starting def.steps;
    input = input;
    run = new_run fl id wid def (env.uuid_string wid) plant;
  }

  -- CreateExecution refuses an id that is there, and what the database refuses otherwise.
  abbrev pub created :
      Uuid → Bool → Entry F → Option (Entry F) → Executions F → Executions F × (StartError ⊎ Uuid)
  created id taken en (some other) es = (es, inl execution_not_created)
  created id taken en none es =
      if taken then (insert_id id en es, inr id) else (es, inl execution_not_created)

  abbrev pub parsed :
      Uuid
      → Bool
      → Uuid
      → Data F
      → Plant F
      → String ⊎ Workflow F
      → Executions F
      → Executions F × (StartError ⊎ Uuid)
  parsed id taken wid input plant (inl e) es = (es, inl (workflow_not_parsed e))
  parsed id taken wid input plant (inr def) es =
      created id taken (new_entry id wid input plant def) (lookup_id id es) es

  abbrev pub loaded :
      Uuid
      → Bool
      → Uuid
      → Data F
      → Plant F
      → String ⊎ String
      → Executions F
      → Executions F × (StartError ⊎ Uuid)
  loaded id taken wid input plant (inl e) es = (es, inl (workflow_not_loaded e))
  loaded id taken wid input plant (inr text) es =
      parsed id taken wid input plant (env.parse_workflow text) es

  unfoldable pub execute_workflow :
      Uuid → Bool → Uuid → Data F → Plant F → Executions F → Executions F × (StartError ⊎ Uuid)
  unfolding new_run
  execute_workflow id taken wid input plant es =
      loaded id taken wid input plant (env.load_workflow wid) es

  unfoldable pub step : Event F → Executions F → Outcome (Unit {0}) (Executions F)
  unfolding execute_workflow cancel_execution turn
  step (executes id taken wid input plant) es = ok (execute_workflow id taken wid input plant es).0
  step (cancels id) es = ok (cancel_execution id es).0
  step (turns id ran) es = turn_found id ran (lookup_id id es) es

  unfoldable pub run_events : List (Event F) → Executions F → Outcome (Unit {0}) (Executions F)
  unfolding step
  run_events [] es = ok es
  run_events (e ∷ evs) es = step e es >>= run_events evs
