-- ===== src/Examples/Engine.antt =====
-- An execution that is cancelled within its first step.
use open_machine_core.Prelude.{
  ℕ, ◌≡◌, ◌≤◌, ◌+◌, refl, sym, subst, ap, List, [], ◌∷◌, true, some, arith, map, Uuid,
}
use open_machine_core.Prelude.Outcome.{ok, Outcome, Gives}
use open_machine_core.Prelude.Maps.{lookup_id, insert_id}
use open_machine_core.Workflow.Executor.{Ran}
use open_machine_core.Workflow.Engine.{pending, running, cancelled}
use open_machine_core.Workflow.Engine.Running.{
  Entry, Executions, Event, executes, turns, cancel_execution, run_events,
}
use open_machine_core.Workflow.Engine.Stored.{AllSound, run_events-AllSound}
use open_machine_core.Workflow.Engine.Cancelling.{recorded}
use open_machine_core.Workflow.Engine.Promptness.{
  recorded-run_events, EndedUnstored, cancel_execution-EndedUnstored,
}
use open_machine_core.Examples.{whole}
use open_machine_core.Examples.Workflow.{env, plant}

abbrev no_executions : Executions ℕ
no_executions = []

abbrev result : Outcome (Unit {0}) (Executions ℕ) → Executions ℕ
result (ok es) = es
result _ = []

abbrev step_ran : Ran ℕ
step_ran = (plant, ok [])

-- Execution 9 of workflow 1 has started, and its first step runs.
abbrev first_events : List (Event ℕ)
first_events =
    executes 9 true 1 [] plant ∷ turns 9 step_ran ∷ turns 9 step_ran ∷ turns 9 step_ran ∷ []

abbrev working : Executions ℕ
working = result (run_events whole env first_events no_executions)

abbrev interrupted : Executions ℕ
interrupted = (cancel_execution 9 working).0

abbrev last_events : List (Event ℕ)
last_events =
    turns 9 step_ran ∷ executes 8 true 2 [] plant ∷ turns 9 step_ran ∷ turns 9 step_ran ∷ []

abbrev stopped : Executions ℕ
stopped = result (run_events whole env last_events interrupted)

working_cancels : cancel_execution 9 working ≡ (interrupted, ok tt)
unfolding run_events cancel_execution lookup_id insert_id
working_cancels = refl

stops : run_events whole env last_events interrupted ≡ ok stopped
unfolding run_events cancel_execution lookup_id insert_id
stops = refl

run_events-AllSound_example : Gives AllSound (run_events whole env first_events no_executions)
run_events-AllSound_example =
    run_events-AllSound whole env first_events no_executions
      (tt, (λ e. cc, (λ e. cc, (λ e. cc, tt)))) tt

recorded-run_events_example : recorded 9 stopped ≤ recorded 9 working + 1
recorded-run_events_example =
    recorded-run_events whole env 9 working interrupted stopped last_events working_cancels stops

working-AllSound : AllSound working
working-AllSound =
    let (es, r, sound) =
      run_events-AllSound whole env first_events no_executions
        (tt, (λ e. cc, (λ e. cc, (λ e. cc, tt)))) tt in
    subst AllSound (sym (ap result r)) sound

-- Its stored row says running from then on, and the execution cancelled.
stopped_states :
    (map (λ (r : Uuid × Entry ℕ). r.1.run.exec.status) stopped ≡ cancelled ∷ pending ∷ [])
    × (map (λ (r : Uuid × Entry ℕ). map (λ x. x.status) r.1.run.updates) stopped
        ≡ (running ∷ []) ∷ [] ∷ [])
unfolding run_events cancel_execution lookup_id insert_id
stopped_states = (refl, refl)

cancel_execution-EndedUnstored_example :
    Gives
      (λ after.
        (before : Entry ℕ) × (en : Entry ℕ) × (lookup_id 9 working ≡ some before)
        × (lookup_id 9 after ≡ some en)
        × EndedUnstored before en)
      (run_events whole env last_events interrupted)
cancel_execution-EndedUnstored_example =
    cancel_execution-EndedUnstored whole env 9 working interrupted last_events working-AllSound
      ((λ e. cc), (tt, ((λ e. cc), ((λ e. cc), tt)))) working_cancels (omega arith)
