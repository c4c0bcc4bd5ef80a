-- ===== src/Workflow/Engine/Stored.antt =====
-- engine.go: what is stored of the executions of an engine, meanwhile and at the end.
use open_machine_core.Prelude.{
  String, List, [], ◌∷◌, ◌≡◌, refl, Bool, true, false, Uuid, ◌⊎◌, inl, inr, All, if_rule,
  if◌then◌else◌, ◌≢◌, Option, none, some,
}
use open_machine_core.Prelude.Outcome.{ok, err, panic, Gives, Gives-bind}
use open_machine_core.Prelude.Maps.{
  lookup_id, EachEntry, EachEntry-insert_id, OfSome, EachEntry-lookup_id,
}
use open_machine_core.Types.{Float64}
use open_machine_core.Workflow.Definition.{build_hierarchical_step_id, Workflow}
use open_machine_core.Workflow.Validator.Device.{Env}
use open_machine_core.Workflow.Operations.{Data}
use open_machine_core.Workflow.Executor.{Plant, Ran}
use open_machine_core.Workflow.Engine.{
  pending, running, success, failed, end_step, Status, Execution, RunState, cancel_round, track,
  complete, new_run,
}
use open_machine_core.Workflow.Engine.Runs.{IsFinal, RowRunning, Unfinished, begun_lem}
use open_machine_core.Workflow.Engine.Running.{
  Phase, starting, looping, entering, executing, leaving, gone, Entry, Executions, cancelled,
  turned, turn, cancel_found, cancel_execution, turn_found, Event, executes, cancels, turns,
  new_entry, created, parsed, loaded, execute_workflow, step, run_events,
}

abbrev Created : {F : Type 0} → RunState F → Type 0
Created s =
    (s.updates ≡ [])
    × (s.exec.status ≡ pending)
    × (s.exec.completed ≡ false)
    × (s.exec.current_step_id ≡ "")

-- The stored row does not say that the execution has ended, and says that it runs unless it was
-- cancelled.
abbrev Begun : {F : Type 0} → RunState F → Type 0
Begun s = Unfinished s.updates × (s.done ≡ false → RowRunning s.updates)

-- The execution has a final status and a completion time, which are stored, or it was cancelled
-- and its stored row does not say that it has ended.
abbrev pub HasEnded : {F : Type 0} → RunState F → Type 0
HasEnded s =
    IsFinal s.exec.status
    × (s.exec.completed ≡ true)
    × (((before : List Execution) × (s.updates ≡ s.exec ∷ before))
        ⊎ ((s.done ≡ true) × Unfinished s.updates))

-- What holds in a phase: whether the maps hold the execution, and what is stored of it.
abbrev pub Phased : {F : Type 0} → Phase F → Bool → RunState F → Type 0
Phased (starting steps) registered s = (registered ≡ true) × Created s
Phased (looping index steps) registered s = (registered ≡ true) × Begun s
Phased (entering index step steps) registered s = (registered ≡ true) × Begun s
Phased (executing index step steps) registered s = (registered ≡ true) × Begun s
Phased leaving registered s = (registered ≡ true) × HasEnded s
Phased gone registered s = (registered ≡ false) × HasEnded s

abbrev pub IsSound : {F : Type 0} → Entry F → Type 0
IsSound en = Phased en.phase en.registered en.run

abbrev pub AllSound : {F : Type 0} → Executions F → Type 0
AllSound es = EachEntry IsSound es

-- The executor does not panic.
abbrev pub Returns : {F : Type 0} → Event F → Type 0
Returns (executes id taken wid input plant) = Unit
Returns (cancels id) = Unit
Returns (turns id ran) = ran.1 ≢ panic

-- A last update reaches the database, or the context is done.
last_update :
    (d : Bool) (x : Execution) (old : List Execution)
    → Unfinished old
    → ((before : List Execution) × ((if d then old else x ∷ old) ≡ x ∷ before))
      ⊎ ((d ≡ true) × Unfinished (if d then old else x ∷ old))
last_update true x old h = inr (refl, h)
last_update false x old h = inl (old, refl)

first_update :
    (d : Bool) (x : Execution) (old : List Execution)
    → x.status ≡ running
    → x.current_step_id ≡ ""
    → d ≡ false
    → RowRunning (if d then old else x ∷ old)
first_update true x old r p e = cc
first_update false x old r p e = (x, old, refl, r, p)

module _ {F : Type 0} where
  turned-IsSound :
      (ran : Ran F) (phase : Phase F) (en : Entry F)
      → (ran.1 ≢ panic)
      → Phased phase en.registered en.run
      → Gives IsSound (turned ran phase en)
  unfolding build_hierarchical_step_id
  turned-IsSound ran (starting steps) en n h =
      let x : Execution = record en.run.exec { status = running } in
      (
        _,
        refl,
        (
          h.0,
          (
            begun_lem en.run.done x en.run.updates (inl h.1.0) refl h.1.3,
            first_update en.run.done x en.run.updates refl h.1.3,
          ),
        ),
      )
  turned-IsSound ran (looping index []) en n h = (
    _,
    refl,
    (
      h.0,
      (
        tt,
        refl,
        last_update en.run.done (track (complete success en.run)).exec en.run.updates h.1.0,
      ),
    ),
  )
  turned-IsSound ran (looping index (st ∷ steps)) en n h =
      if_rule (Gives IsSound) en.run.done
        (ok (record en { phase = leaving; run = cancel_round st en.run }))
        (ok (record en { phase = entering index st steps }))
        (λ _. (
          _,
          refl,
          (
            h.0,
            (
              tt,
              refl,
              last_update en.run.done (track (complete Status.cancelled en.run)).exec en.run.updates
                  h.1.0,
            ),
          ),
        ))
        (λ _. (_, refl, h))
  turned-IsSound ran (entering index st steps) en n h = (_, refl, h)
  turned-IsSound (plant, ok output) (executing index st steps) en n h = (_, refl, h)
  turned-IsSound (plant, err e) (executing index st steps) en n h = (
    _,
    refl,
    (
      h.0,
      (
        tt,
        refl,
        last_update en.run.done
            (complete failed (track (end_step index (plant, err e) en.run).0)).exec en.run.updates
            h.1.0,
      ),
    ),
  )
  turned-IsSound (plant, panic) (executing index st steps) en n h = absurd (n refl)
  turned-IsSound ran leaving en n h = (_, refl, (refl, h.1))
  turned-IsSound ran gone en n h = (_, refl, h)

  cancelled_ended : (s : RunState F) → HasEnded s → HasEnded (record s { done = true })
  cancelled_ended s (f, c, inl stored) = (f, c, inl stored)
  cancelled_ended s (f, c, inr lost) = (f, c, inr (refl, lost.1))

  cancelled-Phased :
      (phase : Phase F) (registered : Bool) (s : RunState F)
      → Phased phase registered s
      → Phased phase registered (record s { done = true })
  cancelled-Phased (starting steps) registered s h = h
  cancelled-Phased (looping index steps) registered s h = (h.0, (h.1.0, λ e. cc))
  cancelled-Phased (entering index st steps) registered s h = (h.0, (h.1.0, λ e. cc))
  cancelled-Phased (executing index st steps) registered s h = (h.0, (h.1.0, λ e. cc))
  cancelled-Phased leaving registered s h = (h.0, cancelled_ended s h.1)
  cancelled-Phased gone registered s h = (h.0, cancelled_ended s h.1)

  cancel_found-IsSound :
      (id : Uuid) (o : Option (Entry F)) (es : Executions F)
      → OfSome IsSound o
      → AllSound es
      → AllSound (cancel_found id o es).0
  cancel_found-IsSound id none es k h = h
  cancel_found-IsSound id (some en) es k h =
      if_rule (λ (r : Executions F × _). AllSound r.0) en.registered _ _
        (λ _.
          EachEntry-insert_id IsSound id (cancelled en) es
            (cancelled-Phased en.phase en.registered en.run k) h)
        (λ _. h)

  turn_found-IsSound :
      (id : Uuid) (ran : Ran F) (o : Option (Entry F)) (es : Executions F)
      → (ran.1 ≢ panic)
      → OfSome IsSound o
      → AllSound es
      → Gives AllSound (turn_found id ran o es)
  unfolding turn
  turn_found-IsSound id ran none es n k h = (es, refl, h)
  turn_found-IsSound id ran (some en) es n k h =
      Gives-bind (turned ran en.phase en) _ (turned-IsSound ran en.phase en n k)
        (λ en' k'. (_, refl, EachEntry-insert_id IsSound id en' es k' h))

  pub cancel_execution-AllSound :
      (id : Uuid) (es : Executions F) → AllSound es → AllSound (cancel_execution id es).0
  unfolding cancel_execution
  cancel_execution-AllSound id es h =
      cancel_found-IsSound id (lookup_id id es) es (EachEntry-lookup_id IsSound id es h) h

module _ (fl : Float64) (env : Env fl.F) where
  open fl use {F}

  created-IsSound :
      (id : Uuid) (taken : Bool) (en : Entry F) (o : Option (Entry F)) (es : Executions F)
      → IsSound en
      → AllSound es
      → AllSound (created fl env id taken en o es).0
  created-IsSound id taken en (some other) es k h = h
  created-IsSound id true en none es k h = EachEntry-insert_id IsSound id en es k h
  created-IsSound id false en none es k h = h

  loaded-IsSound :
      (id : Uuid) (taken : Bool) (wid : Uuid) (input : Data F) (plant : Plant F)
      (r : String ⊎ String) (es : Executions F)
      → AllSound es
      → AllSound (loaded fl env id taken wid input plant r es).0
  unfolding new_run
  loaded-IsSound id taken wid input plant (inl e) es h = h
  loaded-IsSound id taken wid input plant (inr text) es h = parsed-IsSound (env.parse_workflow text)
    where
      parsed-IsSound :
          (r : String ⊎ Workflow F) → AllSound (parsed fl env id taken wid input plant r es).0
      parsed-IsSound (inl e) = h
      parsed-IsSound (inr def) =
          created-IsSound id taken (new_entry fl env id wid input plant def) (lookup_id id es) es
            (refl, (refl, refl, refl, refl)) h

  step-AllSound :
      (e : Event F) (es : Executions F)
      → Returns e
      → AllSound es
      → Gives AllSound (step fl env e es)
  unfolding step execute_workflow
  step-AllSound (executes id taken wid input plant) es r h =
      (_, refl, loaded-IsSound id taken wid input plant (env.load_workflow wid) es h)
  step-AllSound (cancels id) es r h = (_, refl, cancel_execution-AllSound id es h)
  step-AllSound (turns id ran) es r h =
      turn_found-IsSound id ran (lookup_id id es) es r (EachEntry-lookup_id IsSound id es h) h

  -- However calls of ExecuteWorkflow and CancelExecution interleave with the goroutines, nothing
  -- panics unless the executor does, and between the steps each execution is in the engine's maps
  -- up to the last operation of its goroutine; until the goroutine returns, its stored row says
  -- pending, or running and without a current step, the latter from the goroutine's first turn on
  -- unless it was cancelled; afterwards the execution has a final status and a completion time,
  -- which are stored, unless its context is done: then the stored row may still say pending, or
  -- running and without a current step.
  pub run_events-AllSound :
      (evs : List (Event F)) (es : Executions F)
      → All Returns evs
      → AllSound es
      → Gives AllSound (run_events fl env evs es)
  unfolding run_events
  run_events-AllSound [] es r h = (es, refl, h)
  run_events-AllSound (e ∷ evs) es r h =
      Gives-bind (step fl env e es) (run_events fl env evs) (step-AllSound e es r.0 h)
        (λ es' k. run_events-AllSound evs es' r.1 k)
