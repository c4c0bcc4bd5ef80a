-- ===== src/Workflow/Engine.antt =====
-- internal/workflow/engine/engine.go: one execution of a workflow, from the goroutine's start to its
-- end. Times are left out but for the presence of a completion time; the writes to the storage, the
-- events and the messages to the hub are logs, the latest first. A write succeeds unless the context
-- that it is given is done.
pub mod Runs
pub mod Ends
pub mod Running
pub mod Stored
pub mod Cancelling
pub mod Promptness
use open_machine_core.Prelude.{
  ℕ, suc, String, List, [], ◌∷◌, Bool, true, false, ◌||◌, take, ◌++◌, Option, none, some, Uuid,
  length, if◌then◌else◌,
}
use open_machine_core.Prelude.Outcome.{Outcome, ok, err, panic}
use open_machine_core.Types.{Float64}
use open_machine_core.Workflow.Definition.{Workflow, Step, CallFrame, build_hierarchical_step_id}
use open_machine_core.Workflow.Validator.Device.{Env}
use open_machine_core.Workflow.Operations.{Data, ExecError}
use open_machine_core.Workflow.Executor.{Plant, Ran, execute}

pub data Status : Type 0 where
  pending running success failed cancelled : Status

pub record Execution : Type 0 where
  pub id : Uuid
  pub workflow_id : Uuid
  pub status : Status
  pub current_step_id : String
  pub call_stack : List CallFrame
  pub completed : Bool  -- CompletedAt is set

pub record ExecutionStep (F : Type 0) : Type 0 where
  pub step_index : ℕ
  pub step_name : String
  pub hierarchical_step_id : String
  pub depth : ℕ
  pub status : Status
  pub output : Option (Data F)
  pub error : Option ExecError
  pub completed : Bool

pub data MessageType : Type 0 where
  workflow_started workflow_step workflow_completed workflow_failed workflow_cancelled : MessageType

-- a message to the hub: its type, the name of its step and its status
pub record Message : Type 0 where
  pub message_type : MessageType
  pub step_name : String
  pub status : String

-- an event of an execution: its type, and the index and the id of its step
pub record EventRecord : Type 0 where
  pub event_type : String
  pub step_index : ℕ
  pub hierarchical_step_id : String

pub record RunState (F : Type 0) : Type 0 where
  pub exec : Execution
  pub call_stack : List CallFrame  -- of the tracker
  pub plant : Plant F
  pub done : Bool  -- the execution's context is done
  pub updates : List Execution  -- what UpdateExecution wrote
  pub steps : List (ExecutionStep F)  -- the steps that were begun, as the code holds them
  pub step_writes : List (ExecutionStep F)  -- what the database was given of them
  pub events : List EventRecord  -- what the streamer was given
  pub stored_events : List EventRecord
  pub messages : List Message

-- How the goroutine ends: a panic ends the program.
pub data Finish : Type 0 where
  returned crashed : Finish

-- Push, Pop and SetCurrentStep of the tracker; the stack grows at its end.
unfoldable pub push : String → String → String → List CallFrame → List CallFrame
push workflow_id program_name step_number [] =
    record { workflow_id = workflow_id; program_name = program_name; step_number = step_number }
    ∷ []
push workflow_id program_name step_number (frame ∷ frames) =
    frame ∷ push workflow_id program_name step_number frames

unfoldable pub pop : List CallFrame → List CallFrame
pop [] = []
pop (frame ∷ []) = []
pop (frame ∷ next ∷ frames) = frame ∷ pop (next ∷ frames)

unfoldable pub set_current_step : String → List CallFrame → List CallFrame
set_current_step step_number [] = []
set_current_step step_number (frame ∷ []) = record frame { step_number = step_number } ∷ []
set_current_step step_number (frame ∷ next ∷ frames) =
    frame ∷ set_current_step step_number (next ∷ frames)

-- whether the context is done when the next round looks
abbrev pub is_done : List Bool → Bool
is_done [] = false
is_done (b ∷ bs) = b

abbrev pub later : List Bool → List Bool
later [] = []
later (b ∷ bs) = bs

module _ {F : Type 0} where
  -- The code writes with the execution's context: once that is done the write fails, and the error
  -- is ignored.
  abbrev pub unless_done : {A : Type 0} → RunState F → A → List A → List A
  unless_done s row rows = if s.done then rows else row ∷ rows

  abbrev pub update_execution : RunState F → RunState F
  update_execution s = record s { updates = unless_done s s.exec s.updates }

  -- Another goroutine may have cancelled the execution meanwhile.
  abbrev pub interrupt : List Bool → RunState F → RunState F
  interrupt cancels s = record s { done = s.done || is_done cancels }

  abbrev pub send : MessageType → String → String → RunState F → RunState F
  send t step_name status s = record s {
    messages = record { message_type = t; step_name = step_name; status = status } ∷ s.messages;
  }

  -- publishEvent
  abbrev pub publish_event : String → ℕ → String → RunState F → RunState F
  publish_event t index id s =
      let e : EventRecord = record {
        event_type = t;
        step_index = index;
        hierarchical_step_id = id;
      } in
      record s { events = e ∷ s.events; stored_events = unless_done s e s.stored_events }

  -- the position of the tracker, copied into the execution
  abbrev pub track : RunState F → RunState F
  track s = record s {
    exec = record s.exec {
      current_step_id = build_hierarchical_step_id s.call_stack;
      call_stack = s.call_stack;
    };
  }

  abbrev pub complete : Status → RunState F → RunState F
  complete status s = record s { exec = record s.exec { status = status; completed = true } }

  -- CreateExecutionStep
  abbrev pub create_step : ExecutionStep F → RunState F → RunState F
  create_step step s = record s {
    steps = step ∷ s.steps;
    step_writes = unless_done s step s.step_writes;
  }

  -- UpdateExecutionStep of the step that was created last
  abbrev pub first_updated :
      (ExecutionStep F → ExecutionStep F) → List (ExecutionStep F) → List (ExecutionStep F)
  first_updated f [] = []
  first_updated f (step ∷ steps) = f step ∷ steps

  abbrev pub update_step : (ExecutionStep F → ExecutionStep F) → RunState F → RunState F
  update_step f s = record s {
    steps = first_updated f s.steps;
    step_writes =
        if s.done then s.step_writes else take 1 (first_updated f s.steps) ++ s.step_writes;
  }

  abbrev pub begin_step : ℕ → Step F → RunState F → RunState F
  begin_step index step s =
      let stack = set_current_step step.number s.call_stack in
      let id = build_hierarchical_step_id stack in
      publish_event "step.started" index id (
        create_step
          (record {
            step_index = index;
            step_name = step.name;
            hierarchical_step_id = id;
            depth = length stack;
            status = running;
            output = none;
            error = none;
            completed = false;
          })
          (record s { call_stack = stack }))

  abbrev pub end_step : ℕ → Ran F → RunState F → RunState F × Outcome ExecError (Data F)
  end_step index (plant, ok output) s = (
    publish_event "step.completed" index (build_hierarchical_step_id s.call_stack) (
        update_step (λ r. record r { status = success; output = some output; completed = true })
          (record s { plant = plant })),
    ok output,
  )
  end_step index (plant, err e) s = (
    publish_event "step.failed" index (build_hierarchical_step_id s.call_stack) (
        update_step (λ r. record r { status = failed; error = some e; completed = true })
          (record s { plant = plant })),
    err e,
  )
  end_step index (plant, panic) s = (record s { plant = plant }, panic)

  -- the start of the goroutine
  abbrev pub begin_run : RunState F → RunState F
  begin_run s =
      send workflow_step "" "running"
        (update_execution (record s { exec = record s.exec { status = running } }))

  abbrev pub cancel_round : Step F → RunState F → RunState F
  cancel_round step s =
      send workflow_cancelled step.name "cancelled"
        (update_execution (track (complete cancelled s)))

  abbrev pub fail_round : Step F → RunState F → RunState F
  fail_round step s = send workflow_failed step.name "failed" (update_execution (complete failed s))

  abbrev pub succeed : RunState F → RunState F
  succeed s = send workflow_completed "" "success" (update_execution (track (complete success s)))

  -- `Execute` on a step, with what it leaves of the plant
  module _ (exec_step : Step F → Data F → Plant F → Option (Ran F)) (input : Data F) where
    abbrev pub executed :
        ℕ
        → List Bool
        → Option (Ran F)
        → RunState F
        → Option (RunState F × Outcome ExecError (Data F))
    executed index cancels none s = none
    executed index cancels (some ran) s = some (end_step index ran (interrupt cancels s))

    unfoldable pub execute_step :
        ℕ → Step F → List Bool → RunState F → Option (RunState F × Outcome ExecError (Data F))
    unfolding set_current_step build_hierarchical_step_id
    execute_step index step cancels s =
        executed index cancels (exec_step step input s.plant) (begin_step index step s)

    abbrev pub after_step :
        (RunState F → Option (RunState F × Finish))
        → Step F
        → Option (RunState F × Outcome ExecError (Data F))
        → Option (RunState F × Finish)
    after_step rest step none = none
    after_step rest step (some (s, ok output)) =
        rest (send workflow_step step.name "completed" (track s))
    after_step rest step (some (s, err e)) = some (fail_round step (track s), returned)
    after_step rest step (some (s, panic)) = some (s, crashed)

    -- A round, from what the context's Done says.
    abbrev pub run_round :
        (List Bool → RunState F → Option (RunState F × Finish))
        → ℕ
        → Step F
        → List Bool
        → RunState F
        → Option (RunState F × Finish)
    run_round rest index step cancels s =
        if s.done
        then some (cancel_round step s, returned)
        else after_step (rest (later cancels)) step
            (execute_step index step cancels (send workflow_step step.name "running" s))

    -- The loop over the steps. The list tells whether the execution was cancelled, at each select
    -- and after each step.
    unfoldable pub run_steps :
        ℕ → List (Step F) → List Bool → RunState F → Option (RunState F × Finish)
    unfolding execute_step build_hierarchical_step_id
    run_steps index [] cancels s = some (succeed (interrupt cancels s), returned)
    run_steps index (step ∷ steps) cancels s =
        run_round (λ cs t. run_steps (suc index) steps cs t) index step (later cancels)
          (interrupt cancels s)

module _ (fl : Float64) where
  open fl use {F}

  -- the state in which ExecuteWorkflow starts the goroutine
  unfoldable pub new_run : Uuid → Uuid → Workflow F → String → Plant F → RunState F
  unfolding push
  new_run execution_id workflow_id def wid plant = record {
    exec = record {
      id = execution_id;
      workflow_id = workflow_id;
      status = pending;
      current_step_id = "";
      call_stack = [];
      completed = false;
    };
    call_stack = push wid def.program_name "0" [];
    plant = plant;
    done = false;
    updates = [];
    steps = [];
    step_writes = [];
    events = [];
    stored_events = [];
    messages = record { message_type = workflow_started; step_name = ""; status = "pending" } ∷ [];
  }

  unfoldable pub run_execution :
      Env F → ℕ → Workflow F → Data F → List Bool → RunState F → Option (RunState F × Finish)
  unfolding run_steps execute
  run_execution env fuel def input cancels s =
      run_steps (λ t i p. execute fl env fuel t i p) input 0 def.steps (later cancels)
        (begin_run (interrupt cancels s))
