-- ===== src/Workflow/Executor.antt =====
-- internal/workflow/executor/executor.go: steps. A subworkflow is executed within the call of its
-- step; `execute` takes fuel for the nesting and returns `none` when it runs out, where the code would
-- recurse for ever.
pub mod Ends
use open_machine_core.Prelude.{
  ℕ, zero, suc, String, List, [], ◌∷◌, Bool, true, false, Option, none, some, if◌then◌else◌, ◌⊎◌,
  inl, inr, Uuid,
}
use open_machine_core.Prelude.Outcome.{Outcome, ok, err, panic, wrap_err}
use open_machine_core.Prelude.Maps.{StringMap, lookup, insert}
use open_machine_core.Types.{Float64}
use open_machine_core.Modbus.Client.{Peer, read_fails}
use open_machine_core.Modbus.Device.{Device}
use open_machine_core.Workflow.Definition.{Workflow, Step, StepType, device, workflow, wait, other}
use open_machine_core.Workflow.Validator.Device.{Env}
use open_machine_core.Workflow.Operations.{
  ExecError, device_not_found, unsupported_step_type, device_operation_failed, wait_interrupted,
  invalid_workflow_id, load_failed, parse_failed, sub_step_failed, Data, merge_params,
  execute_operation,
}

-- The devices, by the name under which the device manager finds them. What answers on the network is
-- an input: for each device operation to come, its peer, and none reads once the list is used up;
-- and for each wait to come, whether its context ends before its time is up.
pub record Plant (F : Type 0) : Type 0 where
  pub devices : StringMap (Device F)
  pub peers : List Peer
  pub interrupts : List Bool

abbrev pub Ran : Type 0 → Type 0
Ran F = Plant F × Outcome ExecError (Data F)

-- the interrupt of the next wait
abbrev next_wait : List Bool → Bool × List Bool
next_wait [] = (false, [])
next_wait (b ∷ bs) = (b, bs)

-- the peer of the next operation
abbrev next_peer : List Peer → Peer × List Peer
next_peer [] = (λ _. read_fails, [])
next_peer (p ∷ ps) = (p, ps)

module _ {F : Type 0} where
  unfoldable pub execute_wait_step : Data F → Plant F → Ran F
  execute_wait_step input plant =
      let (interrupted, rest) = next_wait plant.interrupts in
      (record plant { interrupts = rest }, if interrupted then err wait_interrupted else ok input)

module _ (fl : Float64) where
  open fl use {F}

  abbrev on_device : Option (Device F) → Step F → Data F → Plant F → Ran F
  on_device none step input plant = (plant, err (device_not_found step.device_id))
  on_device (some d) step input plant =
      let (peer, rest) = next_peer plant.peers in
      let (d', r) =
        execute_operation fl step.operation (merge_params step.parameters input) peer d in
      (
        record plant { devices = insert step.device_id d' plant.devices; peers = rest },
        wrap_err device_operation_failed r,
      )

  unfoldable pub execute_device_step : Step F → Data F → Plant F → Ran F
  unfolding execute_operation merge_params insert lookup
  execute_device_step step input plant =
      on_device (lookup step.device_id plant.devices) step input plant

  module _ (env : Env F) (execute : Step F → Data F → Plant F → Option (Ran F)) where
    abbrev sub_result :
        ℕ → String → (Data F → Plant F → Option (Ran F)) → Option (Ran F) → Option (Ran F)
    sub_result i name rest none = none
    sub_result i name rest (some (plant, ok result)) = rest result plant
    sub_result i name rest (some (plant, err e)) = some (plant, err (sub_step_failed i name e))
    sub_result i name rest (some (plant, panic)) = some (plant, panic)

    -- the steps of a subworkflow, each on the result of the one before
    unfoldable pub run_steps : ℕ → List (Step F) → Data F → Plant F → Option (Ran F)
    run_steps i [] input plant = some (plant, ok input)
    run_steps i (step ∷ steps) input plant =
        sub_result i step.name (λ result plant'. run_steps (suc i) steps result plant')
          (execute step input plant)

    abbrev sub_parsed : String ⊎ Workflow F → Data F → Plant F → Option (Ran F)
    sub_parsed (inl e) input plant = some (plant, err (parse_failed e))
    sub_parsed (inr def) input plant = run_steps 0 def.steps input plant

    abbrev sub_loaded : String ⊎ String → Data F → Plant F → Option (Ran F)
    sub_loaded (inl e) input plant = some (plant, err (load_failed e))
    sub_loaded (inr definition) input plant = sub_parsed (env.parse_workflow definition) input plant

    abbrev sub_identified : String ⊎ Uuid → Data F → Plant F → Option (Ran F)
    sub_identified (inl e) input plant = some (plant, err (invalid_workflow_id e))
    sub_identified (inr wid) input plant = sub_loaded (env.load_workflow wid) input plant

    unfoldable pub execute_workflow_step : Step F → Data F → Plant F → Option (Ran F)
    unfolding run_steps
    execute_workflow_step step input plant =
        sub_identified (env.uuid_parse step.workflow_id) input plant

    abbrev execute_type : StepType → Step F → Data F → Plant F → Option (Ran F)
    execute_type device step input plant = some (execute_device_step step input plant)
    execute_type workflow step input plant = execute_workflow_step step input plant
    execute_type wait step input plant = some (execute_wait_step input plant)
    execute_type (other t) step input plant = some (plant, err (unsupported_step_type t))

  unfoldable pub execute : Env F → ℕ → Step F → Data F → Plant F → Option (Ran F)
  unfolding execute_device_step execute_workflow_step execute_wait_step
  execute env zero step input plant = none
  execute env (suc fuel) step input plant =
      execute_type env (λ s i p. execute env fuel s i p) step.step_type step input plant
