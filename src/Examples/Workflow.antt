-- ===== src/Examples/Workflow.antt =====
-- A workflow with a subworkflow, stored, validated and executed.
use open_machine_core.Prelude.{
  ℕ, ◌≡◌, ◌≢◌, ◌≤◌, refl, List, [], ◌∷◌, Bool, true, Option, none, some, ◌⊎◌, inl, inr, Uuid,
  str_eq, if◌then◌else◌, ◌==◌, Memᴰ, arith, All,
}
use open_machine_core.Prelude.Int.{pos}
use open_machine_core.Workflow.Definition.{
  Workflow, Step, device, workflow, wait, ErrorStrategy, text,
}
use open_machine_core.Workflow.Validator.Report.{Report}
use open_machine_core.Workflow.Validator.Device.{Env}
use open_machine_core.Workflow.Validator.Walk.{validate_by_id}
use open_machine_core.Workflow.Validator.Walk.Checks.{Loads}
use open_machine_core.Workflow.Validator.Walk.Order.{Sane, Reaches}
use open_machine_core.Workflow.Validator.Walk.Valid.{validate_by_id-valid}
use open_machine_core.Workflow.Validator.Walk.Total.{validate_by_id_ends}
use open_machine_core.Workflow.Operations.{Data}
use open_machine_core.Workflow.Executor.{Plant, execute}
use open_machine_core.Workflow.Executor.Ends.{Answers, execute_validated}
use open_machine_core.Workflow.Engine.{success, RunState, Finish, returned, run_execution, new_run}
use open_machine_core.Workflow.Engine.Runs.{Left, run_execution-Left}
use open_machine_core.Workflow.Engine.Ends.{run_execution_ends}
use open_machine_core.Modbus.Client.Server.{serve}
use open_machine_core.Modbus.Frame.{encode, decode_frame, parse_register_response}
use open_machine_core.Examples.{whole}
use open_machine_core.Examples.Modbus.{device as drive, peer}

abbrev pause : Step ℕ
pause = record {
  number = "20";
  name = "settle";
  step_type = wait;
  device_id = "";
  operation = "";
  parameters = none;
  workflow_id = "";
  condition = "";
  on_error = ErrorStrategy.fail;
  timeout = pos 0;
}

abbrev read_level : Step ℕ
read_level = record pause {
  number = "10";
  name = "read the level";
  step_type = device;
  device_id = "drive";
  operation = "read_register";
  parameters = some (("register", text "level") ∷ []);
}

abbrev call_sub : Step ℕ
call_sub = record pause { name = "measure"; step_type = workflow; workflow_id = "2" }

abbrev sub_workflow : Workflow ℕ
sub_workflow = record {
  id = "2";
  name = "measure";
  program_name = "measure";
  description = "";
  version = "1";
  steps = read_level ∷ pause ∷ [];
  variables = [];
  loop_config = none;
}

abbrev main_workflow : Workflow ℕ
main_workflow = record sub_workflow {
  id = "1";
  name = "main";
  program_name = "main";
  steps = call_sub ∷ pause ∷ [];
}

-- Workflow 1 is `main_workflow`, workflow 2 is `sub_workflow`, and there is no other.
abbrev pub env : Env ℕ
env = record {
  load_workflow =
      λ id. if id == 1 then inr "main" else if id == 2 then inr "sub" else inl "no rows";
  parse_workflow = λ t.
      if str_eq t "main"
      then inr main_workflow
      else if str_eq t "sub"
      then inr sub_workflow
      else inl "invalid";
  workflow_exists = λ id. inr (if id == 1 then true else id == 2);
  device_exists_enabled = λ d. inr (str_eq d "drive", true);
  uuid_string = λ id. if id == 1 then "1" else "2";
  uuid_parse =
      λ t. if str_eq t "1" then inr 1 else if str_eq t "2" then inr 2 else inl "invalid UUID";
}

abbrev good_report : Report
good_report = record { valid = true; errors = []; warnings = [] }

validated : validate_by_id env 3 1 ≡ inr (some good_report)
unfolding validate_by_id
validated = refl

validate_by_id-valid_example :
    Sane env 1
    × ((x : Uuid) → Reaches env 1 x → Sane env x × (¬ Reaches env x x))
    × (¬ Reaches env 1 1)
validate_by_id-valid_example = validate_by_id-valid env 3 1 good_report validated refl

stored_known : (x : Uuid) → env.workflow_exists x ≡ inr true → Memᴰ x (1 ∷ 2 ∷ [])
stored_known x e = elim (listed x e) [ inl h ↦ Memᴰ.head h | inr h ↦ Memᴰ.tail (Memᴰ.head h) ]
  where
    listed : (x : Uuid) → env.workflow_exists x ≡ inr true → (x ≡ 1) ⊎ (x ≡ 2)
    listed x e = ground arith

validate_by_id_ends_example : validate_by_id env 3 1 ≢ inr none
validate_by_id_ends_example =
    validate_by_id_ends env (1 ∷ 2 ∷ []) (λ x e. stored_known x e) 3 1 (Memᴰ.head refl)
      (omega arith)

abbrev pub plant : Plant ℕ
plant = record { devices = ("drive", drive) ∷ []; peers = peer ∷ []; interrupts = [] }

main-Loads : Loads env 1 main_workflow
main-Loads = ("main", refl, refl)

execute_validated_example :
    (depth : ℕ) × ((n : ℕ) (def : Workflow ℕ)
      → depth ≤ n
      → Loads env 1 def
      → All (Answers whole env (λ s i p. execute whole env n s i p)) def.steps)
execute_validated_example = execute_validated whole env 3 1 good_report validated refl

run_execution_ends_example :
    (depth : ℕ) × ((n : ℕ) (def : Workflow ℕ) (input : Data ℕ) (cancels : List Bool)
        (s : RunState ℕ)
      → depth ≤ n
      → Loads env 1 def
      → (q : RunState ℕ × Finish) × (run_execution whole env n def input cancels s ≡ some q))
run_execution_ends_example = run_execution_ends whole env 3 1 good_report validated refl

abbrev begun : RunState ℕ
begun = new_run whole 9 1 main_workflow "1" plant

abbrev state_of : Option (RunState ℕ × Finish) → RunState ℕ
state_of none = begun
state_of (some (s, finish)) = s

abbrev after : RunState ℕ
after = state_of (run_execution whole env 2 main_workflow [] [] begun)

ran : run_execution whole env 2 main_workflow [] [] begun ≡ some (after, returned)
unfolding run_execution new_run serve decode_frame encode parse_register_response
ran = refl

-- The run ends in success.
after_status : after.exec.status ≡ success
unfolding run_execution new_run serve decode_frame encode parse_register_response
after_status = refl

run_execution-Left_example : Left main_workflow.steps begun after
run_execution-Left_example =
    run_execution-Left whole env 2 9 1 main_workflow [] [] "1" plant after ran
