-- ===== src/Workflow/Validator/Device.antt =====
-- validator.go: the checks of a device step, and the state that the walk carries.
use open_machine_core.Prelude.{
  ℕ, String, List, [], ◌∷◌, Bool, not, ◌&&◌, ◌||◌, Option, none, some, str_eq, if◌then◌else◌, ◌⊎◌,
  inl, inr, Uuid,
}
use open_machine_core.Prelude.Maps.{StringMap, lookup}
use open_machine_core.Prelude.Text.{text_append, trim_space}
use open_machine_core.Workflow.Definition.{Any, text, Workflow, Step}
use open_machine_core.Workflow.Validator.Report.{
  Severity, sev_error, sev_warning, Meta, Issue, Report, add_error, add_warning,
}

-- What the validator asks of the storage, the JSON decoder and the uuid library. The answers are
-- functions: the database is taken not to change during one validation. `inl` is an error, by its
-- text. A definition is the text of its JSON.
pub record Env (F : Type 0) : Type 0 where
  pub load_workflow : Uuid → String ⊎ String
  pub parse_workflow : String → String ⊎ Workflow F
  pub workflow_exists : Uuid → String ⊎ Bool
  pub device_exists_enabled : String → String ⊎ (Bool × Bool)  -- exists, enabled
  pub uuid_string : Uuid → String
  pub uuid_parse : String → String ⊎ Uuid

-- The maps of the walk: `cache` by its entries, `visiting` by its value at each key, `done` by the
-- keys that were set, the latest first.
pub record WalkState (F : Type 0) : Type 0 where
  pub cache : List (Uuid × Workflow F)
  pub visiting : Uuid → Bool
  pub done : List Uuid
  pub stack : List Uuid
  pub report : Report

abbrev pub no_meta : Meta
no_meta = record { step_index = none; param = none; cycle = [] }

abbrev pub at_step : ℕ → Meta
at_step idx = record { step_index = some idx; param = none; cycle = [] }

-- An issue of a workflow, and one of a step.
abbrev pub workflow_issue : String → Severity → String → String → String → String → Issue
workflow_issue code severity message wid field path = record {
  code = code;
  severity = severity;
  message = message;
  workflow_id = wid;
  step_name = "";
  field = field;
  path = path;
  hint = "";
  meta = no_meta;
}

abbrev pub step_issue : String → String → String → String → ℕ → String → String → Issue
step_issue code message wid step_name idx field path = record {
  code = code;
  severity = sev_error;
  message = message;
  workflow_id = wid;
  step_name = step_name;
  field = field;
  path = path;
  hint = "";
  meta = at_step idx;
}

abbrev pub is_blank : String → Bool
is_blank s = str_eq (trim_space s) ""

-- requiredParamsForOp
unfoldable pub required_params_for_op : String → List String
required_params_for_op op =
    if str_eq op "read"
    then "register_type" ∷ "address" ∷ []
    else if str_eq op "write"
    then "register_type" ∷ "address" ∷ "value" ∷ []
    else if str_eq op "read_logical"
    then "register" ∷ []
    else if str_eq op "write_logical"
    then "register" ∷ "value" ∷ []
    else if str_eq op "read_register"
    then "register" ∷ []
    else if str_eq op "write_register"
    then "register" ∷ "value" ∷ []
    else []

unfoldable pub is_supported : String → Bool
is_supported op =
    str_eq op "read"
    || (str_eq op "write"
        || (str_eq op "read_logical"
            || (str_eq op "write_logical"
                || (str_eq op "read_register" || str_eq op "write_register"))))

module _ {F : Type 0} where
  unfoldable pub report_error : Issue → WalkState F → WalkState F
  unfolding add_error
  report_error i st = record st { report = add_error i st.report }

  unfoldable pub report_warning : Issue → WalkState F → WalkState F
  unfolding add_warning
  report_warning i st = record st { report = add_warning i st.report }

  -- what a check adds when it fails
  unfoldable pub error_if : Bool → Issue → WalkState F → WalkState F
  unfolding report_error
  error_if b i st = if b then report_error i st else st

module _ {F : Type 0} (env : Env F) (wid : Uuid) (step : Step F) (idx : ℕ) (base : String) where
  abbrev device_issue : String → String → String → String → Issue
  device_issue code message field path =
      step_issue code message (env.uuid_string wid) step.name idx field (text_append base path)

  abbrev pub no_device_id : Issue
  no_device_id =
      device_issue "DEVICE_010" "device_id is required for device step" "device_id" "/device_id"

  abbrev pub no_operation : Issue
  no_operation =
      device_issue "DEVICE_011" "operation is required for device step" "operation" "/operation"

  abbrev pub bad_operation : String → Issue
  bad_operation op =
      device_issue "DEVICE_012" (text_append "Unsupported operation: " op) "operation" "/operation"

  abbrev pub bad_type : String → Issue
  bad_type s =
      device_issue "DEVICE_021" (text_append "Invalid register_type: " s) "parameters.register_type"
        "/parameters/register_type"

  abbrev pub lookup_device : String ⊎ (Bool × Bool) → WalkState F → WalkState F
  lookup_device (inl e) st =
      report_error
        (device_issue "DEVICE_999" (text_append "Device lookup failed: " e) "device_id"
          "/device_id")
        st
  lookup_device (inr (exists, enabled)) st =
      if not exists
      then report_error
          (device_issue "DEVICE_001" (text_append "Device not found: " step.device_id) "device_id"
            "/device_id")
          st
      else error_if (not enabled)
          (device_issue "DEVICE_002" (text_append "Device is disabled: " step.device_id) "device_id"
            "/device_id")
          st

  unfoldable pub check_device_id : WalkState F → WalkState F
  unfolding report_error error_if
  check_device_id st =
      if is_blank step.device_id
      then report_error no_device_id st
      else lookup_device (env.device_exists_enabled step.device_id) st

  abbrev pub missing_param : String → String → WalkState F → WalkState F
  missing_param k message st =
      report_warning
        (record {
          code = "DEVICE_020";
          severity = sev_warning;
          message = message;
          workflow_id = env.uuid_string wid;
          step_name = step.name;
          field = text_append "parameters." k;
          path = text_append base "/parameters";
          hint = "Define it in step.parameters or provide it in the execution input";
          meta = record { step_index = some idx; param = some k; cycle = [] };
        })
        st

  abbrev pub check_param : Option (StringMap (Any F)) → String → WalkState F → WalkState F
  check_param none k st =
      missing_param k
        (text_append "Missing parameter '" (text_append k "' (step.parameters is empty)")) st
  check_param (some params) k st = elim (lookup k params) [
    | some _ ↦ st
    | none ↦ missing_param k (text_append "Missing parameter '" (text_append k "'")) st
  ]

  abbrev pub check_params : List String → WalkState F → WalkState F
  check_params [] st = st
  check_params (k ∷ ks) st = check_params ks (check_param step.parameters k st)

  abbrev pub bad_register_type : Option (Any F) → WalkState F → WalkState F
  bad_register_type (some (text s)) st =
      error_if (not (str_eq s "holding") && not (str_eq s "input")) (bad_type s) st
  bad_register_type _ st = st

  abbrev pub check_register_type : Option (StringMap (Any F)) → WalkState F → WalkState F
  check_register_type none st = st
  check_register_type (some params) st = bad_register_type (lookup "register_type" params) st

  unfoldable pub check_operation : WalkState F → WalkState F
  unfolding report_error report_warning error_if required_params_for_op is_supported lookup
      trim_space
  check_operation st =
      let op = trim_space step.operation in
      if str_eq op ""
      then report_error no_operation st
      else if not (is_supported op)
      then report_error (bad_operation op) st
      else let warned = check_params (required_params_for_op op) st in
        if str_eq op "read" || str_eq op "write"
        then check_register_type step.parameters warned
        else warned

  unfoldable pub validate_device_step : WalkState F → WalkState F
  unfolding check_device_id check_operation
  validate_device_step st = check_operation (check_device_id st)
