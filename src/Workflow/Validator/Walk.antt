-- ===== src/Workflow/Validator/Walk.antt =====
-- validator.go: the walk. `walk` takes fuel, one unit for each workflow on its stack, and returns
-- `none` when it runs out; `Fuel` shows how much is enough.
pub mod Checks
pub mod DeviceChecks
pub mod Order
pub mod Sound
pub mod Found
pub mod Valid
pub mod Fuel
pub mod Total
use open_machine_core.Prelude.{
  ℕ, zero, suc, String, List, [], ◌∷◌, ◌++◌, Bool, true, false, ◌&&◌, ◌||◌, Option, none, some,
  if◌then◌else◌, ◌⊎◌, inl, inr, Uuid, ◌==◌, map,
}
use open_machine_core.Prelude.Int.{ℤ, pos, negsuc}
use open_machine_core.Prelude.Text.{text_append, decimal}
use open_machine_core.Workflow.Definition.{
  Workflow, Step, StepType, device, workflow, wait, other, LoopConfig,
}
use open_machine_core.Workflow.Validator.Report.{
  sev_error, sev_warning, Issue, Report, empty_report, add_error, finalize,
}
use open_machine_core.Workflow.Validator.Device.{
  Env, WalkState, workflow_issue, step_issue, is_blank, report_error, report_warning, error_if,
  validate_device_step,
}

-- done[wid], over the keys that were set
unfoldable pub contains : List Uuid → Uuid → Bool
contains [] wid = false
contains (x ∷ xs) wid = x == wid || contains xs wid

-- the part of the stack from its first `target` on
abbrev pub from_target : Uuid → List Uuid → Option (List Uuid)
from_target target [] = none
from_target target (x ∷ xs) = if x == target then some (x ∷ xs) else from_target target xs

-- m[wid] = b
abbrev pub set_flag : Uuid → Bool → (Uuid → Bool) → Uuid → Bool
set_flag wid b m id = if id == wid then b else m id

-- stack[:len(stack)-1]
unfoldable pub pop : List Uuid → List Uuid
pop [] = []
pop (x ∷ []) = []
pop (x ∷ y ∷ ys) = x ∷ pop (y ∷ ys)

abbrev pub is_negative : ℤ → Bool
is_negative (pos n) = false
is_negative (negsuc n) = true

abbrev pub bad_loop : Option LoopConfig → Bool
bad_loop none = false
bad_loop (some loop) = loop.enabled && is_negative loop.max_count

module _ {F : Type 0} where
  unfoldable pub cache_lookup : Uuid → List (Uuid × Workflow F) → Option (Workflow F)
  cache_lookup wid [] = none
  cache_lookup wid ((id, def) ∷ rest) = if id == wid then some def else cache_lookup wid rest

  -- a warning that a check adds when it fails
  unfoldable pub warning_if : Bool → Issue → WalkState F → WalkState F
  unfolding report_warning
  warning_if b i st = if b then report_warning i st else st

  infixl 5 ◌>>=◌
  abbrev pub ◌>>=◌ :
      Option (WalkState F) → (WalkState F → Option (WalkState F)) → Option (WalkState F)
  none >>= f = none
  some st >>= f = f st

module _ {F : Type 0} (env : Env F) where
  abbrev pub wf_issue : String → String → Uuid → String → String → Issue
  wf_issue code message wid field path =
      workflow_issue code sev_error message (env.uuid_string wid) field path

  abbrev pub parsed :
      Uuid → String ⊎ Workflow F → WalkState F → WalkState F × (String ⊎ Option (Workflow F))
  parsed wid (inl e) st = (
    report_error
        (wf_issue "WORKFLOW_900" (text_append "Workflow definition JSON invalid: " e) wid
          "definition" "/definition")
        st,
    inr none,
  )
  parsed wid (inr def) st = (record st { cache = (wid, def) ∷ st.cache }, inr (some def))

  abbrev pub loaded :
      Uuid → String ⊎ String → WalkState F → WalkState F × (String ⊎ Option (Workflow F))
  loaded wid (inl e) st = (st, inl e)
  loaded wid (inr definition) st = parsed wid (env.parse_workflow definition) st

  abbrev pub stored :
      Uuid → String ⊎ Bool → WalkState F → WalkState F × (String ⊎ Option (Workflow F))
  stored wid (inl e) st = (st, inl e)
  stored wid (inr false) st = (st, inr none)
  stored wid (inr true) st = loaded wid (env.load_workflow wid) st

  abbrev pub from_cache :
      Uuid → Option (Workflow F) → WalkState F → WalkState F × (String ⊎ Option (Workflow F))
  from_cache wid (some def) st = (st, inr (some def))
  from_cache wid none st = stored wid (env.workflow_exists wid) st

  unfoldable pub get_workflow : Uuid → WalkState F → WalkState F × (String ⊎ Option (Workflow F))
  unfolding report_error cache_lookup
  get_workflow wid st = from_cache wid (cache_lookup wid st.cache) st

  -- the ids of a cycle, from the first visit of its target back to it
  abbrev pub path_strings : Option (List Uuid) → Uuid → List String
  path_strings none target = env.uuid_string target ∷ []
  path_strings (some ids) target = map env.uuid_string ids ++ env.uuid_string target ∷ []

  unfoldable pub cycle_path : Uuid → WalkState F → List String
  cycle_path target st = path_strings (from_target target st.stack) target

  module _ (walk : Uuid → WalkState F → Option (WalkState F)) (wid : Uuid) (step : Step F) (idx : ℕ)
      (base : String) where
    abbrev pub sub_issue : String → String → Issue
    sub_issue code message =
        step_issue code message (env.uuid_string wid) step.name idx "workflow_id"
          (text_append base "/workflow_id")

    abbrev pub cycle_issue : Uuid → WalkState F → Issue
    cycle_issue sub_id st =
        record (sub_issue "WORKFLOW_050" "Circular workflow reference detected") {
          meta = record { step_index = some idx; param = none; cycle = cycle_path sub_id st };
        }

    abbrev pub sub_existing : Uuid → String ⊎ Bool → WalkState F → Option (WalkState F)
    sub_existing sub_id (inl e) st =
        some (report_error (sub_issue "WORKFLOW_999" (text_append "Workflow lookup failed: " e)) st)
    sub_existing sub_id (inr false) st = some (
        report_error
          (sub_issue "WORKFLOW_003"
            (text_append "Referenced workflow not found: " (env.uuid_string sub_id)))
          st)
    sub_existing sub_id (inr true) st =
        if st.visiting sub_id
        then some (report_error (cycle_issue sub_id st) st)
        else walk sub_id st

    abbrev pub sub_parsed : String ⊎ Uuid → WalkState F → Option (WalkState F)
    sub_parsed (inl e) st =
        some (report_error (sub_issue "WORKFLOW_011" (text_append "Invalid workflow_id: " e)) st)
    sub_parsed (inr sub_id) st = sub_existing sub_id (env.workflow_exists sub_id) st

    unfoldable pub validate_sub_workflow_step : WalkState F → Option (WalkState F)
    unfolding report_error cycle_path
    validate_sub_workflow_step st =
        if is_blank step.workflow_id
        then some
            (report_error (sub_issue "WORKFLOW_010" "workflow_id is required for workflow step") st)
        else sub_parsed (env.uuid_parse step.workflow_id) st

    abbrev pub by_type : StepType → WalkState F → Option (WalkState F)
    by_type device st = some (validate_device_step env wid step idx base st)
    by_type workflow st = validate_sub_workflow_step st
    by_type wait st = some st
    by_type (other t) st = some (
        report_error
          (step_issue "STEP_002" (text_append "Unsupported step type: " t) (env.uuid_string wid) ""
            idx "type" (text_append base "/type"))
          st)

    abbrev pub name_checked : WalkState F → WalkState F
    name_checked st =
        error_if (is_blank step.name)
          (step_issue "STEP_001" "Step name is required" (env.uuid_string wid) "" idx "name"
            (text_append base "/name"))
          st

    -- one round of the loop over the steps
    unfoldable pub validate_step : WalkState F → Option (WalkState F)
    unfolding report_error error_if validate_device_step validate_sub_workflow_step
    validate_step st = by_type step.step_type (name_checked st)

  module _ (walk : Uuid → WalkState F → Option (WalkState F)) (wid : Uuid) where
    unfoldable pub validate_steps : ℕ → List (Step F) → WalkState F → Option (WalkState F)
    unfolding validate_step
    validate_steps idx [] st = some st
    validate_steps idx (step ∷ steps) st =
        validate_step walk wid step idx (text_append "/steps/" (decimal idx)) st >>= λ st'.
        validate_steps (suc idx) steps st'

    abbrev pub loop_checked : Option LoopConfig → WalkState F → WalkState F
    loop_checked loop st =
        error_if (bad_loop loop)
          (wf_issue "WORKFLOW_005" "loop.max_count must be >= 0" wid "loop.max_count"
            "/loop/max_count")
          st

    abbrev pub with_steps : List (Step F) → Option LoopConfig → WalkState F → Option (WalkState F)
    with_steps [] loop st =
        some
          (report_error (wf_issue "WORKFLOW_004" "Workflow has no steps" wid "steps" "/steps") st)
    with_steps (step ∷ steps) loop st = validate_steps 0 (step ∷ steps) (loop_checked loop st)

    abbrev pub workflow_name_checked : Workflow F → WalkState F → WalkState F
    workflow_name_checked wf st =
        error_if (is_blank wf.name)
          (wf_issue "WORKFLOW_001" "Workflow name is required" wid "name" "/name") st

    abbrev pub version_checked : Workflow F → WalkState F → WalkState F
    version_checked wf st =
        warning_if (is_blank wf.version)
          (workflow_issue "WORKFLOW_002" sev_warning "Workflow version is empty"
            (env.uuid_string wid) "version" "/version")
          st

    unfoldable pub validate_workflow : Workflow F → WalkState F → Option (WalkState F)
    unfolding report_error error_if warning_if validate_steps
    validate_workflow wf st =
        with_steps wf.steps wf.loop_config (version_checked wf (workflow_name_checked wf st))

  abbrev pub enter : Uuid → WalkState F → WalkState F
  enter wid st = record st {
    visiting = set_flag wid true st.visiting;
    stack = st.stack ++ wid ∷ [];
  }

  abbrev pub leave : Uuid → WalkState F → WalkState F
  leave wid st = record st {
    stack = pop st.stack;
    visiting = set_flag wid false st.visiting;
    done = wid ∷ st.done;
  }

  abbrev pub walk_found :
      (Uuid → WalkState F → Option (WalkState F))
      → Uuid
      → WalkState F × (String ⊎ Option (Workflow F))
      → Option (WalkState F)
  walk_found walk wid (st, inl e) =
      let st' =
        report_error (wf_issue "WORKFLOW_901" (text_append "Failed to load workflow: " e) wid "" "")
          st in
      some (record st' { done = wid ∷ st'.done })
  walk_found walk wid (st, inr none) =
      let st' =
        report_error (wf_issue "WORKFLOW_003" "Referenced workflow not found" wid "" "") st in
      some (record st' { done = wid ∷ st'.done })
  walk_found walk wid (st, inr (some def)) =
      validate_workflow walk wid def (enter wid st) >>= λ st'. some (leave wid st')

  unfoldable pub walk : ℕ → Uuid → WalkState F → Option (WalkState F)
  unfolding report_error get_workflow validate_workflow contains pop
  walk zero wid st = none
  walk (suc fuel) wid st =
      let rest = walk_found (λ id st'. walk fuel id st') wid (get_workflow wid st) in
      if contains st.done wid
      then some st
      else if st.visiting wid
      then some (
          report_error (wf_issue "WORKFLOW_050" "Circular workflow reference detected" wid "" "")
            st)
      else rest

  abbrev pub start : Uuid → Workflow F → WalkState F
  start wid def = record {
    cache = (wid, def) ∷ [];
    visiting = λ _. false;
    done = [];
    stack = [];
    report = empty_report;
  }

  abbrev pub finished : Option (WalkState F) → Option Report
  finished none = none
  finished (some st) = some (finalize st.report)

  abbrev pub root_parsed : ℕ → Uuid → String ⊎ Workflow F → Option Report
  root_parsed fuel wid (inl e) = some (
      finalize (
        add_error
          (wf_issue "WORKFLOW_900" (text_append "Workflow definition JSON invalid: " e) wid
            "definition" "/definition")
          empty_report))
  root_parsed fuel wid (inr def) = finished (walk fuel wid (start wid def))

  abbrev pub root_loaded : ℕ → Uuid → String ⊎ String → String ⊎ Option Report
  root_loaded fuel wid (inl e) = inl e
  root_loaded fuel wid (inr definition) = inr (root_parsed fuel wid (env.parse_workflow definition))

  -- A failure to load is an error; `inr none` means that the fuel ran out.
  unfoldable pub validate_by_id : ℕ → Uuid → String ⊎ Option Report
  unfolding walk finalize add_error
  validate_by_id fuel wid = root_loaded fuel wid (env.load_workflow wid)
