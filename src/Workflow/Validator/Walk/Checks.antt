-- ===== src/Workflow/Validator/Walk/Checks.antt =====
-- What a workflow must satisfy for validator.go to accept its own definition, stated apart from the
-- code; and the device checks.
use open_machine_core.Prelude.{
  String, List, [], ◌∷◌, ◌++◌, ◌≡◌, ◌≢◌, refl, Bool, true, false, ◌||◌, Option, none, some, str_eq,
  ◌⊎◌, inr, Uuid, All,
}
use open_machine_core.Prelude.Maps.{StringMap, lookup}
use open_machine_core.Prelude.Text.{trim_space}
use open_machine_core.Workflow.Definition.{
  Any, text, Workflow, Step, StepType, device, workflow, wait, other,
}
use open_machine_core.Workflow.Validator.Report.{Issue, add_error}
use open_machine_core.Workflow.Validator.Device.{
  Env, WalkState, is_blank, report_error, error_if, is_supported,
}
use open_machine_core.Workflow.Validator.Walk.{bad_loop}

abbrev pub Clean : {F : Type 0} → WalkState F → Type 0
Clean st = st.report.errors ≡ []

-- What a step leaves alone when it only reports.
abbrev pub Same : {F : Type 0} → WalkState F → WalkState F → Type 0
Same st st' = (st'.cache ≡ st.cache) × (st'.done ≡ st.done) × (st'.visiting ≡ st.visiting)

abbrev pub RegisterTypeOk : {F : Type 0} → Option (Any F) → Type 0
RegisterTypeOk (some (text s)) = (s ≡ "holding") ⊎ (s ≡ "input")
RegisterTypeOk _ = Unit

abbrev pub ParametersOk : {F : Type 0} → Option (StringMap (Any F)) → Type 0
ParametersOk none = Unit
ParametersOk (some params) = RegisterTypeOk (lookup "register_type" params)

module _ {F : Type 0} (env : Env F) where
  pub record DeviceStepOk (step : Step F) : Type 0 where
    pub named : is_blank step.device_id ≡ false
    pub known : env.device_exists_enabled step.device_id ≡ inr (true, true)
    pub supported : is_supported (trim_space step.operation) ≡ true
    pub typed :
        (str_eq (trim_space step.operation) "read" || str_eq (trim_space step.operation) "write")
          ≡ true
        → ParametersOk step.parameters

  abbrev pub ActionOk : StepType → Step F → Type 0
  ActionOk device step = DeviceStepOk step
  ActionOk workflow step =
      (sub : Uuid) × (env.uuid_parse step.workflow_id ≡ inr sub)
      × (env.workflow_exists sub ≡ inr true)
  ActionOk wait step = Unit
  ActionOk (other t) step = ⊥

  abbrev pub StepOk : Step F → Type 0
  StepOk step = (is_blank step.name ≡ false) × ActionOk step.step_type step

  -- the definition that is stored under an id
  abbrev pub Loads : Uuid → Workflow F → Type 0
  Loads wid def = (d : String) × (env.load_workflow wid ≡ inr d) × (env.parse_workflow d ≡ inr def)

  pub record DefinitionOk (def : Workflow F) : Type 0 where
    pub named : is_blank def.name ≡ false
    pub has_steps : def.steps ≢ []
    pub loops : bad_loop def.loop_config ≡ false
    pub steps_ok : All StepOk def.steps

pub append-ne-nil : {A : Type 0} (xs : List A) (y : A) → (xs ++ y ∷ []) ≢ []
append-ne-nil [] y h = cc
append-ne-nil (x ∷ xs) y h = cc

module _ {F : Type 0} where
  pub report_error-not-Clean : (i : Issue) (st : WalkState F) → ¬ Clean (report_error i st)
  unfolding report_error add_error
  report_error-not-Clean i st h = append-ne-nil st.report.errors _ h

  pub error_if-Clean :
      (b : Bool) (i : Issue) (st : WalkState F) → Clean (error_if b i st) → (b ≡ false) × Clean st
  unfolding error_if
  error_if-Clean true i st h = absurd (report_error-not-Clean i st h)
  error_if-Clean false i st h = (refl, h)

  pub error_if-Same : (b : Bool) (i : Issue) (st : WalkState F) → Same st (error_if b i st)
  unfolding error_if report_error
  error_if-Same true i st = (refl, refl, refl)
  error_if-Same false i st = (refl, refl, refl)

  -- What a check that only warns does.
  abbrev pub Warned : WalkState F → WalkState F → Type 0
  Warned st st' = (st'.report.errors ≡ st.report.errors) × Same st st'
