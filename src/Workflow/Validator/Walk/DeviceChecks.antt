-- ===== src/Workflow/Validator/Walk/DeviceChecks.antt =====
-- validator.go: what a device step that reports no error satisfies.
use open_machine_core.Prelude.{
  ℕ, String, List, [], ◌∷◌, ◌≡◌, refl, sym, ◌∙◌, eq_iff, Bool, true, false, not, ◌&&◌, ◌||◌, Option,
  none, some, str_eq, if◌then◌else◌, ◌⊎◌, inl, inr, Uuid, arith,
}
use open_machine_core.Prelude.Maps.{StringMap, lookup}
use open_machine_core.Prelude.Text.{trim_space}
use open_machine_core.Workflow.Definition.{
  Any, text, number, truth, words, word, int, short, composite, Step,
}
use open_machine_core.Workflow.Validator.Report.{Issue, add_error, add_warning}
use open_machine_core.Workflow.Validator.Device.{
  Env, WalkState, is_blank, report_error, report_warning, error_if, check_device_id,
  check_operation, required_params_for_op, lookup_device, check_param, check_params,
  bad_register_type, check_register_type, no_device_id, no_operation, bad_operation, bad_type,
  is_supported, validate_device_step,
}
use open_machine_core.Workflow.Validator.Walk.Checks.{
  Clean, Same, RegisterTypeOk, ParametersOk, DeviceStepOk, append-ne-nil, report_error-not-Clean,
  error_if-Clean, error_if-Same, Warned,
}

module _ {F : Type 0} (env : Env F) (wid : Uuid) (step : Step F) (idx : ℕ) (base : String) where
  lookup_device-Clean :
      (b : Bool) (i : Issue) (r : String ⊎ (Bool × Bool)) (st : WalkState F)
      → Clean (if b then report_error i st else lookup_device env wid step idx base r st)
      → (b ≡ false) × (r ≡ inr (true, true)) × Clean st
  unfolding error_if report_error add_error
  lookup_device-Clean true i r st h = absurd (report_error-not-Clean i st h)
  lookup_device-Clean false i (inl e) st h = absurd (append-ne-nil st.report.errors _ h)
  lookup_device-Clean false i (inr (false, b)) st h = absurd (append-ne-nil st.report.errors _ h)
  lookup_device-Clean false i (inr (true, false)) st h = absurd (append-ne-nil st.report.errors _ h)
  lookup_device-Clean false i (inr (true, true)) st h = (refl, refl, h)

  lookup_device-Same :
      (b : Bool) (i : Issue) (r : String ⊎ (Bool × Bool)) (st : WalkState F)
      → Same st (if b then report_error i st else lookup_device env wid step idx base r st)
  unfolding error_if report_error
  lookup_device-Same true i r st = (refl, refl, refl)
  lookup_device-Same false i (inl e) st = (refl, refl, refl)
  lookup_device-Same false i (inr (false, b)) st = (refl, refl, refl)
  lookup_device-Same false i (inr (true, false)) st = (refl, refl, refl)
  lookup_device-Same false i (inr (true, true)) st = (refl, refl, refl)

  check_param-Warned :
      (ps : Option (StringMap (Any F))) (k : String) (st : WalkState F)
      → Warned st (check_param env wid step idx base ps k st)
  unfolding report_warning add_warning
  check_param-Warned none k st = (refl, (refl, refl, refl))
  check_param-Warned (some ps) k st = ground arith

  check_params-Warned :
      (ks : List String) (st : WalkState F) → Warned st (check_params env wid step idx base ks st)
  check_params-Warned [] st = (refl, (refl, refl, refl))
  check_params-Warned (k ∷ ks) st =
      let a = check_param-Warned step.parameters k st in
      let b = check_params-Warned ks (check_param env wid step idx base step.parameters k st) in
      (cc, (cc, cc, cc))

  -- The device of a step that passed is named, known and enabled.
  pub check_device_id-Clean :
      (st : WalkState F)
      → Clean (check_device_id env wid step idx base st)
      → (is_blank step.device_id ≡ false)
        × (env.device_exists_enabled step.device_id ≡ inr (true, true))
        × Clean st
  unfolding check_device_id
  check_device_id-Clean st h =
      lookup_device-Clean (is_blank step.device_id) (no_device_id env wid step idx base)
        (env.device_exists_enabled step.device_id) st h

  check_device_id-Same : (st : WalkState F) → Same st (check_device_id env wid step idx base st)
  unfolding check_device_id
  check_device_id-Same st =
      lookup_device-Same (is_blank step.device_id) (no_device_id env wid step idx base)
        (env.device_exists_enabled step.device_id) st

  bad_register_type-Clean :
      (v : Option (Any F)) (st : WalkState F)
      → Clean (bad_register_type env wid step idx base v st)
      → RegisterTypeOk v × Clean st
  unfolding error_if report_error add_error
  bad_register_type-Clean (some (text s)) st h =
      let r =
        error_if-Clean (not (str_eq s "holding") && not (str_eq s "input"))
          (bad_type env wid step idx base s) st h in
      (ground (arith, r.0, eq_iff s "holding", eq_iff s "input"), r.1)
  bad_register_type-Clean none st h = (tt, h)
  bad_register_type-Clean (some (number v)) st h = (tt, h)
  bad_register_type-Clean (some (truth v)) st h = (tt, h)
  bad_register_type-Clean (some (words v)) st h = (tt, h)
  bad_register_type-Clean (some (word v)) st h = (tt, h)
  bad_register_type-Clean (some (int v)) st h = (tt, h)
  bad_register_type-Clean (some (short v)) st h = (tt, h)
  bad_register_type-Clean (some (composite v)) st h = (tt, h)

  bad_register_type-Same :
      (v : Option (Any F)) (st : WalkState F)
      → Same st (bad_register_type env wid step idx base v st)
  bad_register_type-Same (some (text s)) st =
      error_if-Same (not (str_eq s "holding") && not (str_eq s "input"))
        (bad_type env wid step idx base s) st
  bad_register_type-Same none st = (refl, refl, refl)
  bad_register_type-Same (some (number v)) st = (refl, refl, refl)
  bad_register_type-Same (some (truth v)) st = (refl, refl, refl)
  bad_register_type-Same (some (words v)) st = (refl, refl, refl)
  bad_register_type-Same (some (word v)) st = (refl, refl, refl)
  bad_register_type-Same (some (int v)) st = (refl, refl, refl)
  bad_register_type-Same (some (short v)) st = (refl, refl, refl)
  bad_register_type-Same (some (composite v)) st = (refl, refl, refl)

  check_register_type-Clean :
      (ps : Option (StringMap (Any F))) (st : WalkState F)
      → Clean (check_register_type env wid step idx base ps st)
      → ParametersOk ps × Clean st
  check_register_type-Clean none st h = (tt, h)
  check_register_type-Clean (some ps) st h =
      bad_register_type-Clean (lookup "register_type" ps) st h

  check_register_type-Same :
      (ps : Option (StringMap (Any F))) (st : WalkState F)
      → Same st (check_register_type env wid step idx base ps st)
  check_register_type-Same none st = (refl, refl, refl)
  check_register_type-Same (some ps) st = bad_register_type-Same (lookup "register_type" ps) st

  -- the three tests of an operation, over the values of the tests
  unfoldable by_tests : Bool → Bool → Bool → Issue → Issue → List String → WalkState F → WalkState F
  by_tests blank supported typed i j ks st =
      if blank
      then report_error i st
      else if not supported
      then report_error j st
      else if typed
      then check_register_type env wid step idx base step.parameters
          (check_params env wid step idx base ks st)
      else check_params env wid step idx base ks st

  by_tests-Clean :
      (blank supported typed : Bool) (i j : Issue) (ks : List String) (st : WalkState F)
      → Clean (by_tests blank supported typed i j ks st)
      → (supported ≡ true) × (typed ≡ true → ParametersOk step.parameters) × Clean st
  unfolding report_error add_error by_tests
  by_tests-Clean true b c i j ks st h = absurd (append-ne-nil st.report.errors _ h)
  by_tests-Clean false false c i j ks st h = absurd (append-ne-nil st.report.errors _ h)
  by_tests-Clean false true false i j ks st h =
      (refl, λ (e : false ≡ true). cc, sym (check_params-Warned ks st).0 ∙ h)
  by_tests-Clean false true true i j ks st h =
      let r =
        check_register_type-Clean step.parameters (check_params env wid step idx base ks st) h in
      (refl, λ _. r.0, sym (check_params-Warned ks st).0 ∙ r.1)

  by_tests-Same :
      (blank supported typed : Bool) (i j : Issue) (ks : List String) (st : WalkState F)
      → Same st (by_tests blank supported typed i j ks st)
  unfolding report_error by_tests
  by_tests-Same true b c i j ks st = (refl, refl, refl)
  by_tests-Same false false c i j ks st = (refl, refl, refl)
  by_tests-Same false true false i j ks st = (check_params-Warned ks st).1
  by_tests-Same false true true i j ks st =
      let a = check_params-Warned ks st in
      let b = check_register_type-Same step.parameters (check_params env wid step idx base ks st) in
      (cc, cc, cc)

  check_operation-Clean :
      (st : WalkState F)
      → Clean (check_operation env wid step idx base st)
      → (is_supported (trim_space step.operation) ≡ true)
        × ((str_eq (trim_space step.operation) "read" || str_eq (trim_space step.operation) "write")
              ≡ true
            → ParametersOk step.parameters)
        × Clean st
  unfolding check_operation by_tests
  check_operation-Clean st h =
      by_tests-Clean (str_eq (trim_space step.operation) "")
        (is_supported (trim_space step.operation))
        (str_eq (trim_space step.operation) "read" || str_eq (trim_space step.operation) "write")
        (no_operation env wid step idx base)
        (bad_operation env wid step idx base (trim_space step.operation))
        (required_params_for_op (trim_space step.operation)) st h

  check_operation-Same : (st : WalkState F) → Same st (check_operation env wid step idx base st)
  unfolding check_operation by_tests
  check_operation-Same st =
      by_tests-Same (str_eq (trim_space step.operation) "")
        (is_supported (trim_space step.operation))
        (str_eq (trim_space step.operation) "read" || str_eq (trim_space step.operation) "write")
        (no_operation env wid step idx base)
        (bad_operation env wid step idx base (trim_space step.operation))
        (required_params_for_op (trim_space step.operation)) st

  -- A device step leaves a report without errors only if there was none before, its device is
  -- named, known and enabled, its operation is supported, and a register type that it gives as a
  -- text for a read or write is holding or input.
  pub validate_device_step-Clean :
      (st : WalkState F)
      → Clean (validate_device_step env wid step idx base st)
      → DeviceStepOk env step × Clean st
  unfolding validate_device_step
  validate_device_step-Clean st h =
      let r = check_operation-Clean (check_device_id env wid step idx base st) h in
      let q = check_device_id-Clean st r.2 in
      (record { named = q.0; known = q.1; supported = r.0; typed = r.1 }, q.2)

  pub validate_device_step-Same :
      (st : WalkState F) → Same st (validate_device_step env wid step idx base st)
  unfolding validate_device_step
  validate_device_step-Same st =
      let a = check_operation-Same (check_device_id env wid step idx base st) in
      let b = check_device_id-Same st in (cc, cc, cc)
