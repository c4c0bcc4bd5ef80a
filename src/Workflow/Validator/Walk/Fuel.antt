-- ===== src/Workflow/Validator/Walk/Fuel.antt =====
-- validator.go: the walk ends. Every call that goes deeper is on a stored workflow that is not on
-- the stack, so fuel for all stored workflows and one more is enough.
use open_machine_core.Prelude.{
  ℕ, suc, ◌<◌, ◌≤◌, String, List, [], ◌∷◌, ◌≡◌, refl, sym, ap, subst, ◌∙◌, inl, inr, ◌⊎◌, Uuid,
  Memᴰ, Memᴰ-cons, arith, All, Bool, true, false, Option, some, if◌then◌else◌, ==_iff, length,
}
use open_machine_core.Prelude.Text.{text_append, decimal}
use open_machine_core.Workflow.Definition.{
  Workflow, Step, StepType, device, workflow, wait, other, LoopConfig,
}
use open_machine_core.Workflow.Validator.Report.{Issue, sev_warning}
use open_machine_core.Workflow.Validator.Device.{
  Env, WalkState, report_error, is_blank, validate_device_step, step_issue, workflow_issue,
}
use open_machine_core.Workflow.Validator.Walk.{
  wf_issue, sub_issue, cycle_issue, bad_loop, sub_existing, sub_parsed, validate_sub_workflow_step,
  by_type, validate_step, validate_steps, with_steps, validate_workflow, set_flag, name_checked,
  loop_checked, workflow_name_checked, version_checked, ◌>>=◌,
}
use open_machine_core.Workflow.Validator.Walk.Checks.{Same, error_if-Same}
use open_machine_core.Workflow.Validator.Walk.DeviceChecks.{validate_device_step-Same}
use open_machine_core.Workflow.Validator.Walk.Sound.{warning_if-Same}

-- how many of the workflows are not on the stack
unfoldable pub free : (Uuid → Bool) → List Uuid → ℕ
free v [] = 0
free v (x ∷ xs) = if v x then free v xs else suc (free v xs)

pub free_le : (v : Uuid → Bool) (xs : List Uuid) → free v xs ≤ length xs
unfolding free
free_le v [] = ground arith
free_le v (x ∷ xs) = ground (arith, free_le v xs)

free_same : (u v : Uuid → Bool) (xs : List Uuid) → ((x : Uuid) → u x ≡ v x) → free u xs ≡ free v xs
unfolding free
free_same u v [] h = refl
free_same u v (x ∷ xs) h = ground (arith, free_same u v xs h, h x)

free_set_le :
    (v : Uuid → Bool) (w : Uuid) (xs : List Uuid) → free (set_flag w true v) xs ≤ free v xs
unfolding free
free_set_le v w [] = ground arith
free_set_le v w (x ∷ xs) = ground (arith, free_set_le v w xs)

pub free_set_lt :
    (v : Uuid → Bool) (w : Uuid) (xs : List Uuid)
    → Memᴰ w xs
    → v w ≡ false
    → free (set_flag w true v) xs < free v xs
unfolding free
free_set_lt v w [] m h = elim m [ ]
free_set_lt v w (x ∷ xs) m h = elim ((Memᴰ-cons w x xs).0 m) [
  | inl e ↦ ground (arith, free_set_le v w xs, e, h, ==_iff x w)
  | inr m' ↦ ground (arith, free_set_lt v w xs m' h, h, ==_iff x w)
]

module _ {F : Type 0} (env : Env F) (stored_ids : List Uuid) where
  -- The cached workflows are stored.
  unfoldable pub InDb : WalkState F → Type 0
  InDb st = All (λ (e : Uuid × Workflow F). Memᴰ e.0 stored_ids) st.cache

  -- A part of the walk ends, with the same workflows on the stack.
  unfoldable pub Ends : WalkState F → Option (WalkState F) → Type 0
  Ends st o =
      (st' : WalkState F) × (o ≡ some st')
      × ((x : Uuid) → st'.visiting x ≡ st.visiting x)
      × InDb st'

  -- `w` ends when at most n - 1 stored workflows are not on the stack.
  unfoldable pub Total : ℕ → (Uuid → WalkState F → Option (WalkState F)) → Type 0
  Total n w =
      (wid : Uuid) (st : WalkState F)
      → InDb st
      → free st.visiting stored_ids < n
      → Ends st (w wid st)

  pub Same-Ends : (st s : WalkState F) → Same st s → InDb st → Ends st (some s)
  unfolding Ends InDb
  Same-Ends st s h i = (
    s,
    refl,
    λ x. ap (λ (v : Uuid → Bool). v x) h.2,
    subst (λ c. All (λ (e : Uuid × Workflow F). Memᴰ e.0 stored_ids) c) (sym h.0) i,
  )

  Ends-after : (st s : WalkState F) (o : Option (WalkState F)) → Same st s → Ends s o → Ends st o
  unfolding Ends
  Ends-after st s o h e = (e.0, e.1, λ x. e.2 x ∙ ap (λ (v : Uuid → Bool). v x) h.2, e.3)

  Same-InDb : (st s : WalkState F) → Same st s → InDb st → InDb s
  unfolding InDb
  Same-InDb st s h i =
      subst (λ c. All (λ (e : Uuid × Workflow F). Memᴰ e.0 stored_ids) c) (sym h.0) i

  Same-free :
      (st s : WalkState F) {n : ℕ}
      → Same st s
      → free st.visiting stored_ids < n
      → free s.visiting stored_ids < n
  Same-free st s {n} h l = subst (λ (v : Uuid → Bool). free v stored_ids < n) (sym h.2) l

  Ends->>= :
      (n : ℕ) (st : WalkState F) (o : Option (WalkState F)) (f : WalkState F → Option (WalkState F))
      → Ends st o
      → free st.visiting stored_ids < n
      → ((s : WalkState F) → InDb s → free s.visiting stored_ids < n → Ends s (f s))
      → Ends st (o >>= f)
  unfolding Ends
  Ends->>= n st o f e l k =
      let s = e.0 in
      let r =
        k s e.3 (subst (λ m. m < n) (sym (free_same s.visiting st.visiting stored_ids e.2)) l) in
      (
        r.0,
        subst (λ (m : Option (WalkState F)). (m >>= f) ≡ some r.0) (sym e.1) r.1,
        λ x. r.2 x ∙ e.2 x,
        r.3,
      )

  module _ (n : ℕ) (w : Uuid → WalkState F → Option (WalkState F)) (total : Total n w)
      (wid : Uuid) where
    module _ (step : Step F) (idx : ℕ) (base : String) (st : WalkState F) (i : InDb st)
        (l : free st.visiting stored_ids < n) where
      visiting-Ends :
          (b : Bool) (issue : Issue) (sub : Uuid)
          → Ends st (if b then some (report_error issue st) else w sub st)
      unfolding report_error Total
      visiting-Ends true issue sub = Same-Ends st (report_error issue st) (refl, refl, refl) i
      visiting-Ends false issue sub = total sub st i l

      -- a step that reports one issue
      reports : (issue : Issue) → Ends st (some (report_error issue st))
      unfolding report_error
      reports issue = Same-Ends st (report_error issue st) (refl, refl, refl) i

      sub_existing-Ends :
          (sub : Uuid) (r : String ⊎ Bool) → Ends st (sub_existing env w wid step idx base sub r st)
      sub_existing-Ends sub (inl m) = reports (
          sub_issue env w wid step idx base "WORKFLOW_999"
            (text_append "Workflow lookup failed: " m))
      sub_existing-Ends sub (inr false) = reports (
          sub_issue env w wid step idx base "WORKFLOW_003"
            (text_append "Referenced workflow not found: " (env.uuid_string sub)))
      sub_existing-Ends sub (inr true) =
          visiting-Ends (st.visiting sub) (cycle_issue env w wid step idx base sub st) sub

      sub_parsed-Ends :
          (b : Bool) (issue : Issue) (r : String ⊎ Uuid)
          → Ends st
              (if b then some (report_error issue st) else sub_parsed env w wid step idx base r st)
      sub_parsed-Ends true issue r = reports issue
      sub_parsed-Ends false issue (inl m) =
          reports (
            sub_issue env w wid step idx base "WORKFLOW_011"
              (text_append "Invalid workflow_id: " m))
      sub_parsed-Ends false issue (inr sub) = sub_existing-Ends sub (env.workflow_exists sub)

      by_type-Ends : (t : StepType) → Ends st (by_type env w wid step idx base t st)
      unfolding validate_sub_workflow_step
      by_type-Ends device =
          Same-Ends st (validate_device_step env wid step idx base st)
            (validate_device_step-Same env wid step idx base st) i
      by_type-Ends workflow =
          sub_parsed-Ends (is_blank step.workflow_id)
            (sub_issue env w wid step idx base "WORKFLOW_010"
              "workflow_id is required for workflow step")
            (env.uuid_parse step.workflow_id)
      by_type-Ends wait = Same-Ends st st (refl, refl, refl) i
      by_type-Ends (other t) = reports (
          step_issue "STEP_002" (text_append "Unsupported step type: " t) (env.uuid_string wid) ""
            idx "type" (text_append base "/type"))

    validate_step-Ends :
        (step : Step F) (idx : ℕ) (base : String) (st : WalkState F)
        → InDb st
        → free st.visiting stored_ids < n
        → Ends st (validate_step env w wid step idx base st)
    unfolding validate_step
    validate_step-Ends step idx base st i l =
        let s = name_checked env w wid step idx base st in
        let h =
          error_if-Same (is_blank step.name)
            (step_issue "STEP_001" "Step name is required" (env.uuid_string wid) "" idx "name"
              (text_append base "/name"))
            st in
        Ends-after st s _ h
          (by_type-Ends step idx base s (Same-InDb st s h i) (Same-free st s h l) step.step_type)

    validate_steps-Ends :
        (idx : ℕ) (steps : List (Step F)) (st : WalkState F)
        → InDb st
        → free st.visiting stored_ids < n
        → Ends st (validate_steps env w wid idx steps st)
    unfolding validate_steps
    validate_steps-Ends idx [] st i l = Same-Ends st st (refl, refl, refl) i
    validate_steps-Ends idx (step ∷ steps) st i l =
        let base = text_append "/steps/" (decimal idx) in
        Ends->>= n st (validate_step env w wid step idx base st)
          (λ s. validate_steps env w wid (suc idx) steps s)
          (validate_step-Ends step idx base st i l) l
          (λ s j m. validate_steps-Ends (suc idx) steps s j m)

    with_steps-Ends :
        (steps : List (Step F)) (loop : Option LoopConfig) (st : WalkState F)
        → InDb st
        → free st.visiting stored_ids < n
        → Ends st (with_steps env w wid steps loop st)
    unfolding report_error
    with_steps-Ends [] loop st i l =
        Same-Ends st
          (report_error (wf_issue env "WORKFLOW_004" "Workflow has no steps" wid "steps" "/steps")
            st)
          (refl, refl, refl) i
    with_steps-Ends (step ∷ steps) loop st i l =
        let s = loop_checked env w wid loop st in
        let h =
          error_if-Same (bad_loop loop)
            (wf_issue env "WORKFLOW_005" "loop.max_count must be >= 0" wid "loop.max_count"
              "/loop/max_count")
            st in
        Ends-after st s _ h
          (validate_steps-Ends 0 (step ∷ steps) s (Same-InDb st s h i) (Same-free st s h l))

    pub validate_workflow-Ends :
        (def : Workflow F) (st : WalkState F)
        → InDb st
        → free st.visiting stored_ids < n
        → Ends st (validate_workflow env w wid def st)
    unfolding validate_workflow
    validate_workflow-Ends def st i l =
        let s = workflow_name_checked env w wid def st in
        let t = version_checked env w wid def s in
        let h =
          error_if-Same (is_blank def.name)
            (wf_issue env "WORKFLOW_001" "Workflow name is required" wid "name" "/name") st in
        let k =
          warning_if-Same env (is_blank def.version)
            (workflow_issue "WORKFLOW_002" sev_warning "Workflow version is empty"
              (env.uuid_string wid) "version" "/version")
            s in
        Ends-after st s _ h (
          Ends-after s t _ k (
            with_steps-Ends def.steps def.loop_config t (Same-InDb s t k (Same-InDb st s h i))
              (Same-free s t k (Same-free st s h l))))
