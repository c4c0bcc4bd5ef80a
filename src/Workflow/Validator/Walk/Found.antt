-- ===== src/Workflow/Validator/Walk/Found.antt =====
-- validator.go: what a workflow has established when its part of the walk ends without an error.
use open_machine_core.Prelude.{
  String, List, [], ◌∷◌, ◌≡◌, ◌≢◌, refl, sym, inl, inr, ◌⊎◌, Uuid, Memᴰ, All, false, Option, none,
  some, some_inj,
}
use open_machine_core.Workflow.Definition.{Workflow, Step, LoopConfig}
use open_machine_core.Workflow.Validator.Report.{sev_warning, add_error}
use open_machine_core.Workflow.Validator.Device.{
  Env, WalkState, is_blank, report_error, workflow_issue,
}
use open_machine_core.Workflow.Validator.Walk.{
  loop_checked, workflow_name_checked, version_checked, with_steps, validate_workflow, walk_found,
  bad_loop, wf_issue, enter, leave,
}
use open_machine_core.Workflow.Validator.Walk.Checks.{
  Clean, StepOk, DefinitionOk, append-ne-nil, error_if-Clean, error_if-Same,
}
use open_machine_core.Workflow.Validator.Walk.Order.{SomeStep}
use open_machine_core.Workflow.Validator.Walk.Sound.{
  Sub, Inv, Sound, errors_of, warning_if-Same, warning_if-Clean, Same-Grows, >>=-some,
  validate_steps-Clean,
}

module _ {F : Type 0} (env : Env F) where
  module _ (w : Uuid → WalkState F → Option (WalkState F)) (sound : Sound env w) (wid : Uuid) where
    with_steps-Clean :
        (steps : List (Step F)) (loop : Option LoopConfig) (st st' : WalkState F)
        → with_steps env w wid steps loop st ≡ some st'
        → Clean st'
        → (steps ≢ [])
          × (bad_loop loop ≡ false)
          × All (StepOk env) steps
          × Clean st
          × (Inv env st
              → Inv env st'
                × Sub st.done st'.done
                × ((sub : Uuid) → SomeStep env steps sub → Memᴰ sub st'.done))
    unfolding report_error add_error
    with_steps-Clean [] loop st st' e c =
        absurd (append-ne-nil st.report.errors _ (errors_of env e c))
    with_steps-Clean (step ∷ steps) loop st st' e c =
        let i =
          wf_issue env "WORKFLOW_005" "loop.max_count must be >= 0" wid "loop.max_count"
            "/loop/max_count" in
        let r =
          validate_steps-Clean env w sound wid 0 (step ∷ steps) (loop_checked env w wid loop st) st'
            e c in
        let q = error_if-Clean (bad_loop loop) i st r.1 in
        let s = error_if-Same (bad_loop loop) i st in
        (
          λ z. cc,
          q.0,
          r.0,
          q.1,
          λ inv.
              let g = Same-Grows env st (loop_checked env w wid loop st) s inv in
              let b = r.2 g.0 in (b.0, λ x m. b.1 x (g.1 x m), b.2),
        )

    validate_workflow-Clean :
        (def : Workflow F) (st st' : WalkState F)
        → validate_workflow env w wid def st ≡ some st'
        → Clean st'
        → DefinitionOk env def
          × Clean st
          × (Inv env st
              → Inv env st'
                × Sub st.done st'.done
                × ((sub : Uuid) → SomeStep env def.steps sub → Memᴰ sub st'.done))
    unfolding validate_workflow
    validate_workflow-Clean def st st' e c =
        let i = wf_issue env "WORKFLOW_001" "Workflow name is required" wid "name" "/name" in
        let j =
          workflow_issue "WORKFLOW_002" sev_warning "Workflow version is empty"
            (env.uuid_string wid) "version" "/version" in
        let st₁ = workflow_name_checked env w wid def st in
        let st₂ = version_checked env w wid def st₁ in
        let r = with_steps-Clean def.steps def.loop_config st₂ st' e c in
        let q =
          error_if-Clean (is_blank def.name) i st
            (warning_if-Clean env (is_blank def.version) j st₁ r.3) in
        let s = error_if-Same (is_blank def.name) i st in
        let t = warning_if-Same env (is_blank def.version) j st₁ in
        (
          record { named = q.0; has_steps = r.0; loops = r.1; steps_ok = r.2 },
          q.1,
          λ inv.
              let g = Same-Grows env st st₁ s inv in
              let k = Same-Grows env st₁ st₂ t g.0 in
              let b = r.4 k.0 in (b.0, λ x m. b.1 x (k.1 x (g.1 x m)), b.2),
        )

    -- What is left when a workflow was found and left without an error: it is finished last.
    pub walk_found-Clean :
        (g : WalkState F × (String ⊎ Option (Workflow F))) (st' : WalkState F)
        → walk_found env w wid g ≡ some st'
        → Clean st'
        → (def : Workflow F) × (g.1 ≡ inr (some def))
          × DefinitionOk env def
          × Clean g.0
          × (Inv env g.0
              → (s : WalkState F) × (st' ≡ leave env wid s)
                × Inv env s
                × Sub g.0.done s.done
                × ((sub : Uuid) → SomeStep env def.steps sub → Memᴰ sub s.done))
    unfolding report_error add_error
    walk_found-Clean (st, inl m) st' e c =
        absurd (append-ne-nil st.report.errors _ (errors_of env e c))
    walk_found-Clean (st, inr none) st' e c =
        absurd (append-ne-nil st.report.errors _ (errors_of env e c))
    walk_found-Clean (st, inr (some def)) st' e c =
        let h =
          >>=-some env (validate_workflow env w wid def (enter env wid st))
            (λ s. some (leave env wid s)) e in
        let r = validate_workflow-Clean def (enter env wid st) h.0 h.1 (errors_of env h.2 c) in
        (def, refl, r.0, r.1, λ i. (h.0, sym (some_inj h.2), (r.2 i).0, (r.2 i).1, (r.2 i).2))
