-- ===== src/Workflow/Validator/Walk/Sound.antt =====
-- validator.go: what the walk has established when it ends without an error.
use open_machine_core.Prelude.{
  ℕ, suc, String, List, [], ◌∷◌, ◌≡◌, refl, sym, ap, subst, ◌∙◌, ⊎_elim, inl, inr, ◌⊎◌, Uuid, Memᴰ,
  All, Bool, true, false, Option, none, some, some_inj, if◌then◌else◌,
}
use open_machine_core.Prelude.Text.{text_append, decimal}
use open_machine_core.Workflow.Definition.{Workflow, Step, StepType, device, workflow, wait, other}
use open_machine_core.Workflow.Validator.Report.{Issue, add_error, add_warning}
use open_machine_core.Workflow.Validator.Device.{
  Env, WalkState, is_blank, report_error, report_warning, validate_device_step, step_issue,
}
use open_machine_core.Workflow.Validator.Walk.{
  sub_existing, sub_parsed, validate_sub_workflow_step, by_type, validate_step, validate_steps,
  name_checked, walk, warning_if, sub_issue, cycle_issue, ◌>>=◌,
}
use open_machine_core.Workflow.Validator.Walk.Checks.{
  Clean, Same, StepOk, ActionOk, Loads, append-ne-nil, error_if-Clean, error_if-Same,
}
use open_machine_core.Workflow.Validator.Walk.DeviceChecks.{
  validate_device_step-Clean, validate_device_step-Same,
}
use open_machine_core.Workflow.Validator.Walk.Order.{Names, SomeStep, Topo}

abbrev pub Sub : List Uuid → List Uuid → Type 0
Sub xs ys = (x : Uuid) → Memᴰ x xs → Memᴰ x ys

module _ {F : Type 0} (env : Env F) where
  -- The cache holds what is stored, and the finished workflows are in order.
  abbrev pub Inv : WalkState F → Type 0
  Inv st = All (λ (e : Uuid × Workflow F). Loads env e.0 e.1) st.cache × Topo env st.done

  -- What a part of the walk establishes that ends in `st'` and needs all of `todo` finished.
  abbrev pub Grows : WalkState F → WalkState F → Type 0
  Grows st st' = Inv st → Inv st' × Sub st.done st'.done

  -- A walk that ends without an error began without one and finished `wid`.
  abbrev pub Sound : (Uuid → WalkState F → Option (WalkState F)) → Type 0
  Sound walk =
      (wid : Uuid) (st st' : WalkState F)
      → walk wid st ≡ some st'
      → Clean st'
      → Clean st × (Inv st → Inv st' × Sub st.done st'.done × Memᴰ wid st'.done)

  pub Same-Inv : (st st' : WalkState F) → Same st st' → Inv st → Inv st'
  Same-Inv st st' s i = (
    subst (λ c. All (λ (e : Uuid × Workflow F). Loads env e.0 e.1) c) (sym s.0) i.0,
    subst (λ d. Topo env d) (sym s.1) i.1,
  )

  pub Same-Grows : (st st' : WalkState F) → Same st st' → Grows st st'
  Same-Grows st st' s i = (Same-Inv st st' s i, λ x m. subst (λ d. Memᴰ x d) (sym s.1) m)

  pub >>=-some :
      (m : Option (WalkState F)) (f : WalkState F → Option (WalkState F)) {st' : WalkState F}
      → (m >>= f) ≡ some st'
      → (st : WalkState F) × (m ≡ some st) × (f st ≡ some st')
  >>=-some (some st) f e = (st, refl, e)
  >>=-some none f e = cc

  pub warning_if-Same : (b : Bool) (i : Issue) (st : WalkState F) → Same st (warning_if b i st)
  unfolding warning_if report_warning
  warning_if-Same true i st = (refl, refl, refl)
  warning_if-Same false i st = (refl, refl, refl)

  pub warning_if-Clean :
      (b : Bool) (i : Issue) (st : WalkState F) → Clean (warning_if b i st) → Clean st
  unfolding warning_if report_warning add_warning
  warning_if-Clean true i st c = c
  warning_if-Clean false i st c = c

  pub errors_of : {st st' : WalkState F} → some st ≡ some st' → Clean st' → st.report.errors ≡ []
  errors_of e c = ap (λ (s : WalkState F). s.report.errors) (some_inj e) ∙ c

  module _ (w : Uuid → WalkState F → Option (WalkState F)) (sound : Sound w) (wid : Uuid) where
    module _ (step : Step F) (idx : ℕ) (base : String) where
      visited_not :
          (b : Bool) (sub : Uuid) (i : Issue) (st st' : WalkState F)
          → (if b then some (report_error i st) else w sub st) ≡ some st'
          → Clean st'
          → w sub st ≡ some st'
      unfolding report_error add_error
      visited_not true sub i st st' e c = absurd (append-ne-nil st.report.errors _ (errors_of e c))
      visited_not false sub i st st' e c = e

      sub_existing-Clean :
          (sub : Uuid) (r : String ⊎ Bool) (st st' : WalkState F)
          → sub_existing env w wid step idx base sub r st ≡ some st'
          → Clean st'
          → (r ≡ inr true) × (w sub st ≡ some st')
      unfolding report_error add_error
      sub_existing-Clean sub (inl m) st st' e c =
          absurd (append-ne-nil st.report.errors _ (errors_of e c))
      sub_existing-Clean sub (inr false) st st' e c =
          absurd (append-ne-nil st.report.errors _ (errors_of e c))
      sub_existing-Clean sub (inr true) st st' e c = (
        refl,
        visited_not (st.visiting sub) sub (cycle_issue env w wid step idx base sub st) st st' e c,
      )

      sub_parsed-Clean :
          (b : Bool) (r : String ⊎ Uuid) (st st' : WalkState F)
          → (if b
              then some (
                  report_error
                    (sub_issue env w wid step idx base "WORKFLOW_010"
                      "workflow_id is required for workflow step")
                    st)
              else sub_parsed env w wid step idx base r st)
            ≡ some st'
          → Clean st'
          → (sub : Uuid) × (r ≡ inr sub)
            × (env.workflow_exists sub ≡ inr true)
            × (w sub st ≡ some st')
      unfolding report_error add_error
      sub_parsed-Clean true r st st' e c = absurd (append-ne-nil st.report.errors _ (errors_of e c))
      sub_parsed-Clean false (inl m) st st' e c =
          absurd (append-ne-nil st.report.errors _ (errors_of e c))
      sub_parsed-Clean false (inr sub) st st' e c =
          let r = sub_existing-Clean sub (env.workflow_exists sub) st st' e c in
          (sub, refl, r.0, r.1)

      -- What a step of a given type establishes.
      abbrev pub Finished : List Uuid → Type 0
      Finished done = (sub : Uuid) → Names env step sub → Memᴰ sub done

      by_type-Clean :
          (t : StepType) (st st' : WalkState F)
          → step.step_type ≡ t
          → by_type env w wid step idx base t st ≡ some st'
          → Clean st'
          → ActionOk env t step
            × Clean st
            × (Inv st → Inv st' × Sub st.done st'.done × Finished st'.done)
      unfolding report_error add_error validate_sub_workflow_step
      by_type-Clean device st st' t e c =
          let r = validate_device_step-Clean env wid step idx base st (errors_of e c) in
          let s = validate_device_step-Same env wid step idx base st in
          (
            r.0,
            r.1,
            λ i.
                subst (λ (s : WalkState F). Inv s × Sub st.done s.done × Finished s.done)
                  (some_inj e)
                  (
                    Same-Inv st (validate_device_step env wid step idx base st) s i,
                    λ x m. subst (λ d. Memᴰ x d) (sym s.1) m,
                    λ sub n. cc (t, n.0),
                  ),
          )
      by_type-Clean workflow st st' t e c =
          let r =
            sub_parsed-Clean (is_blank step.workflow_id) (env.uuid_parse step.workflow_id) st st' e
              c in
          let q = sound r.0 st st' r.3 c in
          (
            (r.0, r.1, r.2),
            q.0,
            λ i. (
              (q.1 i).0,
              (q.1 i).1,
              λ sub n. subst (λ v. Memᴰ v st'.done) (cc (r.1, n.1)) (q.1 i).2,
            ),
          )
      by_type-Clean wait st st' t e c = (
        tt,
        errors_of e c,
        λ i.
            subst (λ (s : WalkState F). Inv s × Sub st.done s.done × Finished s.done) (some_inj e)
              (i, λ x m. m, λ sub n. cc (t, n.0)),
      )
      by_type-Clean (other m) st st' t e c =
          absurd (append-ne-nil st.report.errors _ (errors_of e c))

      validate_step-Clean :
          (st st' : WalkState F)
          → validate_step env w wid step idx base st ≡ some st'
          → Clean st'
          → StepOk env step
            × Clean st
            × (Inv st → Inv st' × Sub st.done st'.done × Finished st'.done)
      unfolding validate_step
      validate_step-Clean st st' e c =
          let st₁ = name_checked env w wid step idx base st in
          let r = by_type-Clean step.step_type st₁ st' refl e c in
          let q =
            error_if-Clean (is_blank step.name)
              (step_issue "STEP_001" "Step name is required" (env.uuid_string wid) "" idx "name"
                (text_append base "/name"))
              st r.1 in
          let s =
            error_if-Same (is_blank step.name)
              (step_issue "STEP_001" "Step name is required" (env.uuid_string wid) "" idx "name"
                (text_append base "/name"))
              st in
          (
            (q.0, r.0),
            q.1,
            λ i.
                let g = Same-Grows st st₁ s i in
                ((r.2 g.0).0, λ x m. (r.2 g.0).1 x (g.1 x m), (r.2 g.0).2),
          )

    pub validate_steps-Clean :
        (idx : ℕ) (steps : List (Step F)) (st st' : WalkState F)
        → validate_steps env w wid idx steps st ≡ some st'
        → Clean st'
        → All (StepOk env) steps
          × Clean st
          × (Inv st
              → Inv st'
                × Sub st.done st'.done
                × ((sub : Uuid) → SomeStep env steps sub → Memᴰ sub st'.done))
    unfolding validate_steps
    validate_steps-Clean idx [] st st' e c = (
      tt,
      errors_of e c,
      λ i.
          subst
            (λ (s : WalkState F). Inv s × Sub st.done s.done × ((sub : Uuid) → ⊥ → Memᴰ sub s.done))
            (some_inj e) (i, λ x m. m, λ sub n. elim n [ ]),
    )
    validate_steps-Clean idx (step ∷ steps) st st' e c =
        let base = text_append "/steps/" (decimal idx) in
        let h =
          >>=-some (validate_step env w wid step idx base st)
            (λ s. validate_steps env w wid (suc idx) steps s) e in
        let r = validate_steps-Clean (suc idx) steps h.0 st' h.2 c in
        let q = validate_step-Clean step idx base st h.0 h.1 r.1 in
        (
          (q.0, r.0),
          q.1,
          λ i.
              let a = q.2 i in
              let b = r.2 a.0 in
              (
                b.0,
                λ x m. b.1 x (a.1 x m),
                λ sub n. ⊎_elim (λ p. b.1 sub (a.2 sub p)) (λ p. b.2 sub p) n,
              ),
        )
