-- ===== src/Workflow/Executor/Ends.antt =====
-- executor.go: the execution of validated workflows ends.
use open_machine_core.Prelude.{
  ℕ, zero, suc, ◌≤◌, String, List, [], ◌∷◌, ◌≡◌, refl, subst, ap, ◌∙◌, Option, some, ◌⊎◌, inl, inr,
  Uuid, All, Memᴰ, Memᴰ-cons, arith, length, true,
}
use open_machine_core.Prelude.Outcome.{ok, err, panic}
use open_machine_core.Types.{Float64}
use open_machine_core.Workflow.Definition.{Workflow, Step, StepType, device, workflow, wait, other}
use open_machine_core.Workflow.Validator.Device.{Env}
use open_machine_core.Workflow.Validator.Report.{Report}
use open_machine_core.Workflow.Validator.Walk.{validate_by_id}
use open_machine_core.Workflow.Validator.Walk.Checks.{Loads}
use open_machine_core.Workflow.Validator.Walk.Order.{Names, SomeStep, RefersTo, Topo}
use open_machine_core.Workflow.Validator.Walk.Valid.{validate_by_id_order}
use open_machine_core.Workflow.Operations.{Data}
use open_machine_core.Workflow.Executor.{
  Plant, Ran, run_steps, execute_workflow_step, execute_type, execute, sub_result, sub_parsed,
  sub_loaded, sub_identified,
}

module _ (fl : Float64) (env : Env fl.F) where
  open fl use {F}

  -- A step's execution returns, on every input and in every state of the plant.
  abbrev pub Answers : (Step F → Data F → Plant F → Option (Ran F)) → Step F → Type 0
  Answers exec step =
      (input : Data F) (plant : Plant F) → (r : Ran F) × (exec step input plant ≡ some r)

  module _ (exec : Step F → Data F → Plant F → Option (Ran F)) where
    sub_result_answers :
        (i : ℕ) (name : String) (rest : Data F → Plant F → Option (Ran F)) (r : Ran F)
        → ((input : Data F) (plant : Plant F) → (q : Ran F) × (rest input plant ≡ some q))
        → (q : Ran F) × (sub_result fl env exec i name rest (some r) ≡ some q)
    sub_result_answers i name rest (plant, ok result) h = h result plant
    sub_result_answers i name rest (plant, err e) h = (_, refl)
    sub_result_answers i name rest (plant, panic) h = (_, refl)

    run_steps-Answers :
        (i : ℕ) (steps : List (Step F))
        → All (Answers exec) steps
        → (input : Data F) (plant : Plant F)
        → (r : Ran F) × (run_steps fl env exec i steps input plant ≡ some r)
    unfolding run_steps
    run_steps-Answers i [] a input plant = (_, refl)
    run_steps-Answers i (step ∷ steps) a input plant =
        let h = a.0 input plant in
        let rest = λ (result : Data F) (plant' : Plant F).
          run_steps fl env exec (suc i) steps result plant' in
        let r =
          sub_result_answers i step.name rest h.0
            (λ x p. run_steps-Answers (suc i) steps a.1 x p) in
        (r.0, ap (λ (o : Option (Ran F)). sub_result fl env exec i step.name rest o) h.1 ∙ r.1)

    -- A subworkflow step answers when the steps of the workflow that it names do.
    module _ (step : Step F)
        (answers : (sub : Uuid) (def : Workflow F)
          → env.uuid_parse step.workflow_id ≡ inr sub
          → Loads env sub def
          → All (Answers exec) def.steps)
        (input : Data F) (plant : Plant F) where
      parsed_answers :
          (sub : Uuid) (d : String) (p : String ⊎ Workflow F)
          → env.uuid_parse step.workflow_id ≡ inr sub
          → env.load_workflow sub ≡ inr d
          → env.parse_workflow d ≡ p
          → (r : Ran F) × (sub_parsed fl env exec p input plant ≡ some r)
      parsed_answers sub d (inl e) u l q = (_, refl)
      parsed_answers sub d (inr def) u l q =
          run_steps-Answers 0 def.steps (answers sub def u (d, l, q)) input plant

      loaded_answers :
          (sub : Uuid) (l : String ⊎ String)
          → env.uuid_parse step.workflow_id ≡ inr sub
          → env.load_workflow sub ≡ l
          → (r : Ran F) × (sub_loaded fl env exec l input plant ≡ some r)
      loaded_answers sub (inl e) u q = (_, refl)
      loaded_answers sub (inr d) u q = parsed_answers sub d (env.parse_workflow d) u q refl

      identified_answers :
          (u : String ⊎ Uuid)
          → env.uuid_parse step.workflow_id ≡ u
          → (r : Ran F) × (sub_identified fl env exec u input plant ≡ some r)
      identified_answers (inl e) q = (_, refl)
      identified_answers (inr sub) q = loaded_answers sub (env.load_workflow sub) q refl

      execute_workflow_step_answers :
          (r : Ran F) × (execute_workflow_step fl env exec step input plant ≡ some r)
      unfolding execute_workflow_step
      execute_workflow_step_answers = identified_answers (env.uuid_parse step.workflow_id) refl

    execute_type-Answers :
        (t : StepType) (step : Step F)
        → step.step_type ≡ t
        → ((sub : Uuid) (def : Workflow F)
            → Names env step sub
            → Loads env sub def
            → All (Answers exec) def.steps)
        → (input : Data F) (plant : Plant F)
        → (r : Ran F) × (execute_type fl env exec t step input plant ≡ some r)
    execute_type-Answers device step e h input plant = (_, refl)
    execute_type-Answers workflow step e h input plant =
        execute_workflow_step_answers step (λ sub def u l. h sub def (e, u) l) input plant
    execute_type-Answers wait step e h input plant = (_, refl)
    execute_type-Answers (other t) step e h input plant = (_, refl)

  execute-Answers :
      (fuel : ℕ) (step : Step F)
      → ((sub : Uuid) (def : Workflow F)
          → Names env step sub
          → Loads env sub def
          → All (Answers (λ s i p. execute fl env fuel s i p)) def.steps)
      → Answers (λ s i p. execute fl env (suc fuel) s i p) step
  unfolding execute
  execute-Answers fuel step h input plant =
      execute_type-Answers (λ s i p. execute fl env fuel s i p) step.step_type step refl h input
        plant

  All-steps :
      (P : Step F → Type 0) (Q : Uuid → Type 0) (steps : List (Step F))
      → ((step : Step F) → ((sub : Uuid) → Names env step sub → Q sub) → P step)
      → ((sub : Uuid) → SomeStep env steps sub → Q sub)
      → All P steps
  All-steps P Q [] f h = tt
  All-steps P Q (step ∷ steps) f h =
      (f step (λ sub n. h sub (inl n)), All-steps P Q steps f (λ sub n. h sub (inr n)))

  -- Fuel for the workflows of an order is enough for each of them.
  Topo-Answers :
      (xs : List Uuid)
      → Topo env xs
      → (fuel : ℕ) → length xs ≤ fuel
      → (x : Uuid) → Memᴰ x xs
      → (def : Workflow F) → Loads env x def
      → All (Answers (λ s i p. execute fl env fuel s i p)) def.steps
  Topo-Answers [] t fuel l x m def d = elim m [ ]
  Topo-Answers (w ∷ xs) t zero l x m def d = absurd (omega arith)
  Topo-Answers (w ∷ xs) t (suc fuel) l x m def d = elim ((Memᴰ-cons x w xs).0 m) [
    | inl e ↦
        All-steps (Answers (λ s i p. execute fl env (suc fuel) s i p)) (λ sub. Memᴰ sub xs)
          def.steps
          (λ step h.
            execute-Answers fuel step
              (λ sub def' n l'. Topo-Answers xs t.2 fuel (omega (arith, l)) sub (h sub n) def' l'))
          (λ sub n. t.1 sub (subst (λ v. RefersTo env v sub) e (def, d, n)))
    | inr m' ↦ Topo-Answers xs t.2 (suc fuel) (omega (arith, l)) x m' def d
  ]

  -- After a valid report there is a nesting depth that the execution of the workflow's steps
  -- never exceeds, whatever the input, the devices and the waits do, as long as the stored
  -- definitions stay those that were validated.
  pub execute_validated :
      (fuel : ℕ) (wid : Uuid) (r : Report)
      → validate_by_id env fuel wid ≡ inr (some r)
      → r.valid ≡ true
      → (depth : ℕ) × ((n : ℕ) (def : Workflow F)
          → depth ≤ n
          → Loads env wid def
          → All (Answers (λ s i p. execute fl env n s i p)) def.steps)
  execute_validated fuel wid r e v =
      let t = validate_by_id_order env fuel wid r e v in
      (length t.0, λ n def l d. Topo-Answers t.0 t.1 n l wid t.2 def d)
