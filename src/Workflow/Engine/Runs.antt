-- ===== src/Workflow/Engine/Runs.antt =====
-- engine.go: how an execution ends and what it has recorded.
use open_machine_core.Prelude.{
  ℕ, suc, String, List, [], ◌∷◌, ◌≡◌, refl, subst, ap, ◌∙◌, Bool, true, false, Option, none, some,
  some_inj, Uuid, length, All, ◌⊎◌, inl, inr, map, if◌then◌else◌,
}
use open_machine_core.Prelude.Outcome.{ok, err, panic}
use open_machine_core.Types.{Float64}
use open_machine_core.Workflow.Definition.{Workflow, Step, CallFrame, build_hierarchical_step_id}
use open_machine_core.Workflow.Validator.Device.{Env}
use open_machine_core.Workflow.Operations.{Data, ExecError}
use open_machine_core.Workflow.Executor.{Plant, Ran, execute}
use open_machine_core.Workflow.Engine.{
  Status, pending, running, success, failed, cancelled, Execution, ExecutionStep, RunState, Finish,
  returned, push, set_current_step, cancel_round, track, begin_step, end_step, executed,
  execute_step, after_step, run_steps, is_done, later, new_run, run_execution, send, workflow_step,
  interrupt, begin_run, update_execution, complete, MessageType, workflow_completed,
  workflow_cancelled,
}

abbrev pub IsFinal : Status → Type 0
IsFinal pending = ⊥
IsFinal running = ⊥
IsFinal success = Unit
IsFinal failed = Unit
IsFinal cancelled = Unit

-- The names of the steps, the latest first, on top of those recorded before.
unfoldable pub logged : {F : Type 0} → List (Step F) → List String → List String
logged [] old = old
logged (step ∷ steps) old = logged steps (step.name ∷ old)

-- The last update says that the execution runs, and nothing of where it stands.
abbrev pub RowRunning : List Execution → Type 0
RowRunning updates =
    (u : Execution) × (before : List Execution) × (updates ≡ u ∷ before)
    × (u.status ≡ running)
    × (u.current_step_id ≡ "")

-- The stored row does not say that the execution has ended: it was created as pending and not
-- updated, or says that it runs.
abbrev pub Unfinished : List Execution → Type 0
Unfinished updates = (updates ≡ []) ⊎ RowRunning updates

-- The execution has a final status and a completion time. They are stored, unless its context is
-- done: then the stored row does not say that it has ended.
pub record Settled {F : Type 0} (s : RunState F) : Type 0 where
  pub final : IsFinal s.exec.status
  pub complete : s.exec.completed ≡ true
  pub stored : s.done ≡ false → (before : List Execution) × (s.updates ≡ s.exec ∷ before)
  pub unstored : s.done ≡ true → Unfinished s.updates

pub stored_lem :
    (d : Bool) (x : Execution) (old : List Execution)
    → d ≡ false
    → (before : List Execution) × ((if d then old else x ∷ old) ≡ x ∷ before)
stored_lem true x old e = cc
stored_lem false x old e = (old, refl)

pub unstored_lem :
    (d : Bool) (x : Execution) (old : List Execution)
    → Unfinished old
    → d ≡ true
    → Unfinished (if d then old else x ∷ old)
unstored_lem true x old h e = h
unstored_lem false x old h e = cc

pub begun_lem :
    (d : Bool) (x : Execution) (old : List Execution)
    → Unfinished old
    → x.status ≡ running
    → x.current_step_id ≡ ""
    → Unfinished (if d then old else x ∷ old)
begun_lem true x old h r p = h
begun_lem false x old h r p = inr (x, old, refl, r, p)

-- The last update of a run whose row has not ended.
settled_lem :
    {F : Type 0} (s : RunState F) (status : Status)
    → IsFinal status
    → Unfinished s.updates
    → Settled (update_execution (complete status s))
      × Settled (update_execution (track (complete status s)))
unfolding build_hierarchical_step_id
settled_lem s status f h =
    let x : Execution = record s.exec { status = status; completed = true } in
    let y = (track (complete status s)).exec in
    (
      record {
        final = f;
        complete = refl;
        stored = stored_lem s.done x s.updates;
        unstored = unstored_lem s.done x s.updates h;
      },
      record {
        final = f;
        complete = refl;
        stored = stored_lem s.done y s.updates;
        unstored = unstored_lem s.done y s.updates h;
      },
    )

-- A recorded step that was executed without an error, at the top level.
abbrev pub Succeeded : {F : Type 0} → ExecutionStep F → Type 0
Succeeded r = (r.status ≡ success) × (r.completed ≡ true) × (r.depth ≡ 1)

abbrev pub names : {F : Type 0} → RunState F → List String
names s = map (λ r. r.step_name) s.steps

-- What is known between two rounds.
pub record Between {F : Type 0} (s : RunState F) : Type 0 where
  pub top_level : length s.call_stack ≡ 1
  pub so_far : All Succeeded s.steps
  pub row : Unfinished s.updates

-- What the loop leaves when its steps were `todo`.
pub record Left {F : Type 0} (todo : List (Step F)) (s s' : RunState F) : Type 0 where
  pub settled : Settled s'
  pub succeeded :
      s'.exec.status ≡ success → (names s' ≡ logged todo (names s)) × All Succeeded s'.steps
  pub failed_last :
      s'.exec.status ≡ failed
      → (r : ExecutionStep F) × (before : List (ExecutionStep F)) × (s'.steps ≡ r ∷ before)
        × (r.status ≡ failed)
        × All Succeeded before

length-set_current_step :
    (n : String) (stack : List CallFrame) → length (set_current_step n stack) ≡ length stack
unfolding set_current_step
length-set_current_step n [] = refl
length-set_current_step n (f ∷ []) = refl
length-set_current_step n (f ∷ g ∷ fs) = ap suc (length-set_current_step n (g ∷ fs))

-- The record of a step that failed.
abbrev failed_step : {F : Type 0} → Step F → ℕ → RunState F → ExecError → ExecutionStep F
failed_step step index s x = record {
  step_index = index;
  step_name = step.name;
  hierarchical_step_id = build_hierarchical_step_id (set_current_step step.number s.call_stack);
  depth = length (set_current_step step.number s.call_stack);
  status = failed;
  output = none;
  error = some x;
  completed = true;
}

module _ {F : Type 0} (exec : Step F → Data F → Plant F → Option (Ran F)) (input : Data F) where
  -- what a round passes on: nothing, a finished run, or the state of the next round
  after_step-Left :
      (rest : RunState F → Option (RunState F × Finish)) (step : Step F) (steps : List (Step F))
      (index : ℕ) (cancels : List Bool) (s s' : RunState F) (o : Option (Ran F))
      → Between s
      → ((t : RunState F) → Between t → rest t ≡ some (s', returned) → Left steps t s')
      → after_step exec input rest step
          (executed exec input index cancels o (begin_step index step s))
        ≡ some (s', returned)
      → Left (step ∷ steps) s s'
  unfolding set_current_step build_hierarchical_step_id logged
  after_step-Left rest step steps index cancels s s' none b h e = cc
  after_step-Left rest step steps index cancels s s' (some (plant, panic)) b h e = cc
  after_step-Left rest step steps index cancels s s' (some (plant, err x)) b h e =
      let u = interrupt cancels (begin_step index step s) in
      let t = track (end_step index (plant, err x) u).0 in
      subst (λ (q : RunState F). Left (step ∷ steps) s q)
        (ap (λ (q : RunState F × Finish). q.0) (some_inj e))
        (record {
          settled =
              let v = (settled_lem t failed tt b.row).0 in
              record {
                final = v.final;
                complete = v.complete;
                stored = v.stored;
                unstored = v.unstored;
              };
          succeeded = λ z. cc;
          failed_last = λ _. (failed_step step index s x, s.steps, refl, refl, b.so_far);
        })
  after_step-Left rest step steps index cancels s s' (some (plant, ok x)) b h e =
      let u = interrupt cancels (begin_step index step s) in
      let t = send workflow_step step.name "completed" (track (end_step index (plant, ok x) u).0) in
      let d = length-set_current_step step.number s.call_stack ∙ b.top_level in
      let l = h t (record { top_level = d; so_far = ((refl, refl, d), b.so_far); row = b.row }) e in
      record { settled = l.settled; succeeded = l.succeeded; failed_last = l.failed_last }

  round_cases :
      (d : Bool) (t s' : RunState F) (rest : Option (RunState F × Finish))
      → (if d then some (t, returned) else rest) ≡ some (s', returned)
      → (t ≡ s') ⊎ (rest ≡ some (s', returned))
  round_cases true t s' rest e = inl (ap (λ (q : RunState F × Finish). q.0) (some_inj e))
  round_cases false t s' rest e = inr e

  -- a run that ends at a select
  last-Settled :
      (s : RunState F) (status : Status) (t : MessageType) (name text : String)
      → IsFinal status
      → Unfinished s.updates
      → Settled (send t name text (update_execution (track (complete status s))))
  unfolding build_hierarchical_step_id
  last-Settled s status t name text f h =
      let v = (settled_lem s status f h).1 in
      record { final = v.final; complete = v.complete; stored = v.stored; unstored = v.unstored }

  run_steps-Left :
      (index : ℕ) (steps : List (Step F)) (cancels : List Bool) (s s' : RunState F)
      → Between s
      → run_steps exec input index steps cancels s ≡ some (s', returned)
      → Left steps s s'
  unfolding run_steps execute_step logged set_current_step build_hierarchical_step_id
  run_steps-Left index [] cancels s s' b e =
      subst (λ (q : RunState F). Left [] s q) (ap (λ (q : RunState F × Finish). q.0) (some_inj e))
        (record {
          settled =
              last-Settled (interrupt cancels s) success workflow_completed "" "success" tt b.row;
          succeeded = λ _. (refl, b.so_far);
          failed_last = λ z. cc;
        })
  run_steps-Left index (step ∷ steps) cancels s s' b e =
      let u = interrupt cancels s in
      let now = later cancels in
      let t = send workflow_step step.name "running" u in
      elim (round_cases u.done (cancel_round step u) s'
        (after_step exec input (λ q. run_steps exec input (suc index) steps (later now) q) step
          (execute_step exec input index step now t))
        e) [
          | inl h ↦
              subst (λ (q : RunState F). Left (step ∷ steps) s q) h
                (record {
                  settled =
                      last-Settled u cancelled workflow_cancelled step.name "cancelled" tt b.row;
                  succeeded = λ z. cc;
                  failed_last = λ z. cc;
                })
          | inr h ↦
              let l =
                after_step-Left (λ q. run_steps exec input (suc index) steps (later now) q) step
                  steps index now t s' (exec step input s.plant)
                  (record { top_level = b.top_level; so_far = b.so_far; row = b.row })
                  (λ q k r. run_steps-Left (suc index) steps (later now) q s' k r) h in
              record { settled = l.settled; succeeded = l.succeeded; failed_last = l.failed_last }
        ]

module _ (fl : Float64) (env : Env fl.F) where
  open fl use {F}

  -- A new execution whose goroutine returns has a final status and a completion time, stored by
  -- its last update, unless its context was done by then: its stored row then still says pending
  -- or running. On success every step of the workflow was executed, in order and without an
  -- error; on failure the step begun last has failed and all before it succeeded.
  pub run_execution-Left :
      (fuel : ℕ) (id wid : Uuid) (def : Workflow F) (input : Data F) (cancels : List Bool)
      (text : String) (plant : Plant F) (s' : RunState F)
      → run_execution fl env fuel def input cancels (new_run fl id wid def text plant)
        ≡ some (s', returned)
      → Left def.steps (new_run fl id wid def text plant) s'
  unfolding run_execution new_run push logged
  run_execution-Left fuel id wid def input cancels text plant s' e =
      let l =
        run_steps-Left (λ t i p. execute fl env fuel t i p) input 0 def.steps (later cancels)
          (begin_run (interrupt cancels (new_run fl id wid def text plant))) s'
          (record {
            top_level = refl;
            so_far = tt;
            row = begun_lem (is_done cancels) _ [] (inl refl) refl refl;
          })
          e in
      record { settled = l.settled; succeeded = l.succeeded; failed_last = l.failed_last }
