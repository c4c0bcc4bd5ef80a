-- ===== src/Workflow/Validator/Walk/Order.antt =====
-- The order in which the walk of validator.go finishes workflows: every workflow is finished after
-- all that it refers to.
use open_machine_core.Prelude.{List, [], ◌∷◌, ◌≡◌, sym, subst, inl, inr, ◌⊎◌, Uuid, Memᴰ, Memᴰ-cons}
use open_machine_core.Workflow.Definition.{Workflow, Step, workflow}
use open_machine_core.Workflow.Validator.Device.{Env}
use open_machine_core.Workflow.Validator.Walk.Checks.{Loads, DefinitionOk}

-- A subworkflow step names `sub`.
abbrev pub Names : {F : Type 0} → Env F → Step F → Uuid → Type 0
Names env step sub = (step.step_type ≡ workflow) × (env.uuid_parse step.workflow_id ≡ inr sub)

abbrev pub SomeStep : {F : Type 0} → Env F → List (Step F) → Uuid → Type 0
SomeStep env [] sub = ⊥
SomeStep env (step ∷ steps) sub = Names env step sub ⊎ SomeStep env steps sub

module _ {F : Type 0} (env : Env F) where
  -- The stored workflow `x` has a step that runs `y`.
  abbrev pub RefersTo : Uuid → Uuid → Type 0
  RefersTo x y = (def : Workflow F) × Loads env x def × SomeStep env def.steps y

  -- The stored workflow `x` runs `z`, directly or through others.
  pub data Reaches : Uuid → Uuid → Type 0 where
    direct : {x y : Uuid} → RefersTo x y → Reaches x y
    through : {x y z : Uuid} → RefersTo x y → Reaches y z → Reaches x z

  -- A workflow that is stored, can be read and passes its own checks.
  abbrev pub Sane : Uuid → Type 0
  Sane x = (def : Workflow F) × Loads env x def × DefinitionOk env def

  abbrev pub Topo : List Uuid → Type 0
  Topo [] = Unit
  Topo (x ∷ xs) = Sane x × ((y : Uuid) → RefersTo x y → Memᴰ y xs) × Topo xs

  pub Topo-refers : (xs : List Uuid) → Topo xs → {x y : Uuid} → Memᴰ x xs → RefersTo x y → Memᴰ y xs
  Topo-refers [] t m r = elim m [ ]
  Topo-refers (w ∷ xs) t {x} {y} m r = elim ((Memᴰ-cons x w xs).0 m) [
    | inl e ↦ Memᴰ.tail (t.1 y (subst (λ v. RefersTo v y) e r))
    | inr m' ↦ Memᴰ.tail (Topo-refers xs t.2 m' r)
  ]

  pub Topo-Reaches : (xs : List Uuid) → Topo xs → {x y : Uuid} → Memᴰ x xs → Reaches x y → Memᴰ y xs
  Topo-Reaches xs t m (direct r) = Topo-refers xs t m r
  Topo-Reaches xs t m (through r p) = Topo-Reaches xs t (Topo-refers xs t m r) p

  pub Topo-Sane : (xs : List Uuid) → Topo xs → {x : Uuid} → Memᴰ x xs → Sane x
  Topo-Sane [] t m = elim m [ ]
  Topo-Sane (w ∷ xs) t {x} m = elim ((Memᴰ-cons x w xs).0 m) [
    | inl e ↦ subst (λ v. Sane v) (sym e) t.0
    | inr m' ↦ Topo-Sane xs t.2 m'
  ]

  -- what a workflow reaches has been finished before it
  head_reaches : (w : Uuid) (xs : List Uuid) → Topo (w ∷ xs) → {y : Uuid} → Reaches w y → Memᴰ y xs
  head_reaches w xs t (direct r) = t.1 _ r
  head_reaches w xs t (through r p) = Topo-Reaches xs t.2 (t.1 _ r) p

  -- No finished workflow runs itself, directly or through others.
  pub Topo-acyclic : (xs : List Uuid) → Topo xs → {x : Uuid} → Memᴰ x xs → ¬ Reaches x x
  Topo-acyclic [] t m r = elim m [ ]
  Topo-acyclic (w ∷ xs) t {x} m r = elim ((Memᴰ-cons x w xs).0 m) [
    | inl e ↦
        Topo-acyclic xs t.2
          (subst (λ v. Memᴰ v xs) (sym e) (head_reaches w xs t (subst (λ v. Reaches v v) e r))) r
    | inr m' ↦ Topo-acyclic xs t.2 m' r
  ]
