-- ===== src/Workflow/Validator/Walk/Total.antt =====
-- validator.go: a validation ends. Fuel for every stored workflow and one more is enough.
use open_machine_core.Prelude.{
  ℕ, zero, suc, ◌<◌, String, List, [], ◌∷◌, ◌≡◌, ◌≢◌, refl, sym, ap, subst, ◌∙◌, inl, inr, ◌⊎◌,
  Uuid, Memᴰ, arith, All, Bool, true, false, Option, none, some, if◌then◌else◌, ◌==◌, ==_iff,
  Bool-cases, length,
}
use open_machine_core.Workflow.Definition.{Workflow}
use open_machine_core.Workflow.Validator.Report.{Issue, Report, finalize}
use open_machine_core.Workflow.Validator.Device.{Env, WalkState, report_error}
use open_machine_core.Workflow.Validator.Walk.{
  get_workflow, wf_issue, walk_found, walk, contains, parsed, loaded, stored, from_cache,
  cache_lookup, enter, leave, set_flag, validate_by_id, start, root_parsed, root_loaded, finished,
  ◌>>=◌,
}
use open_machine_core.Workflow.Validator.Walk.Fuel.{
  free, free_le, free_set_lt, InDb, Ends, Total, Same-Ends, validate_workflow-Ends,
}

module _ {F : Type 0} (env : Env F) (stored_ids : List Uuid) where
  -- the stored workflow that a lookup found
  cached-InDb :
      (wid : Uuid) (c : List (Uuid × Workflow F)) (def : Workflow F)
      → cache_lookup wid c ≡ some def
      → All (λ (e : Uuid × Workflow F). Memᴰ e.0 stored_ids) c
      → Memᴰ wid stored_ids
  unfolding cache_lookup
  cached-InDb wid [] def e a = cc
  cached-InDb wid ((id, d) ∷ c) def e a = elim (Bool-cases (id == wid)) [
    | inl h ↦ subst (λ v. Memᴰ v stored_ids) ((==_iff id wid).0 h) a.0
    | inr h ↦ cached-InDb wid c def (ground (arith, h, e)) a.1
  ]

  unfoldable pub Got : Uuid → WalkState F → WalkState F × (String ⊎ Option (Workflow F)) → Type 0
  Got wid st g =
      (g.0.visiting ≡ st.visiting)
      × InDb env stored_ids g.0
      × ((def : Workflow F) → g.1 ≡ inr (some def) → Memᴰ wid stored_ids)

  module _ (known : (x : Uuid) → env.workflow_exists x ≡ inr true → Memᴰ x stored_ids) where
    parsed-Got :
        (wid : Uuid) (r : String ⊎ Workflow F) (st : WalkState F)
        → Memᴰ wid stored_ids
        → InDb env stored_ids st
        → Got wid st (parsed env wid r st)
    unfolding Got InDb report_error
    parsed-Got wid (inl e) st m i = (refl, i, λ def e. cc)
    parsed-Got wid (inr def) st m i = (refl, (m, i), λ def e. m)

    loaded-Got :
        (wid : Uuid) (r : String ⊎ String) (st : WalkState F)
        → Memᴰ wid stored_ids
        → InDb env stored_ids st
        → Got wid st (loaded env wid r st)
    unfolding Got
    loaded-Got wid (inl e) st m i = (refl, i, λ def e. cc)
    loaded-Got wid (inr d) st m i = parsed-Got wid (env.parse_workflow d) st m i

    stored-Got :
        (wid : Uuid) (r : String ⊎ Bool) (st : WalkState F)
        → env.workflow_exists wid ≡ r
        → InDb env stored_ids st
        → Got wid st (stored env wid r st)
    unfolding Got
    stored-Got wid (inl e) st h i = (refl, i, λ def e. cc)
    stored-Got wid (inr false) st h i = (refl, i, λ def e. cc)
    stored-Got wid (inr true) st h i = loaded-Got wid (env.load_workflow wid) st (known wid h) i

    from_cache-Got :
        (wid : Uuid) (o : Option (Workflow F)) (st : WalkState F)
        → cache_lookup wid st.cache ≡ o
        → InDb env stored_ids st
        → Got wid st (from_cache env wid o st)
    unfolding Got InDb
    from_cache-Got wid (some def) st h i = (refl, i, λ d e. cached-InDb wid st.cache def h i)
    from_cache-Got wid none st h i = stored-Got wid (env.workflow_exists wid) st refl i

    -- leaving a workflow restores the stack's flags
    restored :
        (wid : Uuid) (u v : Uuid → Bool)
        → v wid ≡ false
        → ((x : Uuid) → u x ≡ set_flag wid true v x)
        → (x : Uuid) → set_flag wid false u x ≡ v x
    restored wid u v h k x = elim (Bool-cases (x == wid)) [
      | inl e ↦ ground (arith, h, (==_iff x wid).0 e)
      | inr e ↦ ground (arith, e, k x)
    ]

    walk_found-Ends :
        (n : ℕ) (w : Uuid → WalkState F → Option (WalkState F))
        → Total env stored_ids n w
        → (wid : Uuid) (st : WalkState F) (g : WalkState F × (String ⊎ Option (Workflow F)))
        → st.visiting wid ≡ false
        → free st.visiting stored_ids < suc n
        → Got wid st g
        → Ends env stored_ids st (walk_found env w wid g)
    unfolding Got Ends report_error InDb
    walk_found-Ends n w total wid st (s, inl e) v l g =
        (_, refl, λ x. ap (λ (v : Uuid → Bool). v x) g.0, g.1)
    walk_found-Ends n w total wid st (s, inr none) v l g =
        (_, refl, λ x. ap (λ (v : Uuid → Bool). v x) g.0, g.1)
    walk_found-Ends n w total wid st (s, inr (some def)) v l g =
        let u = ap (λ (f : Uuid → Bool). f wid) g.0 ∙ v in
        let a = free_set_lt s.visiting wid stored_ids (g.2 def refl) u in
        let b = ap (λ (f : Uuid → Bool). free f stored_ids) g.0 in
        let r =
          validate_workflow-Ends env stored_ids n w total wid def (enter env wid s) g.1
            (omega (arith, a, b, l)) in
        (
          leave env wid r.0,
          subst
              (λ (m : Option (WalkState F)).
                (m >>= λ q. some (leave env wid q)) ≡ some (leave env wid r.0))
              (sym r.1) refl,
          λ x. restored wid r.0.visiting s.visiting u r.2 x ∙ ap (λ (f : Uuid → Bool). f x) g.0,
          r.3,
        )

    walk_cases-Ends :
        (a b : Bool) (issue : Issue) (rest : Option (WalkState F)) (st : WalkState F)
        → InDb env stored_ids st
        → (b ≡ false → Ends env stored_ids st rest)
        → Ends env stored_ids st
            (if a then some st else if b then some (report_error issue st) else rest)
    unfolding report_error
    walk_cases-Ends true b issue rest st i h = Same-Ends env stored_ids st st (refl, refl, refl) i
    walk_cases-Ends false true issue rest st i h =
        Same-Ends env stored_ids st (report_error issue st) (refl, refl, refl) i
    walk_cases-Ends false false issue rest st i h = h refl

    pub walk-Total : (fuel : ℕ) → Total env stored_ids fuel (λ wid st. walk env fuel wid st)
    unfolding Total walk get_workflow
    walk-Total zero wid st i l = absurd (omega arith)
    walk-Total (suc fuel) wid st i l =
        walk_cases-Ends (contains st.done wid) (st.visiting wid)
          (wf_issue env "WORKFLOW_050" "Circular workflow reference detected" wid "" "")
          (walk_found env (λ id s. walk env fuel id s) wid (get_workflow env wid st)) st i
          (λ v.
            walk_found-Ends fuel (λ id s. walk env fuel id s) (walk-Total fuel) wid st
              (get_workflow env wid st) v l
              (from_cache-Got wid (cache_lookup wid st.cache) st refl i))

    root_parsed-Ends :
        (fuel : ℕ) (wid : Uuid) (p : String ⊎ Workflow F)
        → Memᴰ wid stored_ids
        → length stored_ids < fuel
        → (r : Report) × (root_parsed env fuel wid p ≡ some r)
    unfolding Total InDb Ends
    root_parsed-Ends fuel wid (inl e) m l = (_, refl)
    root_parsed-Ends fuel wid (inr def) m l =
        let st = start env wid def in
        let r = walk-Total fuel wid st (m, tt) (omega (arith, l, free_le st.visiting stored_ids)) in
        (finalize r.0.report, ap (finished env) r.1)

    root_loaded-Ends :
        (fuel : ℕ) (wid : Uuid) (d : String ⊎ String)
        → Memᴰ wid stored_ids
        → length stored_ids < fuel
        → root_loaded env fuel wid d ≢ inr none
    root_loaded-Ends fuel wid (inl e) m l h = cc
    root_loaded-Ends fuel wid (inr d) m l h =
        let r = root_parsed-Ends fuel wid (env.parse_workflow d) m l in cc (h, r.1)

    -- When a list holds every workflow that the storage says exists, and the validated one,
    -- validation with fuel for more than the list's length never runs out of it: it returns an
    -- error or a report.
    pub validate_by_id_ends :
        (fuel : ℕ) (wid : Uuid)
        → Memᴰ wid stored_ids
        → length stored_ids < fuel
        → validate_by_id env fuel wid ≢ inr none
    unfolding validate_by_id
    validate_by_id_ends fuel wid m l = root_loaded-Ends fuel wid (env.load_workflow wid) m l
