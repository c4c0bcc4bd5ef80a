-- ===== src/Workflow/Validator/Walk/Valid.antt =====
-- validator.go: what a report without errors means for the stored workflows.
use open_machine_core.Prelude.{
  ℕ, zero, suc, String, List, [], ◌∷◌, ◌≡◌, refl, sym, ap, subst, ◌∙◌, inl, inr, ◌⊎◌, Uuid, Memᴰ,
  Memᴰ-cons, arith, All, Bool, true, false, Option, none, some, some_inj, if◌then◌else◌, ◌==◌,
  ==_iff, Bool-cases,
}
use open_machine_core.Workflow.Definition.{Workflow}
use open_machine_core.Workflow.Validator.Report.{Issue, Report, add_error, empty_report}
use open_machine_core.Workflow.Validator.Report.Sorting.{finalize-valid}
use open_machine_core.Prelude.Text.{text_append}
use open_machine_core.Workflow.Validator.Device.{Env, WalkState, report_error}
use open_machine_core.Workflow.Validator.Walk.{
  get_workflow, wf_issue, walk_found, walk, contains, parsed, loaded, stored, from_cache,
  cache_lookup, validate_by_id, finished, root_parsed, root_loaded, start,
}
use open_machine_core.Workflow.Validator.Walk.Checks.{Clean, Loads, append-ne-nil}
use open_machine_core.Workflow.Validator.Walk.Order.{
  SomeStep, Reaches, Sane, Topo, Topo-acyclic, Topo-Reaches, Topo-Sane,
}
use open_machine_core.Workflow.Validator.Walk.Found.{walk_found-Clean}
use open_machine_core.Workflow.Validator.Walk.Sound.{Sub, Inv, Sound, errors_of}

contains-Memᴰ : (xs : List Uuid) (wid : Uuid) → contains xs wid ≡ true → Memᴰ wid xs
unfolding contains
contains-Memᴰ [] wid e = cc
contains-Memᴰ (x ∷ xs) wid e = elim (Bool-cases (x == wid)) [
  | inl h ↦ (Memᴰ-cons wid x xs).1 (inl (sym ((==_iff x wid).0 h)))
  | inr h ↦ Memᴰ.tail (contains-Memᴰ xs wid (ground (arith, h, e)))
]

module _ {F : Type 0} (env : Env F) where
  cached-Loads :
      (wid : Uuid) (c : List (Uuid × Workflow F)) (def : Workflow F)
      → cache_lookup wid c ≡ some def
      → All (λ (e : Uuid × Workflow F). Loads env e.0 e.1) c
      → Loads env wid def
  unfolding cache_lookup
  cached-Loads wid [] def e a = cc
  cached-Loads wid ((id, d) ∷ c) def e a = elim (Bool-cases (id == wid)) [
    | inl h ↦
        subst (λ (p : Uuid × Workflow F). Loads env p.0 p.1) (ground (arith, h, e, ==_iff id wid))
          a.0
    | inr h ↦ cached-Loads wid c def (ground (arith, h, e)) a.1
  ]

  -- What a lookup of a definition that succeeded establishes.
  Gets : Uuid → Workflow F → WalkState F → WalkState F × (String ⊎ Option (Workflow F)) → Type 0
  Gets wid def st g =
      g.1 ≡ inr (some def)
      → Clean g.0
      → Clean st × (Inv env st → Loads env wid def × Inv env g.0 × (g.0.done ≡ st.done))

  parsed-Gets :
      (wid : Uuid) (def : Workflow F) (d : String) (r : String ⊎ Workflow F) (st : WalkState F)
      → env.load_workflow wid ≡ inr d
      → env.parse_workflow d ≡ r
      → Gets wid def st (parsed env wid r st)
  unfolding Gets
  parsed-Gets wid def d (inl m) st l p e c = cc
  parsed-Gets wid def d (inr def') st l p e c =
      (c, λ i. ((d, l, cc (p, e)), (((d, l, p), i.0), i.1), refl))

  loaded-Gets :
      (wid : Uuid) (def : Workflow F) (r : String ⊎ String) (st : WalkState F)
      → env.load_workflow wid ≡ r
      → Gets wid def st (loaded env wid r st)
  unfolding Gets
  loaded-Gets wid def (inl m) st l e c = cc
  loaded-Gets wid def (inr d) st l e c = parsed-Gets wid def d (env.parse_workflow d) st l refl e c

  stored-Gets :
      (wid : Uuid) (def : Workflow F) (r : String ⊎ Bool) (st : WalkState F)
      → Gets wid def st (stored env wid r st)
  unfolding Gets
  stored-Gets wid def (inl m) st e c = cc
  stored-Gets wid def (inr false) st e c = cc
  stored-Gets wid def (inr true) st e c = loaded-Gets wid def (env.load_workflow wid) st refl e c

  from_cache-Gets :
      (wid : Uuid) (def : Workflow F) (o : Option (Workflow F)) (st : WalkState F)
      → cache_lookup wid st.cache ≡ o
      → Gets wid def st (from_cache env wid o st)
  unfolding Gets
  from_cache-Gets wid def (some def') st l e c =
      (c, λ i. (cached-Loads wid st.cache def (cc (l, e)) i.0, i, refl))
  from_cache-Gets wid def none st l e c = stored-Gets wid def (env.workflow_exists wid) st e c

  get_workflow-Gets :
      (wid : Uuid) (def : Workflow F) (st : WalkState F) → Gets wid def st (get_workflow env wid st)
  unfolding get_workflow
  get_workflow-Gets wid def st = from_cache-Gets wid def (cache_lookup wid st.cache) st refl

  Loads-unique : (x : Uuid) (d e : Workflow F) → Loads env x d → Loads env x e → d ≡ e
  Loads-unique x d e (a, la, pa) (b, lb, pb) = cc

  entered :
      (w : Uuid → WalkState F → Option (WalkState F))
      → Sound env w
      → (wid : Uuid) (st st' : WalkState F)
      → walk_found env w wid (get_workflow env wid st) ≡ some st'
      → Clean st'
      → Clean st × (Inv env st → Inv env st' × Sub st.done st'.done × Memᴰ wid st'.done)
  unfolding Gets
  entered w sound wid st st' e c =
      let r = walk_found-Clean env w sound wid (get_workflow env wid st) st' e c in
      let def = r.0 in
      let g = get_workflow-Gets wid def st r.1 r.3 in
      (
        g.0,
        λ i.
            let l = g.1 i in
            let q = r.4 l.1 in
            subst (λ (s : WalkState F). Inv env s × Sub st.done s.done × Memᴰ wid s.done) (sym q.1)
              (
                (
                  q.2.0,
                  (
                    (def, l.0, r.2),
                    λ y ref. q.4 y (
                        subst (λ (d : Workflow F). SomeStep env d.steps y)
                          (Loads-unique wid ref.0 def ref.1 l.0) ref.2),
                    q.2.1,
                  ),
                ),
                λ x m. Memᴰ.tail (q.3 x (subst (λ d. Memᴰ x d) (sym l.2) m)),
                Memᴰ.head refl,
              ),
      )

  walk_cases :
      (a b : Bool) (wid : Uuid) (i : Issue) (rest : Option (WalkState F)) (st st' : WalkState F)
      → (if a then some st else if b then some (report_error i st) else rest) ≡ some st'
      → Clean st'
      → ((a ≡ true) × (st ≡ st')) ⊎ (rest ≡ some st')
  unfolding report_error add_error
  walk_cases true b wid i rest st st' e c = inl (refl, some_inj e)
  walk_cases false true wid i rest st st' e c =
      absurd (append-ne-nil st.report.errors _ (errors_of env e c))
  walk_cases false false wid i rest st st' e c = inr e

  -- A walk of any depth that ends without an error has finished its workflow, after all that the
  -- workflow refers to.
  pub walk-Sound : (fuel : ℕ) → Sound env (λ wid st. walk env fuel wid st)
  unfolding walk
  walk-Sound zero wid st st' e c = cc
  walk-Sound (suc fuel) wid st st' e c =
      elim (walk_cases (contains st.done wid) (st.visiting wid) wid
        (wf_issue env "WORKFLOW_050" "Circular workflow reference detected" wid "" "")
        (walk_found env (λ id s. walk env fuel id s) wid (get_workflow env wid st)) st st' e c) [
          | inl h ↦
              subst
                (λ (s : WalkState F).
                  Clean st × (Inv env st → Inv env s × Sub st.done s.done × Memᴰ wid s.done))
                h.1
                (
                  subst (λ (s : WalkState F). Clean s) (sym h.1) c,
                  λ i. (i, λ x m. m, contains-Memᴰ st.done wid h.0),
                )
          | inr h ↦ entered (λ id s. walk env fuel id s) (walk-Sound fuel) wid st st' h c
        ]

module _ {F : Type 0} (env : Env F) where
  root_valid :
      (o : Option (WalkState F)) (r : Report)
      → finished env o ≡ some r
      → r.valid ≡ true
      → (st : WalkState F) × (o ≡ some st) × Clean st
  root_valid none r e v = cc
  root_valid (some st) r e v =
      (st, refl, (finalize-valid st.report).0 (ap (λ (q : Report). q.valid) (some_inj e) ∙ v))

  -- A workflow that is loaded, read and walked to a valid report has been finished in order.
  root_parsed_valid :
      (fuel : ℕ) (wid : Uuid) (d : String) (p : String ⊎ Workflow F) (r : Report)
      → env.load_workflow wid ≡ inr d
      → env.parse_workflow d ≡ p
      → root_parsed env fuel wid p ≡ some r
      → r.valid ≡ true
      → (done : List Uuid) × Topo env done × Memᴰ wid done
  unfolding add_error
  root_parsed_valid fuel wid d (inl m) r l p e v = absurd (
      append-ne-nil [] _ (
        (finalize-valid (
            add_error
              (wf_issue env "WORKFLOW_900" (text_append "Workflow definition JSON invalid: " m) wid
                "definition" "/definition")
              empty_report)).0
          (ap (λ (q : Report). q.valid) (some_inj e) ∙ v)))
  root_parsed_valid fuel wid d (inr def) r l p e v =
      let h = root_valid (walk env fuel wid (start env wid def)) r e v in
      let q = (walk-Sound env fuel wid (start env wid def) h.0 h.1 h.2).1 (((d, l, p), tt), tt) in
      (h.0.done, q.0.1, q.2)

  root_loaded_valid :
      (fuel : ℕ) (wid : Uuid) (l : String ⊎ String) (r : Report)
      → env.load_workflow wid ≡ l
      → root_loaded env fuel wid l ≡ inr (some r)
      → r.valid ≡ true
      → (done : List Uuid) × Topo env done × Memᴰ wid done
  root_loaded_valid fuel wid (inl m) r l e v = cc
  root_loaded_valid fuel wid (inr d) r l e v =
      root_parsed_valid fuel wid d (env.parse_workflow d) r l refl (cc e) v

  pub validate_by_id_order :
      (fuel : ℕ) (wid : Uuid) (r : Report)
      → validate_by_id env fuel wid ≡ inr (some r)
      → r.valid ≡ true
      → (done : List Uuid) × Topo env done × Memᴰ wid done
  unfolding validate_by_id
  validate_by_id_order fuel wid r e v =
      root_loaded_valid fuel wid (env.load_workflow wid) r refl e v

  -- When validation returns a valid report, the workflow and every workflow that it reaches
  -- through subworkflow steps is stored, can be read and passes its own checks, and none of them
  -- reaches itself.
  pub validate_by_id-valid :
      (fuel : ℕ) (wid : Uuid) (r : Report)
      → validate_by_id env fuel wid ≡ inr (some r)
      → r.valid ≡ true
      → Sane env wid
        × ((x : Uuid) → Reaches env wid x → Sane env x × (¬ Reaches env x x))
        × (¬ Reaches env wid wid)
  validate_by_id-valid fuel wid r e v =
      let t = validate_by_id_order fuel wid r e v in
      (
        Topo-Sane env t.0 t.1 t.2,
        λ x p.
            let m = Topo-Reaches env t.0 t.1 t.2 p in
            (Topo-Sane env t.0 t.1 m, Topo-acyclic env t.0 t.1 m),
        Topo-acyclic env t.0 t.1 t.2,
      )
