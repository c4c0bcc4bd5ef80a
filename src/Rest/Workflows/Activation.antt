-- ===== src/Rest/Workflows/Activation.antt =====
-- rest/workflows.go and storage/workflow.go: which stored workflows are active.
use open_machine_core.Prelude.{
  String, List, [], ◌∷◌, ◌≡◌, refl, sym, ◌∙◌, Bool, true, false, ◌||◌, Option, none, some, str_eq,
  ◌==◌, ==_iff, if◌then◌else◌, if_rule, ◌⊎◌, inl, inr, Uuid, All, arith, ap,
}
use open_machine_core.Prelude.Maps.{lookup_id, insert_id, lookup_id-insert_id, lookup_id-delete_id}
use open_machine_core.Types.{DeviceComposition}
use open_machine_core.Rest.Workflows.{
  WorkflowRow, Table, StorageError, is_taken, repeats_instance, saved, save_workflow, update_found,
  update_workflow, written, prepare_update, delete_workflow, activate_workflow, Request, listing,
  getting, deleting, activating, creating, updating, Answered, got, get_workflow, delete_request,
  activate_request, created, updated, renamed, switched, parsed_new, defined, create_request,
  parsed_update, redefined, loaded, update_request, handle, handle_all,
}

abbrev row_active : Option WorkflowRow → Bool
row_active none = false
row_active (some row) = row.active

abbrev is_there : Option WorkflowRow → Bool
is_there none = false
is_there (some row) = true

-- whether the row of an id is there, and whether it is active
abbrev pub is_active : Uuid → Table → Bool
is_active id rows = row_active (lookup_id id rows)

abbrev pub is_stored : Uuid → Table → Bool
is_stored id rows = is_there (lookup_id id rows)

abbrev pub AtMostOneActive : Table → Type 0
AtMostOneActive rows = (i j : Uuid) → is_active i rows ≡ true → is_active j rows ≡ true → i ≡ j

-- The request does not ask for a workflow to be active, but by activating it.
abbrev pub IsModest : Request → Type 0
IsModest (creating (some (name, definition, comps, active))) = active ≡ false
IsModest (updating id (some (name, definition, some active))) = active ≡ false
IsModest _ = Unit

-- After an activation the workflow of the id is active, if it is stored, and no other is.
pub is_active-activate_workflow :
    (id read : Uuid) (rows : Table)
    → is_active read (activate_workflow id rows)
      ≡ (if read == id then is_stored read rows else false)
unfolding activate_workflow lookup_id
is_active-activate_workflow id read [] =
    if_rule (λ b. false ≡ b) (read == id) false false (λ _. refl) (λ _. refl)
is_active-activate_workflow id read ((at, row) ∷ rows) =
    ground (
      arith,
      is_active-activate_workflow id read rows,
      ==_iff at id,
      ==_iff read id,
      ==_iff at read,
    )

-- No other workflow is active afterwards than before.
abbrev Shrinks : Table → Answered → Type 0
Shrinks rows r = (i : Uuid) → is_active i r.0 ≡ true → is_active i rows ≡ true

insert-Shrinks :
    (id : Uuid) (row : WorkflowRow) (rows : Table)
    → (row.active ≡ true → is_active id rows ≡ true)
    → (i : Uuid) → is_active i (insert_id id row rows) ≡ true
    → is_active i rows ≡ true
insert-Shrinks id row rows k i h =
    let e = ap row_active (lookup_id-insert_id id i row rows) in by_test (id == i) refl (sym e ∙ h)
  where
    by_test :
        (b : Bool)
        → (id == i) ≡ b
        → row_active (if b then some row else lookup_id i rows) ≡ true
        → is_active i rows ≡ true
    by_test true q r = rw (sym ((==_iff id i).0 q)) (k r)
    by_test false q r = r

same-Shrinks : (rows : Table) (i : Uuid) → is_active i rows ≡ true → is_active i rows ≡ true
same-Shrinks rows i h = h

delete-Shrinks :
    (id : Uuid) (rows : Table) (i : Uuid)
    → is_active i (delete_workflow id rows) ≡ true
    → is_active i rows ≡ true
unfolding delete_workflow
delete-Shrinks id rows i h =
    by_test (id == i) (sym (ap row_active (lookup_id-delete_id id i rows)) ∙ h)
  where
    by_test :
        (b : Bool)
        → row_active (if b then none else lookup_id i rows) ≡ true
        → is_active i rows ≡ true
    by_test true r = cc
    by_test false r = r

saved-Shrinks :
    (id : Uuid) (row : WorkflowRow) (o : Option WorkflowRow) (rows : Table)
    → row.active ≡ false
    → Shrinks rows (created (saved id row o rows))
saved-Shrinks id row (some other) rows f = same-Shrinks rows
saved-Shrinks id row none rows f =
    if_rule (λ (r : Table × (StorageError ⊎ Uuid)). Shrinks rows (created r))
      (is_taken id row.workflow_name rows || repeats_instance row.compositions) _ _
      (λ _. same-Shrinks rows) (λ _. insert-Shrinks id row rows (λ t. cc))

update-Shrinks :
    (id : Uuid) (row : WorkflowRow) (o : Option WorkflowRow) (rows : Table)
    → (row.active ≡ true → is_active id rows ≡ true)
    → Shrinks rows (updated (update_found id row o rows))
update-Shrinks id row none rows k = same-Shrinks rows
update-Shrinks id row (some old) rows k =
    if_rule (λ (r : Table × (StorageError ⊎ Unit {0})). Shrinks rows (updated r))
      (is_taken id row.workflow_name rows) _ _ (λ _. same-Shrinks rows)
      (λ _. insert-Shrinks id (record row { compositions = old.compositions }) rows k)

module _ {W : Type 0} (parse : String → String ⊎ W) where
  defined-Shrinks :
      (id : Uuid) (name : String) (definition : Option String) (comps : List DeviceComposition)
      (active : Bool) (rows : Table)
      → active ≡ false
      → Shrinks rows (defined parse id name definition comps active rows)
  unfolding save_workflow
  defined-Shrinks id name none comps active rows f = same-Shrinks rows
  defined-Shrinks id name (some definition) comps active rows f =
      if_rule (Shrinks rows) (str_eq name "") _ _ (λ _. same-Shrinks rows)
        (λ _. by_parse (parse definition))
    where
      row : WorkflowRow
      row = record {
        workflow_name = name;
        definition = definition;
        active = active;
        compositions = comps;
      }

      by_parse : (r : String ⊎ W) → Shrinks rows (parsed_new parse id row r rows)
      by_parse (inl e) = same-Shrinks rows
      by_parse (inr def) = saved-Shrinks id row (lookup_id id rows) rows f

  -- What was prepared is written while no other request is handled.
  redefined-Shrinks :
      (id : Uuid) (row : WorkflowRow) (definition : Option String) (active : Option Bool)
      (rows : Table)
      → ((t : String)
          → (switched active (record row { definition = t })).active ≡ true
          → is_active id rows ≡ true)
      → Shrinks rows (written id (redefined parse row definition active) rows)
  unfolding update_workflow
  redefined-Shrinks id row none none rows k =
      update-Shrinks id row (lookup_id id rows) rows (k row.definition)
  redefined-Shrinks id row none (some active) rows k =
      update-Shrinks id (record row { active = active }) (lookup_id id rows) rows (k row.definition)
  redefined-Shrinks id row (some definition) active rows k = by_parse (parse definition)
    where
      by_parse :
          (r : String ⊎ W)
          → Shrinks rows (written id (parsed_update parse row definition r active) rows)
      by_parse (inl e) = same-Shrinks rows
      by_parse (inr def) =
          update-Shrinks id (switched active (record row { definition = definition }))
            (lookup_id id rows) rows (k definition)

  loaded-Shrinks :
      (id : Uuid) (o : Option WorkflowRow) (name : String) (definition : Option String)
      (active : Option Bool) (rows : Table)
      → lookup_id id rows ≡ o
      → IsModest (updating (some id) (some (name, definition, active)))
      → Shrinks rows (written id (loaded parse o name definition active) rows)
  loaded-Shrinks id none name definition active rows q f = same-Shrinks rows
  loaded-Shrinks id (some row) name definition none rows q f =
      redefined-Shrinks id (renamed name row) definition none rows (λ t h. ap row_active q ∙ h)
  loaded-Shrinks id (some row) name definition (some active) rows q f =
      redefined-Shrinks id (renamed name row) definition (some active) rows (λ t h. cc)

  abbrev Keeps : Table → Answered → Type 0
  Keeps rows r = AtMostOneActive rows → AtMostOneActive r.0

  keeps : (rows : Table) (r : Answered) → Shrinks rows r → Keeps rows r
  keeps rows r s one i j a b = one i j (s i a) (s j b)

  activate-Keeps : (id : Option Uuid) (rows : Table) → Keeps rows (activate_request id rows)
  unfolding activate_request
  activate-Keeps none rows one = one
  activate-Keeps (some id) rows one = λ i j a b. only i a ∙ sym (only j b)
    where
      by_test : (i : Uuid) (b s : Bool) → (i == id) ≡ b → (if b then s else false) ≡ true → i ≡ id
      by_test i true s q h = (==_iff i id).0 q
      by_test i false s q h = cc

      only : (i : Uuid) → is_active i (activate_workflow id rows) ≡ true → i ≡ id
      only i a =
          by_test i (i == id) (is_stored i rows) refl
            (sym (is_active-activate_workflow id i rows) ∙ a)

  got-Keeps : (o : Option WorkflowRow) (rows : Table) → Keeps rows (got o rows)
  got-Keeps none rows one = one
  got-Keeps (some row) rows one = one

  get-Keeps : (id : Option Uuid) (rows : Table) → Keeps rows (get_workflow id rows)
  unfolding get_workflow
  get-Keeps none rows = λ one. one
  get-Keeps (some id) rows = got-Keeps (lookup_id id rows) rows

  delete-Keeps : (id : Option Uuid) (rows : Table) → Keeps rows (delete_request id rows)
  unfolding delete_request
  delete-Keeps none rows = λ one. one
  delete-Keeps (some id) rows = keeps rows (delete_request (some id) rows) (delete-Shrinks id rows)

  handle-Keeps :
      (new_id : Uuid) (r : Request) (rows : Table)
      → IsModest r
      → Keeps rows (handle parse new_id r rows)
  unfolding handle create_request update_request prepare_update
  handle-Keeps new_id listing rows f = λ one. one
  handle-Keeps new_id (getting id) rows f = get-Keeps id rows
  handle-Keeps new_id (deleting id) rows f = delete-Keeps id rows
  handle-Keeps new_id (activating id) rows f = activate-Keeps id rows
  handle-Keeps new_id (creating none) rows f = λ one. one
  handle-Keeps new_id (creating (some (name, definition, comps, active))) rows f =
      keeps rows (defined parse new_id name definition comps active rows)
        (defined-Shrinks new_id name definition comps active rows f)
  handle-Keeps new_id (updating none body) rows f = λ one. one
  handle-Keeps new_id (updating (some id) none) rows f = λ one. one
  handle-Keeps new_id (updating (some id) (some (name, definition, active))) rows f =
      keeps rows (written id (loaded parse (lookup_id id rows) name definition active) rows)
        (loaded-Shrinks id (lookup_id id rows) name definition active rows refl f)

  -- At most one stored workflow is active, through any requests that list, get, create, update,
  -- delete and activate workflows and are handled one after another, as long as no creation and
  -- no update itself asks for its workflow to be active.
  pub handle_all-AtMostOneActive :
      (rs : List (Uuid × Request)) (rows : Table)
      → All (λ (r : Uuid × Request). IsModest r.1) rs
      → AtMostOneActive rows
      → AtMostOneActive (handle_all parse rs rows)
  unfolding handle_all
  handle_all-AtMostOneActive [] rows f one = one
  handle_all-AtMostOneActive ((new_id, r) ∷ rs) rows f one =
      handle_all-AtMostOneActive rs (handle parse new_id r rows).0 f.1
        (handle-Keeps new_id r rows f.0 one)
