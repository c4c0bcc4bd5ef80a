-- ===== src/Rest/Workflows.antt =====
-- internal/api/rest/workflows.go: the handlers of stored workflows, and the statements on them of
-- internal/storage/workflow.go. The table is a map from its primary key; names are unique, and so
-- are the instances of a workflow's compositions. ListWorkflows gives the rows in any order.
pub mod Activation
use open_machine_core.Prelude.{
  ℕ, String, List, [], ◌∷◌, Bool, true, false, ◌||◌, ◌&&◌, not, Option, none, some, map, str_eq,
  ◌==◌, if◌then◌else◌, ◌⊎◌, inl, inr, Uuid,
}
use open_machine_core.Prelude.Maps.{UuidMap, lookup_id, insert_id, delete_id}
use open_machine_core.Types.{DeviceComposition}

pub record WorkflowRow : Type 0 where
  pub workflow_name : String
  pub definition : String
  pub active : Bool
  pub compositions : List DeviceComposition

abbrev pub Table : Type 0
Table = UuidMap WorkflowRow

pub data StorageError : Type 0 where
  insert_failed update_failed : StorageError

-- whether a row other than that of `id` has the name
unfoldable pub is_taken : Uuid → String → Table → Bool
is_taken id name [] = false
is_taken id name ((at, row) ∷ rows) =
    (not (at == id) && str_eq row.workflow_name name) || is_taken id name rows

abbrev pub has_instance : String → List DeviceComposition → Bool
has_instance name [] = false
has_instance name (c ∷ cs) = str_eq c.instance_id name || has_instance name cs

abbrev pub repeats_instance : List DeviceComposition → Bool
repeats_instance [] = false
repeats_instance (c ∷ cs) = has_instance c.instance_id cs || repeats_instance cs

abbrev pub saved : Uuid → WorkflowRow → Option WorkflowRow → Table → Table × (StorageError ⊎ Uuid)
saved id row (some other) rows = (rows, inl insert_failed)
saved id row none rows =
    if is_taken id row.workflow_name rows || repeats_instance row.compositions
    then (rows, inl insert_failed)
    else (insert_id id row rows, inr id)

-- SaveWorkflow, with the id that the database chooses; a refused composition rolls all back
unfoldable pub save_workflow : Uuid → WorkflowRow → Table → Table × (StorageError ⊎ Uuid)
unfolding is_taken
save_workflow id row rows = saved id row (lookup_id id rows) rows

-- UpdateWorkflow: UPDATE ... WHERE id = id, which changes no row when there is none
abbrev pub update_found :
    Uuid → WorkflowRow → Option WorkflowRow → Table → Table × (StorageError ⊎ Unit {0})
update_found id row none rows = (rows, inr tt)
update_found id row (some old) rows =
    if is_taken id row.workflow_name rows
    then (rows, inl update_failed)
    else (insert_id id (record row { compositions = old.compositions }) rows, inr tt)

unfoldable pub update_workflow : Uuid → WorkflowRow → Table → Table × (StorageError ⊎ Unit {0})
unfolding is_taken
update_workflow id row rows = update_found id row (lookup_id id rows) rows

unfoldable pub delete_workflow : Uuid → Table → Table
delete_workflow id rows = delete_id id rows

-- ActivateWorkflow: all rows are deactivated, then the one with the id is activated
unfoldable pub activate_workflow : Uuid → Table → Table
activate_workflow id rows =
    map
      (λ (e : Uuid × WorkflowRow).
        (e.0, record e.1 { active = if e.0 == id then true else e.1.active }))
      (map (λ (e : Uuid × WorkflowRow). (e.0, record e.1 { active = false })) rows)

-- A body is `none` when it is not JSON of the request's type, an id when it is not a uuid; of a
-- creation the name, the definition, the compositions and whether it is active.
pub data Request : Type 0 where
  listing : Request
  getting deleting activating : Option Uuid → Request
  creating : Option (String × Option String × List DeviceComposition × Bool) → Request
  updating : Option Uuid → Option (String × Option String × Option Bool) → Request

pub data Body : Type 0 where
  failure message : String → Body
  rows_body : Table → Body
  row_body : WorkflowRow → Body
  id_body : Uuid → Body

abbrev pub Answered : Type 0
Answered = Table × (ℕ × Body)

abbrev pub refused : ℕ → String → Table → Answered
refused status code rows = (rows, (status, failure code))

abbrev pub got : Option WorkflowRow → Table → Answered
got none rows = refused 404 "WORKFLOW_404" rows
got (some row) rows = (rows, (200, row_body row))

unfoldable pub get_workflow : Option Uuid → Table → Answered
get_workflow none rows = refused 400 "WORKFLOW_400" rows
get_workflow (some id) rows = got (lookup_id id rows) rows

unfoldable pub delete_request : Option Uuid → Table → Answered
unfolding delete_workflow
delete_request none rows = refused 400 "WORKFLOW_400" rows
delete_request (some id) rows =
    (delete_workflow id rows, (200, message "Workflow deleted successfully"))

unfoldable pub activate_request : Option Uuid → Table → Answered
unfolding activate_workflow
activate_request none rows = refused 400 "WORKFLOW_400" rows
activate_request (some id) rows =
    (activate_workflow id rows, (200, message "Workflow activated successfully"))

abbrev pub created : Table × (StorageError ⊎ Uuid) → Answered
created (rows, inl e) = refused 500 "WORKFLOW_500" rows
created (rows, inr id) = (rows, (201, id_body id))

abbrev pub updated : Table × (StorageError ⊎ Unit {0}) → Answered
updated (rows, inl e) = refused 500 "WORKFLOW_500" rows
updated (rows, inr u) = (rows, (200, message "Workflow updated successfully"))

abbrev pub renamed : String → WorkflowRow → WorkflowRow
renamed name row = record row { workflow_name = if str_eq name "" then row.workflow_name else name }

abbrev pub switched : Option Bool → WorkflowRow → WorkflowRow
switched none row = row
switched (some active) row = record row { active = active }

-- What an update has found after reading: an answer, or the row that it is to write.
abbrev pub Prepared : Type 0
Prepared = (ℕ × Body) ⊎ WorkflowRow

abbrev pub written : Uuid → Prepared → Table → Answered
written id (inl answer) rows = (rows, answer)
written id (inr row) rows = updated (update_workflow id row rows)

-- `parse` is ParseWorkflow.
module _ {W : Type 0} (parse : String → String ⊎ W) where
  abbrev pub parsed_new : Uuid → WorkflowRow → String ⊎ W → Table → Answered
  parsed_new id row (inl e) rows = refused 400 "WORKFLOW_400" rows
  parsed_new id row (inr def) rows = created (save_workflow id row rows)

  abbrev pub defined :
      Uuid → String → Option String → List DeviceComposition → Bool → Table → Answered
  defined id name none comps active rows = refused 400 "WORKFLOW_400" rows
  defined id name (some definition) comps active rows =
      if str_eq name ""
      then refused 400 "WORKFLOW_400" rows
      else parsed_new id
          (record {
            workflow_name = name;
            definition = definition;
            active = active;
            compositions = comps;
          })
          (parse definition) rows

  unfoldable pub create_request :
      Uuid → Option (String × Option String × List DeviceComposition × Bool) → Table → Answered
  unfolding save_workflow
  create_request id none rows = refused 400 "WORKFLOW_400" rows
  create_request id (some (name, definition, comps, active)) rows =
      defined id name definition comps active rows

  abbrev pub parsed_update : WorkflowRow → String → String ⊎ W → Option Bool → Prepared
  parsed_update row definition (inl e) active = inl (400, failure "WORKFLOW_400")
  parsed_update row definition (inr def) active =
      inr (switched active (record row { definition = definition }))

  abbrev pub redefined : WorkflowRow → Option String → Option Bool → Prepared
  redefined row none active = inr (switched active row)
  redefined row (some definition) active = parsed_update row definition (parse definition) active

  abbrev pub loaded : Option WorkflowRow → String → Option String → Option Bool → Prepared
  loaded none name definition active = inl (404, failure "WORKFLOW_404")
  loaded (some row) name definition active = redefined (renamed name row) definition active

  -- updateWorkflow reads the row in one statement, up to here, and writes it in another; nothing
  -- keeps other requests from coming in between.
  unfoldable pub prepare_update : Uuid → String × Option String × Option Bool → Table → Prepared
  prepare_update id (name, definition, active) rows =
      loaded (lookup_id id rows) name definition active

  unfoldable pub update_request :
      Option Uuid → Option (String × Option String × Option Bool) → Table → Answered
  unfolding prepare_update update_workflow
  update_request none body rows = refused 400 "WORKFLOW_400" rows
  update_request (some id) none rows = refused 400 "WORKFLOW_400" rows
  update_request (some id) (some body) rows = written id (prepare_update id body rows) rows

  -- The handler of a request, from its beginning to its end; a new row would get this id.
  unfoldable pub handle : Uuid → Request → Table → Answered
  unfolding get_workflow delete_request activate_request create_request update_request
  handle new_id listing rows = (rows, (200, rows_body rows))
  handle new_id (getting id) rows = get_workflow id rows
  handle new_id (deleting id) rows = delete_request id rows
  handle new_id (activating id) rows = activate_request id rows
  handle new_id (creating body) rows = create_request new_id body rows
  handle new_id (updating id body) rows = update_request id body rows

  -- requests that are handled one after another
  unfoldable pub handle_all : List (Uuid × Request) → Table → Table
  unfolding handle
  handle_all [] rows = rows
  handle_all ((new_id, r) ∷ rs) rows = handle_all rs (handle new_id r rows).0
