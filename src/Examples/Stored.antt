-- ===== src/Examples/Stored.antt =====
-- Two stored workflows, one of them active.
use open_machine_core.Prelude.{
  ℕ, ◌≡◌, refl, sym, ◌∙◌, arith, List, [], ◌∷◌, true, false, some, none, String, ◌⊎◌, inr, Uuid,
  ==_iff,
}
use open_machine_core.Prelude.Maps.{lookup_id, insert_id}
use open_machine_core.Rest.Workflows.{
  WorkflowRow, Table, Request, activating, creating, updating, handle, handle_all, is_taken,
  save_workflow, create_request, activate_request, activate_workflow, update_workflow, written,
  prepare_update,
}
use open_machine_core.Rest.Workflows.Activation.{
  is_active, AtMostOneActive, handle_all-AtMostOneActive,
}

abbrev homing : WorkflowRow
homing = record { workflow_name = "homing"; definition = "{}"; active = true; compositions = [] }

abbrev milling : WorkflowRow
milling = record homing { workflow_name = "milling"; active = false }

abbrev rows : Table
rows = (1, homing) ∷ (2, milling) ∷ []

abbrev parse : String → String ⊎ ℕ
parse definition = inr 0

homing_active : (i : Uuid) → is_active i rows ≡ true → 1 ≡ i
unfolding lookup_id
homing_active i a = ground (arith, ==_iff 1 i, ==_iff 2 i)

only_homing : AtMostOneActive rows
only_homing i j a b = sym (homing_active i a) ∙ homing_active j b

abbrev requests : List (Uuid × Request)
requests =
    (7, creating (some ("drilling", some "{}", [], false)))
    ∷ (8, activating (some 2))
    ∷ (8, updating (some 1) (some ("parking", none, none)))
    ∷ []

handle_all-AtMostOneActive_example : AtMostOneActive (handle_all parse requests rows)
handle_all-AtMostOneActive_example =
    handle_all-AtMostOneActive parse requests rows (refl, (tt, (tt, tt))) only_homing

-- A workflow that is created as active does not replace the active one.
abbrev both : Table
both = (handle parse 7 (creating (some ("drilling", some "{}", [], true))) rows).0

both_active : (is_active 1 both ≡ true) × (is_active 7 both ≡ true)
unfolding handle create_request save_workflow is_taken lookup_id insert_id
both_active = (refl, refl)

-- An update of the active workflow that has read its row before another one is activated, and
-- writes it afterwards, leaves two active.
abbrev overlapped : Table
overlapped =
    (written 1 (prepare_update parse 1 ("parking", none, none) rows)
      (handle parse 8 (activating (some 2)) rows).0).0

overlapped_active : (is_active 1 overlapped ≡ true) × (is_active 2 overlapped ≡ true)
unfolding handle activate_request activate_workflow prepare_update update_workflow is_taken
    lookup_id insert_id
overlapped_active = (refl, refl)
