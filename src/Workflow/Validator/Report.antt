-- ===== src/Workflow/Validator/Report.antt =====
-- validator.go: issues and reports. sort.SliceStable is an insertion sort that keeps equal issues in
-- their order.
pub mod Sorting
use open_machine_core.Prelude.{
  ℕ, String, List, [], ◌∷◌, ◌++◌, ◌≡◌, Bool, true, false, not, Option, str_eq, if◌then◌else◌,
}
use open_machine_core.Prelude.Text.{text_less}

pub data Severity : Type 0 where
  sev_error sev_warning unset : Severity

-- `Meta` of an issue: the entries that the validator writes.
pub record Meta : Type 0 where
  pub step_index : Option ℕ
  pub param : Option String
  pub cycle : List String

pub record Issue : Type 0 where
  pub code : String
  pub severity : Severity
  pub message : String
  pub workflow_id : String
  pub step_name : String
  pub field : String
  pub path : String
  pub hint : String
  pub meta : Meta

pub record Report : Type 0 where
  pub valid : Bool
  pub errors : List Issue
  pub warnings : List Issue

abbrev pub empty_report : Report
empty_report = record { valid = false; errors = []; warnings = [] }

abbrev or_severity : Severity → Severity → Severity
or_severity unset d = d
or_severity sev_error d = sev_error
or_severity sev_warning d = sev_warning

unfoldable pub add_error : Issue → Report → Report
add_error i r = record r {
  errors = r.errors ++ (record i { severity = or_severity i.severity sev_error }) ∷ [];
}

unfoldable pub add_warning : Issue → Report → Report
add_warning i r = record r {
  warnings = r.warnings ++ (record i { severity = or_severity i.severity sev_warning }) ∷ [];
}

-- the order of sortIssues
unfoldable pub issue_less : Issue → Issue → Bool
issue_less a b =
    if not (str_eq a.workflow_id b.workflow_id)
    then text_less a.workflow_id b.workflow_id
    else if not (str_eq a.path b.path)
    then text_less a.path b.path
    else if not (str_eq a.code b.code)
    then text_less a.code b.code
    else text_less a.message b.message

unfoldable pub insert_issue : Issue → List Issue → List Issue
insert_issue i [] = i ∷ []
insert_issue i (j ∷ js) = if issue_less j i then j ∷ insert_issue i js else i ∷ j ∷ js

unfoldable pub sort_issues : List Issue → List Issue
unfolding insert_issue
sort_issues [] = []
sort_issues (i ∷ is) = insert_issue i (sort_issues is)

abbrev pub is_empty : List Issue → Bool
is_empty [] = true
is_empty (_ ∷ _) = false

unfoldable pub finalize : Report → Report
unfolding sort_issues
finalize r =
    let errors = sort_issues r.errors in
    record { valid = is_empty errors; errors = errors; warnings = sort_issues r.warnings }
