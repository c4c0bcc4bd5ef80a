-- ===== src/Workflow/Definition.antt =====
-- internal/workflow/definition/types.go: workflows, their steps, and the ids of nested steps.
use open_machine_core.Prelude.{ℕ, String, List, [], ◌∷◌, Bool, Option}
use open_machine_core.Prelude.Int.{ℤ}
use open_machine_core.Prelude.Maps.{StringMap}
use open_machine_core.Prelude.Text.{text_append}

-- A value of a `map[string]any`, as far as the program looks into it; `F` stands for float64.
pub data Any (F : Type 0) : Type 0 where
  text : String → Any F
  number : F → Any F
  truth : Bool → Any F
  words : List ℕ → Any F  -- []uint16
  word : ℕ → Any F  -- uint16
  int : ℤ → Any F
  short : ℤ → Any F  -- int16
  composite : String → Any F  -- any other, by a printed form

pub data StepType : Type 0 where
  device workflow wait : StepType
  other : String → StepType

pub data ErrorStrategy : Type 0 where
  fail retry skip continue : ErrorStrategy
  other : String → ErrorStrategy

pub record LoopConfig : Type 0 where
  pub enabled : Bool
  pub max_count : ℤ
  pub on_error : String

-- A missing `parameters` is a nil map. Durations are nanoseconds.
pub record Step (F : Type 0) : Type 0 where
  pub number : String
  pub name : String
  pub step_type : StepType  -- `Type`
  pub device_id : String
  pub operation : String
  pub parameters : Option (StringMap (Any F))
  pub workflow_id : String
  pub condition : String
  pub on_error : ErrorStrategy
  pub timeout : ℤ

pub record Workflow (F : Type 0) : Type 0 where
  pub id : String
  pub name : String
  pub program_name : String
  pub description : String
  pub version : String
  pub steps : List (Step F)
  pub variables : StringMap String
  pub loop_config : Option LoopConfig  -- `Loop`

-- One level of the call stack of an execution.
pub record CallFrame : Type 0 where
  pub workflow_id : String
  pub program_name : String
  pub step_number : String

abbrev parts_of : List CallFrame → List String
parts_of [] = []
parts_of (frame ∷ frames) = frame.program_name ∷ text_append "S" frame.step_number ∷ parts_of frames

-- the loop that joins the parts with colons, after the first
abbrev join_rest : String → List String → String
join_rest result [] = result
join_rest result (part ∷ parts) = join_rest (text_append result (text_append ":" part)) parts

abbrev join : List String → String
join [] = ""
join (part ∷ parts) = join_rest part parts

unfoldable pub build_hierarchical_step_id : List CallFrame → String
build_hierarchical_step_id call_stack = join (parts_of call_stack)
