-- ===== src/Machine/Commands.antt =====
-- controller.go: which commands are accepted, and what a refused one changes.
use open_machine_core.Prelude.{
  ◌≡◌, inl, inr, refl, sym, ap, ◌∙◌, Bool-cases, Bool, true, false, none, arith, String, Uuid,
  uuid_nil, ◌↔◌,
}
use open_machine_core.Prelude.Outcome.{Outcome, ok, err, panic}
use open_machine_core.Machine.{
  State, stopped, homing, ready, running, error, emergency, Command, home, start, stop, reset,
  other, Controller, MachineError, Begun, begin, get_status,
}
use open_machine_core.Machine.Schedule.{World, command, step}

-- The states in which a command is accepted, by the documentation of the machine's modes.
pub data Accepts : Command → State → Type 0 where
  home_stopped : Accepts home stopped
  start_ready : Accepts start ready
  stop_running : Accepts stop running
  reset_error : Accepts reset error
  reset_emergency : Accepts reset emergency

abbrev accepts : Command → State → Bool
accepts home stopped = true
accepts start ready = true
accepts stop running = true
accepts reset error = true
accepts reset emergency = true
accepts _ _ = false

accepts→Accepts : (cmd : Command) (s : State) → accepts cmd s ≡ true → Accepts cmd s
accepts→Accepts home stopped h = home_stopped
accepts→Accepts start ready h = start_ready
accepts→Accepts stop running h = stop_running
accepts→Accepts reset error h = reset_error
accepts→Accepts reset emergency h = reset_emergency
accepts→Accepts _ _ h = cc

Accepts→accepts : {cmd : Command} {s : State} → Accepts cmd s → accepts cmd s ≡ true
Accepts→accepts home_stopped = refl
Accepts→accepts start_ready = refl
Accepts→accepts stop_running = refl
Accepts→accepts reset_error = refl
Accepts→accepts reset_emergency = refl

pub not-Accepts-homing : (cmd : Command) → ¬ Accepts cmd homing
not-Accepts-homing cmd a = elim a [ ]

abbrev begun : Outcome MachineError Begun → Bool
begun (ok b) = true
begun (err e) = false
begun panic = false

begun-begin : (cmd : Command) (c : Controller) → begun (begin cmd c) ≡ accepts cmd c.current_state
unfolding begin
begun-begin home c = ground arith
begun-begin start c = ground arith
begun-begin stop c = ground arith
begun-begin reset c = ground arith
begun-begin (other cmd) c = refl

begun_result : (o : Outcome MachineError Begun) → begun o ≡ true → (b : Begun) × (o ≡ ok b)
begun_result (ok b) h = (b, refl)
begun_result (err e) h = cc
begun_result panic h = cc

-- A command is accepted exactly in the states that `Accepts` lists for it.
pub begin-Accepts :
    (cmd : Command) (c : Controller)
    → ((b : Begun) × (begin cmd c ≡ ok b)) ↔ Accepts cmd c.current_state
begin-Accepts cmd c = (
  λ (b, e). accepts→Accepts cmd c.current_state (sym (begun-begin cmd c) ∙ ap begun e),
  λ a. begun_result (begin cmd c) (begun-begin cmd c ∙ Accepts→accepts a),
)

refused_unchanged :
    (cmd : Command) (w : World) → begun (begin cmd w.controller) ≡ false → step (command cmd) w ≡ w
unfolding step
refused_unchanged cmd w h = ground arith

-- A command that is not listed for the current state changes nothing: not the controller, no
-- goroutine, no cancellation, no message.
pub step_refused :
    (cmd : Command) (w : World)
    → ¬ Accepts cmd w.controller.current_state
    → step (command cmd) w ≡ w
step_refused cmd w refused =
    refused_unchanged cmd w (elim (Bool-cases (accepts cmd w.controller.current_state)) [
      | inl yes_ ↦ absurd (refused (accepts→Accepts cmd _ yes_))
      | inr no_ ↦ begun-begin cmd w.controller ∙ no_
    ])

-- The status repeats the controller's fields, and has a configuration exactly when some workflow is
-- configured.
pub get_status_lem :
    (uuid_string : Uuid → String) (c : Controller)
    → let s = get_status uuid_string c in
      (s.state ≡ c.current_state)
      × (s.error_message ≡ c.error_message)
      × (s.production_cycles ≡ c.production_cycles)
      × ((s.config ≡ none) ↔ (
          (c.stop_workflow_id ≡ uuid_nil)
          × (c.home_workflow_id ≡ uuid_nil)
          × (c.production_workflow_id ≡ uuid_nil)))
unfolding get_status
get_status_lem uuid_string c = (refl, refl, refl, ground arith)
