-- ===== src/Examples/Machine.antt =====
-- The machine controller at concrete values.
use open_machine_core.Prelude.{◌≡◌, ◌≤◌, [], Memᴰ, ◌↔◌, arith}
use open_machine_core.Prelude.Int.{pos}
use open_machine_core.Prelude.Outcome.{ok}
use open_machine_core.Machine.{Controller, stopped, ready, home, Begun, begin}
use open_machine_core.Machine.Schedule.{run, initial}
use open_machine_core.Machine.Commands.{Accepts, begin-Accepts}
use open_machine_core.Machine.Safety.{starts, homings, starts_need_homings}
use open_machine_core.Machine.Races.{day, stop_during_start, run-stop_during_start}

abbrev controller : Controller
controller = record {
  current_state = stopped;
  current_exec_id = 4;
  production_cycles = pos 0;
  error_message = "";
  stop_workflow_id = 1;
  home_workflow_id = 2;
  production_workflow_id = 3;
}

begin-Accepts_example :
    ((b : Begun) × (begin home controller ≡ ok b)) ↔ Accepts home controller.current_state
begin-Accepts_example = begin-Accepts home controller

starts_need_homings_example :
    starts (day 10 11 12) (initial controller) ≤ homings (day 10 11 12) (initial controller)
starts_need_homings_example = starts_need_homings (day 10 11 12) controller (λ e. cc)

run-stop_during_start_example :
    ((run
        (stop_during_start 11 12)
        (initial (record controller { current_state = ready }))).controller.current_state
      ≡ stopped)
    × ((run
          (stop_during_start 11 12)
          (initial (record controller { current_state = ready }))).threads
        ≡ [])
    × ¬ Memᴰ 11
        (run
          (stop_during_start 11 12)
          (initial (record controller { current_state = ready }))).cancels
run-stop_during_start_example =
    run-stop_during_start 11 12 controller (λ e. omega (arith, e)) (λ e. omega (arith, e))
