-- ===== src/Examples/System.antt =====
-- The lifecycle at concrete values.
use open_machine_core.Prelude.{◌+◌, ◌≡◌, refl, [], ◌∷◌, ◌++◌, true, false, arith}
use open_machine_core.System.{
  Lifecycle, Input, running, initializing, new_lifecycle_manager, execute_update,
}
use open_machine_core.System.Schedule.{new_system, run_events, shuts_down, subscribes, turns}
use open_machine_core.System.Calls.{
  start_call, update_call, shutdown_call, run_calls, abstract_steps, Ends, Abstract,
}
use open_machine_core.System.Calls.Refinement.{run_calls-abstract_steps}
use open_machine_core.System.Closing
use open_machine_core.System.Closing.{run_events-IsValid, new_system-IsValid}
use open_machine_core.System.Overlaps.{
  first_update, second_update, shutdown_after, at_time, running_system, fresh_system, all_done,
  run_events-overlapping_updates, run_events-shutdown_during_update,
}

abbrev lifecycle : Lifecycle
lifecycle = new_lifecycle_manager

abbrev initial : Abstract
initial = record { state = initializing; down = false }

run_calls-abstract_steps_example :
    Ends
      (run_calls
        ((0, start_call Input.listening)
          ∷ (1, update_call "flow" Input.all_stopped Input.listening)
          ∷ (2, shutdown_call Input.timed_out)
          ∷ [])
        lifecycle)
      (abstract_steps
        ((0, start_call Input.listening)
          ∷ (1, update_call "flow" Input.all_stopped Input.listening)
          ∷ (2, shutdown_call Input.timed_out)
          ∷ [])
        initial)
unfolding new_lifecycle_manager
run_calls-abstract_steps_example =
    run_calls-abstract_steps
      ((0, start_call Input.listening)
        ∷ (1, update_call "flow" Input.all_stopped Input.listening)
        ∷ (2, shutdown_call Input.timed_out)
        ∷ [])
      lifecycle initial (refl, refl, λ e. cc)

run_events-IsValid_example : Closing.IsValid (
    run_events
      ((0, subscribes)
        ∷ (1, shuts_down)
        ∷ (2, shuts_down)
        ∷ (3, turns 0 Input.all_stopped)
        ∷ (4, turns 1 Input.all_stopped)
        ∷ [])
      new_system)
run_events-IsValid_example =
    run_events-IsValid
      ((0, subscribes)
        ∷ (1, shuts_down)
        ∷ (2, shuts_down)
        ∷ (3, turns 0 Input.all_stopped)
        ∷ (4, turns 1 Input.all_stopped)
        ∷ [])
      new_system new_system-IsValid

run_events-overlapping_updates_example :
    ((run_events
        (at_time 5 (first_update "a" ++ second_update "b"))
        (running_system lifecycle)).lifecycle.current_state
      ≡ running)
    × ((run_events
          (at_time 5 (first_update "a" ++ second_update "b"))
          (running_system lifecycle)).lifecycle.hubs
        ≡ lifecycle.hubs + 1)
    × ((run_events
          (at_time 5 (first_update "a" ++ second_update "b"))
          (running_system lifecycle)).threads
        ≡ [] ∷ [] ∷ [] ∷ execute_update "b" ∷ [])
run_events-overlapping_updates_example = run_events-overlapping_updates 5 "a" "b" lifecycle

run_events-shutdown_during_update_example :
    ((run_events
        (at_time 5 (shutdown_after 4 "a"))
        (fresh_system lifecycle)).lifecycle.current_state
      ≡ running)
    × ((run_events
          (at_time 5 (shutdown_after 4 "a"))
          (fresh_system lifecycle)).lifecycle.shutdown_closes
        ≡ 1)
    × (all_done (run_events (at_time 5 (shutdown_after 4 "a")) (fresh_system lifecycle)).threads
        ≡ true)
run_events-shutdown_during_update_example =
    run_events-shutdown_during_update 5 "a" lifecycle 4 (omega arith)
