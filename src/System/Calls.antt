-- ===== src/System/Calls.antt =====
-- lifecycle.go: the calls one after another, each running to its end before the next, and the
-- machine of states that they implement.
pub mod Refinement
use open_machine_core.Prelude.{
  ℕ, zero, suc, ◌+◌, some_inj, String, List, Option, none, some, [], ◌∷◌, ◌++◌, ◌≡◌, refl, sym,
  subst, ap, ◌∙◌, Bool, true, false, ◌&&◌, if◌then◌else◌,
}
use open_machine_core.Prelude.Outcome.{Outcome, ok, err, panic}
use open_machine_core.System.{
  SystemState, running, updating, stopped, error, Lifecycle, Action, setting, progressing, reading,
  sending, loading_devices, starting_grpc, starting_rest, running_hub, stopping_services, closing,
  spawning, from_main, Input, TriggerError, ShutdownError, shutdown_timeout, rest_shutdown_failed,
  start, shutdown, execute_update, set_update_progress, start_failed, handle_update_error,
  services_stopped, graceful_shutdown, start_grpc_server, run_action, set_state, send_status,
  get_status_internal, trigger_update, call_shutdown, is_running, broadcast_status, not_running,
}

-- What an action sees.
abbrev pub input_of : Input → Input → Action → Input
input_of stop grpc (starting_grpc caller) = grpc
input_of stop grpc _ = stop

abbrev pub concat : List (List Action) → List Action
concat [] = []
concat (actions ∷ threads) = actions ++ concat threads

-- A call, with what is seen from outside: the opening of the gRPC port and the end of the services.
pub data LifecycleCall : Type 0 where
  start_call : Input → LifecycleCall
  update_call : String → Input → Input → LifecycleCall
  shutdown_call : Input → LifecycleCall

unfoldable pub run_alone : ℕ → ℕ → Input → Input → List Action → Lifecycle → Option Lifecycle
run_alone fuel now stop grpc [] lm = some lm
run_alone zero now stop grpc (action ∷ rest) lm = none
run_alone (suc fuel) now stop grpc (action ∷ rest) lm =
    let r = run_action now (input_of stop grpc action) action rest lm in
    run_alone fuel now stop grpc (concat r.spawned ++ r.rest) r.lifecycle

-- No call takes more actions.
abbrev pub most_actions : ℕ
most_actions = 60

abbrev pub trigger_actions :
    Lifecycle × Outcome TriggerError (List Action) → Lifecycle × List Action
trigger_actions (lm, ok actions) = (lm, actions)
trigger_actions (lm, err e) = (lm, [])
trigger_actions (lm, panic) = (lm, [])

abbrev pub run_pair : ℕ → Input → Input → Lifecycle × List Action → Option Lifecycle
run_pair now stop grpc (lm, actions) = run_alone most_actions now stop grpc actions lm

unfoldable pub run_call : ℕ → LifecycleCall → Lifecycle → Option Lifecycle
unfolding run_alone trigger_update call_shutdown start
run_call now (start_call grpc) lm =
    run_alone most_actions now Input.all_stopped grpc (start from_main) lm
run_call now (update_call path stop grpc) lm =
    run_pair now stop grpc (trigger_actions (trigger_update path lm))
run_call now (shutdown_call stop) lm = run_pair now stop Input.listening (call_shutdown lm)

abbrev pub and_then : Option Lifecycle → (Lifecycle → Option Lifecycle) → Option Lifecycle
and_then none f = none
and_then (some lm) f = f lm

unfoldable pub run_calls : List (ℕ × LifecycleCall) → Lifecycle → Option Lifecycle
unfolding run_call
run_calls [] lm = some lm
run_calls ((now, call) ∷ calls) lm = and_then (run_call now call lm) (λ lm'. run_calls calls lm')

-- The abstract machine: a state, and whether the system was shut down.
pub record Abstract : Type 0 where
  pub state : SystemState
  pub down : Bool

abbrev pub stops : Input → Bool
stops Input.timed_out = false
stops Input.rest_failed = false
stops _ = true

abbrev pub opens : Input → Bool
opens Input.refused = false
opens _ = true

abbrev pub abstract_step : LifecycleCall → Abstract → Abstract
abstract_step (start_call grpc) a = record a { state = if opens grpc then running else error }
abstract_step (update_call path stop grpc) a =
    if is_running a.state
    then record a { state = if stops stop && opens grpc then running else error }
    else a
abstract_step (shutdown_call stop) a = if a.down then a else record { state = stopped; down = true }

abbrev pub abstract_steps : List (ℕ × LifecycleCall) → Abstract → Abstract
abstract_steps [] a = a
abstract_steps ((now, call) ∷ calls) a = abstract_steps calls (abstract_step call a)

-- A lifecycle that stands for an abstract state; a running system has a REST server.
abbrev pub Implements : Lifecycle → Abstract → Type 0
Implements lm a =
    (lm.current_state ≡ a.state)
    × (lm.shutdown_once ≡ a.down)
    × (lm.current_state ≡ running → lm.rest_server ≡ true)

abbrev pub Ends : Option Lifecycle → Abstract → Type 0
Ends r a = (lm : Lifecycle) × (r ≡ some lm) × Implements lm a
