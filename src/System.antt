-- ===== src/System.antt =====
-- internal/system/state.go and lifecycle.go: the states of the system, its start, update and
-- shutdown, and the listeners of its status. A method is the list of what it does, one entry for
-- each critical section and each call that may fail; `Schedule` interleaves these lists.
pub mod Schedule
pub mod Calls
pub mod Listeners
pub mod Closing
pub mod Overlaps
pub mod Status
use open_machine_core.Prelude.{
  ℕ, suc, ◌+◌, String, List, [], ◌∷◌, ◌++◌, Bool, true, false, Option, none, some, map, length,
  if◌then◌else◌,
}
use open_machine_core.Prelude.Outcome.{Outcome, ok, err}
use open_machine_core.Prelude.Text.{text_append}
use open_machine_core.Prelude.Channels.{Channel, send, remove}

pub data SystemState : Type 0 where
  initializing running updating stopping stopped error : SystemState
  other : ℕ → SystemState  -- an integer that names no state

unfoldable pub string_of : SystemState → String
string_of initializing = "INITIALIZING"
string_of running = "RUNNING"
string_of updating = "UPDATING"
string_of stopping = "STOPPING"
string_of stopped = "STOPPED"
string_of error = "ERROR"
string_of (other n) = "UNKNOWN"

pub data TransitionError : Type 0 where
  invalid_current_state : SystemState → TransitionError
  invalid_transition : SystemState → SystemState → TransitionError

abbrev pub same_state : SystemState → SystemState → Bool
same_state initializing initializing = true
same_state running running = true
same_state updating updating = true
same_state stopping stopping = true
same_state stopped stopped = true
same_state error error = true
same_state _ _ = false

unfoldable pub valid_transitions : SystemState → Option (List SystemState)
valid_transitions initializing = some (running ∷ error ∷ [])
valid_transitions running = some (updating ∷ stopping ∷ error ∷ [])
valid_transitions updating = some (running ∷ error ∷ [])
valid_transitions stopping = some (stopped ∷ error ∷ [])
valid_transitions stopped = some (initializing ∷ [])
valid_transitions error = some (initializing ∷ stopped ∷ [])
valid_transitions (other n) = none

abbrev listed : SystemState → SystemState → List SystemState → Outcome TransitionError (Unit {0})
listed from to [] = err (invalid_transition from to)
listed from to (s ∷ ss) = if same_state s to then ok tt else listed from to ss

abbrev checked :
    SystemState → SystemState → Option (List SystemState) → Outcome TransitionError (Unit {0})
checked from to none = err (invalid_current_state from)
checked from to (some allowed) = listed from to allowed

unfoldable pub validate_transition : SystemState → SystemState → Outcome TransitionError (Unit {0})
unfolding valid_transitions
validate_transition from to = checked from to (valid_transitions from)

pub record UpdateProgress : Type 0 where
  pub phase : String
  pub progress : ℕ
  pub message : String
  pub started_at : ℕ

pub record SystemStatus : Type 0 where
  pub state : SystemState
  pub update_progress : UpdateProgress
  pub timestamp : ℕ

pub record Lifecycle : Type 0 where
  pub current_state : SystemState
  pub update_progress : UpdateProgress
  pub status_listeners : List (Channel SystemStatus)
  pub closed : List (Channel SystemStatus)  -- listeners that were unsubscribed
  pub next : ℕ  -- the number of the next channel
  pub shutdown_once : Bool  -- whether `shutdownOnce` was used
  pub shutdown_closes : ℕ  -- how often `shutdownChan` was closed; a second time panics
  pub rest_server : Bool  -- whether the pointer is set
  pub grpc_server : Bool
  pub hubs : ℕ  -- the goroutines that run the hub's loop

unfoldable pub new_lifecycle_manager : Lifecycle
new_lifecycle_manager = record {
  current_state = initializing;
  update_progress = record { phase = ""; progress = 0; message = ""; started_at = 0 };
  status_listeners = [];
  closed = [];
  next = 0;
  shutdown_once = false;
  shutdown_closes = 0;
  rest_server = false;
  grpc_server = false;
  hubs = 0;
}

unfoldable pub set_state : SystemState → Lifecycle → Lifecycle
set_state state lm = record lm { current_state = state }

unfoldable pub get_status_internal : ℕ → Lifecycle → SystemStatus
get_status_internal now lm = record {
  state = lm.current_state;
  update_progress = lm.update_progress;
  timestamp = now;
}

-- the capacity of a listener
abbrev pub capacity : ℕ
capacity = 10

-- the loop of `broadcastStatus`
unfoldable pub send_status : SystemStatus → Lifecycle → Lifecycle
send_status status lm = record lm {
  status_listeners = map (λ c. send capacity status c) lm.status_listeners;
}

unfoldable pub subscribe_status : Lifecycle → ℕ × Lifecycle
subscribe_status lm = (
  lm.next,
  record lm {
    status_listeners = lm.status_listeners ++ record { number = lm.next; buffer = [] } ∷ [];
    next = suc lm.next;
  },
)

unfoldable pub unsubscribe_status : ℕ → Lifecycle → Lifecycle
unfolding remove
unsubscribe_status ch lm =
    let (rest, found) = remove ch lm.status_listeners in
    record lm { status_listeners = rest; closed = found ++ lm.closed }

-- Who called `Start`, or `gracefulShutdown`: the program's main goroutine, or an update.
pub data Caller : Type 0 where
  from_main from_update : Caller

pub data Action : Type 0 where
  setting : SystemState → Action
  progressing : String → ℕ → String → Action
  reading : Action  -- `broadcastStatus` up to its loop
  sending : SystemStatus → Action  -- and its loop
  loading_devices : Action
  starting_grpc : Caller → Action
  starting_rest : Action
  running_hub : Action
  stopping_services : Caller → Action
  closing : Action  -- of `shutdownChan`
  spawning : String → Action  -- of `executeUpdate`

unfoldable pub broadcast_status : List Action
broadcast_status = reading ∷ []

-- Of `startRESTServer`, `Server.Start` returns no error.
unfoldable pub start : Caller → List Action
start caller =
    setting initializing
    ∷ reading
    ∷ loading_devices
    ∷ starting_grpc caller
    ∷ starting_rest
    ∷ running_hub
    ∷ setting running
    ∷ reading
    ∷ []

unfoldable pub set_update_progress : String → ℕ → String → List Action
set_update_progress phase progress message = progressing phase progress message ∷ reading ∷ []

unfoldable pub handle_update_error : List Action
handle_update_error = setting error ∷ reading ∷ []

unfoldable pub execute_update : String → List Action
unfolding start set_update_progress
execute_update path =
    set_update_progress "Stopping services" 5 "Gracefully stopping all services"
    ++ (stopping_services from_update
        ∷ (set_update_progress "Loading workflow" 50 (text_append "Loading workflow from " path)
            ++ (set_update_progress "Initializing devices" 70 "Connecting to devices"
                ++ (set_update_progress "Starting services" 95 "Restarting all services"
                    ++ (start from_update
                        ++ (set_update_progress "Complete" 100 "Update completed successfully"
                            ++ (setting running ∷ reading ∷ [])))))))

-- What `shutdownOnce` runs.
unfoldable pub shutdown : List Action
shutdown =
    setting stopping
    ∷ reading
    ∷ stopping_services from_main
    ∷ setting stopped
    ∷ reading
    ∷ closing
    ∷ []

-- After an error of `Start`: it returns, to `executeUpdate` or to the program's end.
unfoldable pub start_failed : Caller → List Action
unfolding handle_update_error
start_failed from_main = setting error ∷ []
start_failed from_update = setting error ∷ handle_update_error

-- What is seen from outside: whether a port could be opened, and which case the select of
-- `gracefulShutdown` takes.
pub data Input : Type 0 where
  listening refused : Input
  all_stopped timed_out rest_failed : Input

pub data ShutdownError : Type 0 where
  shutdown_timeout rest_shutdown_failed : ShutdownError

-- `StopAll` returns no error, and without a REST server no other part does.
unfoldable pub graceful_shutdown : Input → Lifecycle → Outcome ShutdownError (Unit {0})
graceful_shutdown timed_out lm = err shutdown_timeout
graceful_shutdown rest_failed lm = if lm.rest_server then err rest_shutdown_failed else ok tt
graceful_shutdown _ lm = ok tt

-- `Shutdown` drops the error until it has ended, an update stops at it.
unfoldable pub services_stopped :
    Caller → Outcome ShutdownError (Unit {0}) → List Action → List Action
unfolding handle_update_error
services_stopped from_update (err e) rest = handle_update_error
services_stopped _ _ rest = rest

-- What an action leaves: the lifecycle, what the goroutine still has to do, and the new goroutines.
pub record Ran : Type 0 where
  pub lifecycle : Lifecycle
  pub rest : List Action
  pub spawned : List (List Action)

abbrev goes_on : List Action → Lifecycle → Ran
goes_on rest lm = record { lifecycle = lm; rest = rest; spawned = [] }

-- startGRPCServer
unfoldable pub start_grpc_server : Input → Caller → List Action → Lifecycle → Ran
unfolding start_failed
start_grpc_server refused caller rest lm = goes_on (start_failed caller) lm
start_grpc_server _ caller rest lm = goes_on rest (record lm { grpc_server = true })

unfoldable pub run_action : ℕ → Input → Action → List Action → Lifecycle → Ran
unfolding set_state get_status_internal send_status start_grpc_server graceful_shutdown
    services_stopped execute_update
run_action now input (setting state) rest lm = goes_on rest (set_state state lm)
run_action now input (progressing phase progress message) rest lm = goes_on rest (record lm {
  update_progress = record {
    phase = phase;
    progress = progress;
    message = message;
    started_at = now;
  };
})
run_action now input reading rest lm = goes_on (sending (get_status_internal now lm) ∷ rest) lm
run_action now input (sending status) rest lm = goes_on rest (send_status status lm)
run_action now input loading_devices rest lm = goes_on rest lm
run_action now input (starting_grpc caller) rest lm = start_grpc_server input caller rest lm
run_action now input starting_rest rest lm = goes_on rest (record lm { rest_server = true })
run_action now input running_hub rest lm = goes_on rest (record lm { hubs = lm.hubs + 1 })
run_action now input (stopping_services caller) rest lm =
    goes_on (services_stopped caller (graceful_shutdown input lm) rest) lm
run_action now input closing rest lm =
    goes_on rest (record lm { shutdown_closes = lm.shutdown_closes + 1 })
run_action now input (spawning path) rest lm = record {
  lifecycle = lm;
  rest = rest;
  spawned = execute_update path ∷ [];
}

abbrev pub is_running : SystemState → Bool
is_running running = true
is_running _ = false

pub data TriggerError : Type 0 where
  not_running : TriggerError

-- TriggerUpdate up to its broadcast, and what it goes on to do
unfoldable pub trigger_update : String → Lifecycle → Lifecycle × Outcome TriggerError (List Action)
unfolding set_state broadcast_status
trigger_update path lm =
    if is_running lm.current_state
    then (set_state updating lm, ok (broadcast_status ++ spawning path ∷ []))
    else (lm, err not_running)

-- Shutdown: a call after the first has nothing to do
unfoldable pub call_shutdown : Lifecycle → Lifecycle × List Action
unfolding shutdown
call_shutdown lm =
    if lm.shutdown_once then (lm, []) else (record lm { shutdown_once = true }, shutdown)
