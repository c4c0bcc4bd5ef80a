-- ===== src/Machine.antt =====
-- internal/machine/states.go and controller.go. A method that releases the mutex on its way is cut
-- where it does: `begin` is a command up to the call of the workflow engine, and `run_thread` is what
-- a goroutine does from there between two acquisitions of the mutex. `Schedule` interleaves these.
pub mod Schedule
pub mod Commands
pub mod Safety
pub mod Races
use open_machine_core.Prelude.{
  ℕ, String, List, [], ◌∷◌, Bool, true, false, not, ◌||◌, Option, none, some, ◌==◌, if◌then◌else◌,
  Uuid, uuid_nil,
}
use open_machine_core.Prelude.Int.{ℤ, pos}
use open_machine_core.Prelude.Outcome.{Outcome, ok, err, panic}

pub data State : Type 0 where
  stopped homing ready running stopping error emergency : State

pub State-discrete : Discrete State
State-discrete = hlevel

pub data Command : Type 0 where
  home start stop reset : Command
  other : String → Command

pub record Controller : Type 0 where
  pub current_state : State
  pub current_exec_id : Uuid
  pub production_cycles : ℤ
  pub error_message : String
  pub stop_workflow_id : Uuid
  pub home_workflow_id : Uuid
  pub production_workflow_id : Uuid

unfoldable pub new_controller : Controller
new_controller = record {
  current_state = stopped;
  current_exec_id = uuid_nil;
  production_cycles = pos 0;
  error_message = "";
  stop_workflow_id = uuid_nil;
  home_workflow_id = uuid_nil;
  production_workflow_id = uuid_nil;
}

unfoldable pub set_workflows : Uuid → Uuid → Uuid → Controller → Controller
set_workflows stop_id home_id production_id c = record c {
  stop_workflow_id = stop_id;
  home_workflow_id = home_id;
  production_workflow_id = production_id;
}

pub data MachineError : Type 0 where
  unknown_command : String → MachineError
  cannot_home cannot_start cannot_stop cannot_reset : State → MachineError

-- The commands that go on to call the engine.
pub data Call : Type 0 where
  home_call start_call stop_call : Call

-- What a command does before it calls the engine: the state, the call that it goes on to make, and
-- the execution that it cancels.
pub record Begun : Type 0 where
  pub controller : Controller
  pub call : Option Call
  pub cancelled : Option Uuid

abbrev is_stopped : State → Bool
is_stopped stopped = true
is_stopped _ = false

abbrev is_ready : State → Bool
is_ready ready = true
is_ready _ = false

abbrev pub is_running : State → Bool
is_running running = true
is_running _ = false

abbrev is_error : State → Bool
is_error error = true
is_error emergency = true
is_error _ = false

unfoldable pub begin_home : Controller → Outcome MachineError Begun
begin_home c =
    if not (is_stopped c.current_state)
    then err (cannot_home c.current_state)
    else ok (record {
      controller = record c { current_state = homing };
      call = some home_call;
      cancelled = none;
    })

unfoldable pub begin_start : Controller → Outcome MachineError Begun
begin_start c =
    if not (is_ready c.current_state)
    then err (cannot_start c.current_state)
    else ok (record {
      controller = record c { current_state = running; production_cycles = pos 0 };
      call = some start_call;
      cancelled = none;
    })

unfoldable pub begin_stop : Controller → Outcome MachineError Begun
begin_stop c =
    if not (is_running c.current_state)
    then err (cannot_stop c.current_state)
    else ok (record {
      controller = record c { current_state = stopping };
      call = some stop_call;
      cancelled = if not (c.current_exec_id == uuid_nil) then some c.current_exec_id else none;
    })

unfoldable pub execute_reset : Controller → Outcome MachineError Begun
execute_reset c =
    if not (is_error c.current_state)
    then err (cannot_reset c.current_state)
    else ok (record {
      controller = record c {
        current_state = stopped;
        error_message = "";
        current_exec_id = uuid_nil;
      };
      call = none;
      cancelled = none;
    })

-- the switch of `ExecuteCommand`
unfoldable pub begin : Command → Controller → Outcome MachineError Begun
unfolding begin_home begin_start begin_stop execute_reset
begin home c = begin_home c
begin start c = begin_start c
begin stop c = begin_stop c
begin reset c = execute_reset c
begin (other cmd) c = err (unknown_command cmd)

-- The workflow whose execution a call asks for.
unfoldable pub workflow_of : Call → Controller → Uuid
workflow_of home_call c = c.home_workflow_id
workflow_of start_call c = c.production_workflow_id
workflow_of stop_call c = c.stop_workflow_id

-- The broadcast of a change of state is `Schedule`'s.
unfoldable pub set_state : State → String → Controller → Controller
set_state state error_msg c = record c { current_state = state; error_message = error_msg }

-- What GetExecutionStatus says of an execution.
pub data ExecutionStatus : Type 0 where
  pending executing success failed cancelled : ExecutionStatus

-- What a goroutine waits for: the return of ExecuteWorkflow, or of GetExecutionStatus with the
-- execution's error text and the `iterations_completed` of its output, if it has them.
pub data Input : Type 0 where
  engine_started : Uuid → Input
  engine_failed : String → Input
  lookup_failed : Input
  answer : ExecutionStatus → String → Option ℤ → Input

-- A goroutine by the place where it waits: in the engine's call, in `monitorWorkflow`, at the head of
-- the loop of `monitorProductionWorkflow`, there in the call of GetExecutionStatus, and there before
-- the call of `setState` for an execution that failed.
pub data Thread : Type 0 where
  calling : Call → Thread
  monitoring : Uuid → State → Thread
  producing : Uuid → Thread
  asking : Uuid → Thread
  failing : String → Thread

unfoldable pub monitor_of : Call → Uuid → Thread
monitor_of home_call id = monitoring id ready
monitor_of start_call id = producing id
monitor_of stop_call id = monitoring id stopped

-- What a goroutine leaves: the controller, the goroutines that go on from it, and whether `setState`
-- was called.
pub record Ran : Type 0 where
  pub controller : Controller
  pub threads : List Thread
  pub set : Bool

abbrev waits : Controller → Thread → Ran
waits c t = record { controller = c; threads = t ∷ []; set = false }

abbrev ends : Controller → Ran
ends c = record { controller = c; threads = []; set = false }

abbrev ends_in : State → String → Controller → Ran
ends_in state message c = record {
  controller = set_state state message c;
  threads = [];
  set = true;
}

-- the end of executeHome, executeStart and executeStop
unfoldable pub finish : Call → Input → Controller → Ran
unfolding set_state monitor_of
finish call (engine_started id) c = waits (record c { current_exec_id = id }) (monitor_of call id)
finish call (engine_failed message) c = ends_in error message c
finish call _ c = waits c (calling call)

-- one tick of the loop
unfoldable pub monitor_workflow : Uuid → State → Input → Controller → Ran
unfolding set_state
monitor_workflow id target (answer success message output) c = ends_in target "" c
monitor_workflow id target (answer failed message output) c = ends_in error message c
monitor_workflow id target (answer cancelled message output) c = ends c
monitor_workflow id target _ c = waits c (monitoring id target)

abbrev count_cycles : Option ℤ → Controller → Controller
count_cycles none c = c
count_cycles (some cycles) c = record c { production_cycles = cycles }

abbrev after_production : ExecutionStatus → String → Uuid → Controller → Ran
after_production failed message id c = waits c (failing message)
after_production _ message id c = waits c (producing id)

-- one tick, from the answer on, up to the call of `setState` for an execution that failed
unfoldable pub monitor_production_workflow : Uuid → Input → Controller → Ran
monitor_production_workflow id (answer status message output) c =
    after_production status message id (count_cycles output c)
monitor_production_workflow id lookup_failed c = waits c (producing id)
monitor_production_workflow id _ c = waits c (asking id)

unfoldable pub check_production : Uuid → Controller → Ran
check_production id c = if not (is_running c.current_state) then ends c else waits c (asking id)

unfoldable pub run_thread : Thread → Input → Controller → Ran
unfolding set_state finish monitor_workflow monitor_production_workflow check_production
run_thread (calling call) input c = finish call input c
run_thread (monitoring id target) input c = monitor_workflow id target input c
run_thread (producing id) input c = check_production id c
run_thread (asking id) input c = monitor_production_workflow id input c
run_thread (failing message) input c = ends_in error message c

pub record MachineConfig : Type 0 where
  pub stop_workflow_id : String
  pub home_workflow_id : String
  pub production_workflow_id : String

pub record MachineStatus : Type 0 where
  pub state : State
  pub execution_id : String
  pub error_message : String
  pub production_cycles : ℤ
  pub config : Option MachineConfig

module _ (uuid_string : Uuid → String) where
  abbrev shown : Uuid → String
  shown id = if not (id == uuid_nil) then uuid_string id else ""

  -- The time stamp, the moment of the call, is left out.
  unfoldable pub get_status : Controller → MachineStatus
  get_status c = record {
    state = c.current_state;
    execution_id = uuid_string c.current_exec_id;
    error_message = c.error_message;
    production_cycles = c.production_cycles;
    config =
        if not (c.stop_workflow_id == uuid_nil)
          || (not (c.home_workflow_id == uuid_nil) || not (c.production_workflow_id == uuid_nil))
        then some (record {
          stop_workflow_id = shown c.stop_workflow_id;
          home_workflow_id = shown c.home_workflow_id;
          production_workflow_id = shown c.production_workflow_id;
        })
        else none;
  }
