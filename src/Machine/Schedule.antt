-- ===== src/Machine/Schedule.antt =====
-- controller.go under every interleaving: commands and goroutines take turns, one critical section at
-- a time, in the order of a list of events.
use open_machine_core.Prelude.{
  ℕ, zero, suc, List, [], ◌∷◌, ◌++◌, Option, none, some, get_elem?, if◌then◌else◌, Uuid,
}
use open_machine_core.Prelude.Outcome.{Outcome, ok, err, panic}
use open_machine_core.Machine.{
  State, Command, Controller, MachineError, Begun, Call, Thread, calling, Input, Ran, begin,
  run_thread,
}

-- The controller, its goroutines, the executions that it asked the engine to cancel, and the state
-- changes, new and previous, that went to the WebSocket hub, the latest first.
pub record World : Type 0 where
  pub controller : Controller
  pub threads : List Thread
  pub cancels : List Uuid
  pub broadcasts : List (State × State)

pub data Event : Type 0 where
  command : Command → Event
  thread : ℕ → Input → Event  -- the goroutine at this place goes on

abbrev call_threads : Option Call → List Thread
call_threads none = []
call_threads (some call) = calling call ∷ []

abbrev cancel_list : Option Uuid → List Uuid
cancel_list none = []
cancel_list (some id) = id ∷ []

abbrev apply_begun : Outcome MachineError Begun → World → World
apply_begun (ok b) w = record w {
  controller = b.controller;
  threads = call_threads b.call ++ w.threads;
  cancels = cancel_list b.cancelled ++ w.cancels;
}
apply_begun (err e) w = w
apply_begun panic w = w

-- the list with its element at this place replaced by others
unfoldable pub splice : ℕ → List Thread → List Thread → List Thread
splice i [] ts = []
splice zero (x ∷ xs) ts = ts ++ xs
splice (suc i) (x ∷ xs) ts = x ∷ splice i xs ts

abbrev apply_ran : ℕ → Ran → World → World
apply_ran i r w = record w {
  controller = r.controller;
  threads = splice i w.threads r.threads;
  broadcasts =
      if r.set
      then (r.controller.current_state, w.controller.current_state) ∷ w.broadcasts
      else w.broadcasts;
}

abbrev run_at : Option Thread → ℕ → Input → World → World
run_at none i input w = w
run_at (some t) i input w = apply_ran i (run_thread t input w.controller) w

unfoldable pub step : Event → World → World
unfolding splice
step (command cmd) w = apply_begun (begin cmd w.controller) w
step (thread i input) w = run_at (get_elem? w.threads i) i input w

unfoldable pub run : List Event → World → World
unfolding step
run [] w = w
run (e ∷ es) w = run es (step e w)

abbrev pub initial : Controller → World
initial c = record { controller = c; threads = []; cancels = []; broadcasts = [] }
