-- ===== src/Machine/Races.antt =====
-- controller.go: what the commands do when nothing comes between, and what goes wrong when something
-- does.
use open_machine_core.Prelude.{
  ◌≡◌, ◌≢◌, refl, ◌==◌, Memᴰ, false, none, arith, List, [], ◌∷◌, Uuid, uuid_nil,
}
use mathlib.Core.List.Memᴰ
use open_machine_core.Machine.{
  stopped, stopping, homing, ready, home, start, stop, Controller, engine_started, lookup_failed,
  answer, success, begin, run_thread,
}
use open_machine_core.Machine.Schedule.{Event, command, thread, run, initial}

-- A day without incident: home, start, stop, each workflow a success, and no event in between.
abbrev pub day : Uuid → Uuid → Uuid → List Event
day h p s =
    command home
    ∷ thread 0 (engine_started h)
    ∷ thread 0 (answer success "" none)
    ∷ command start
    ∷ thread 0 (engine_started p)
    ∷ command stop
    ∷ thread 0 (engine_started s)
    ∷ thread 0 (answer success "" none)
    ∷ thread 0 lookup_failed
    ∷ []

not_nil : (id : Uuid) → id ≢ uuid_nil → (id == uuid_nil) ≡ false
not_nil id h = ground arith

-- Home, start and stop lead a stopped machine to stopped again when each workflow succeeds,
-- nothing comes between and the production execution has an id other than nil: no goroutine is
-- left, the production execution was cancelled, and no other, and of the five changes of state
-- only the two that end a workflow were broadcast.
pub run-day :
    (h p s : Uuid) (c : Controller)
    → p ≢ uuid_nil
    → let w = run (day h p s) (initial (record c { current_state = stopped })) in
      (w.controller.current_state ≡ stopped)
      × (w.threads ≡ [])
      × (w.cancels ≡ p ∷ [])
      × (w.broadcasts ≡ (stopped, stopping) ∷ (ready, homing) ∷ [])
unfolding run begin run_thread
run-day h p s c real = rw (not_nil p real) (refl, refl, refl, refl)

-- A stop that comes while executeStart waits for the engine to start production `p`.
abbrev pub stop_during_start : Uuid → Uuid → List Event
stop_during_start p s =
    command start
    ∷ command stop
    ∷ thread 1 (engine_started p)
    ∷ thread 0 (engine_started s)
    ∷ thread 0 (answer success "" none)
    ∷ thread 0 lookup_failed
    ∷ []

-- A ready machine without goroutines, whose current execution is not nil, is started; before the
-- engine answers with another execution for production, a stop comes. When the stop workflow is
-- then started and succeeds, the machine says stopped and no goroutine is left, but production
-- was never cancelled.
pub run-stop_during_start :
    (p s : Uuid) (c : Controller)
    → c.current_exec_id ≢ uuid_nil
    → p ≢ c.current_exec_id
    → let w = run (stop_during_start p s) (initial (record c { current_state = ready })) in
      (w.controller.current_state ≡ stopped) × (w.threads ≡ []) × ¬ Memᴰ p w.cancels
unfolding run begin run_thread
run-stop_during_start p s c old fresh =
    rw (not_nil c.current_exec_id old) (refl, refl, λ m. fresh (Memᴰ.eq_of_singleton m))
