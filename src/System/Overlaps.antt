-- ===== src/System/Overlaps.antt =====
-- lifecycle.go: what happens when an update overlaps a shutdown or another update.
use open_machine_core.Prelude.{
  ℕ, zero, suc, String, List, [], ◌∷◌, ◌++◌, ◌≡◌, refl, map, replicate, false, true, Bool, ◌&&◌,
  ◌==◌, ◌+◌, ◌-◌, ◌<◌, arith,
}
use open_machine_core.System.{
  SystemState, is_running, running, Lifecycle, Action, Input, start, shutdown, execute_update,
  set_update_progress, trigger_update, call_shutdown, broadcast_status,
}
use open_machine_core.System.Schedule.{System, Event, shuts_down, triggers, turns, run_events}

-- the same goroutine, again and again; every port opens and every service stops
abbrev turns_of : ℕ → ℕ → List Event
turns_of n i = replicate n (turns i Input.all_stopped)

abbrev pub at_time : ℕ → List Event → List (ℕ × Event)
at_time now events = map (λ e. (now, e)) events

abbrev pub running_system : Lifecycle → System
running_system lm = record { lifecycle = record lm { current_state = running }; threads = [] }

-- An update up to the second setting of the state, in `Start`.
abbrev pub first_update : String → List Event
first_update path = triggers path ∷ (turns_of 3 0 ++ turns_of 21 1)

-- A second one is triggered, and the first one ends.
abbrev pub second_update : String → List Event
second_update path = triggers path ∷ (turns_of 3 2 ++ turns_of 8 1)

-- While an update ends, a second one can be triggered, as Start has already set the state to
-- running: the first then ends with the state running, one more loop of the hub, and the second
-- update still to run as a whole.
pub run_events-overlapping_updates :
    (now : ℕ) (p q : String) (lm : Lifecycle)
    → let s = run_events (at_time now (first_update p ++ second_update q)) (running_system lm) in
      (s.lifecycle.current_state ≡ running)
      × (s.lifecycle.hubs ≡ lm.hubs + 1)
      × (s.threads ≡ [] ∷ [] ∷ [] ∷ execute_update q ∷ [])
unfolding run_events trigger_update broadcast_status execute_update set_update_progress start
run_events-overlapping_updates now p q lm = (refl, refl, refl)

-- An update, with a shutdown after the first actions of the update's goroutine.
abbrev pub shutdown_after : ℕ → String → List Event
shutdown_after k path =
    triggers path
    ∷ (turns_of 3 0 ++ (turns_of k 1 ++ (shuts_down ∷ (turns_of 8 2 ++ turns_of (29 - k) 1))))

abbrev pub fresh_system : Lifecycle → System
fresh_system lm = record {
  lifecycle = record lm { current_state = running; shutdown_once = false; shutdown_closes = 0 };
  threads = [];
}

abbrev pub all_done : List (List Action) → Bool
all_done [] = true
all_done ([] ∷ threads) = all_done threads
all_done (_ ∷ threads) = false

abbrev runs_on : System → Bool
runs_on s =
    is_running s.lifecycle.current_state && (s.lifecycle.shutdown_closes == 1 && all_done s.threads)

abbrev all_below : ℕ → (ℕ → Bool) → Bool
all_below zero test = true
all_below (suc n) test = test n && all_below n test

all_below_lem : (n : ℕ) (test : ℕ → Bool) (k : ℕ) → all_below n test ≡ true → k < n → test k ≡ true
all_below_lem zero test k h below = absurd (omega arith)
all_below_lem (suc n) test k h below = ground (arith, all_below_lem n test k)

is_running-eq : (s : SystemState) → is_running s ≡ true → s ≡ running
is_running-eq running h = refl
is_running-eq _ h = cc

runs_on_lem :
    (s : System)
    → runs_on s ≡ true
    → (s.lifecycle.current_state ≡ running)
      × (s.lifecycle.shutdown_closes ≡ 1)
      × (all_done s.threads ≡ true)
runs_on_lem s h =
    (is_running-eq s.lifecycle.current_state (ground arith), ground arith, ground arith)

abbrev after_shutdown : ℕ → String → Lifecycle → ℕ → System
after_shutdown now path lm k = run_events (at_time now (shutdown_after k path)) (fresh_system lm)

runs_on_all :
    (now : ℕ) (path : String) (lm : Lifecycle)
    → all_below 27 (λ k. runs_on (after_shutdown now path lm k)) ≡ true
unfolding run_events trigger_update broadcast_status execute_update set_update_progress start
    shutdown call_shutdown
runs_on_all now path lm = refl

-- A shutdown that runs after any number below 27 of the actions of an update, all services
-- stopping and the port opening, does not last: the update goes on and ends with the state
-- running, although the shutdown channel was closed.
pub run_events-shutdown_during_update :
    (now : ℕ) (path : String) (lm : Lifecycle) (k : ℕ)
    → k < 27
    → let s = run_events (at_time now (shutdown_after k path)) (fresh_system lm) in
      (s.lifecycle.current_state ≡ running)
      × (s.lifecycle.shutdown_closes ≡ 1)
      × (all_done s.threads ≡ true)
run_events-shutdown_during_update now path lm k h =
    runs_on_lem (after_shutdown now path lm k)
      (all_below_lem 27 (λ i. runs_on (after_shutdown now path lm i)) k (runs_on_all now path lm) h)
