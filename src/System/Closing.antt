-- ===== src/System/Closing.antt =====
-- lifecycle.go: the shutdown channel and the listeners' channels are closed at most once, and no
-- status is sent to a closed one; either would panic.
use open_machine_core.Prelude.{
  ℕ, zero, suc, ◌+◌, ◌≤◌, List, [], ◌∷◌, ◌++◌, ◌≡◌, refl, ap, Bool, true, false, Option, none, some,
  get_elem?, set, if◌then◌else◌, arith, String,
}
use open_machine_core.Prelude.Outcome.{Outcome, ok, err, panic}
use open_machine_core.Prelude.Channels.{occurs}
use open_machine_core.System.{
  Lifecycle, Action, setting, progressing, reading, sending, loading_devices, starting_grpc,
  starting_rest, running_hub, stopping_services, closing, spawning, Caller, from_main, from_update,
  Input, Ran, start, shutdown, execute_update, set_update_progress, start_failed,
  handle_update_error, services_stopped, graceful_shutdown, start_grpc_server, run_action,
  set_state, send_status, trigger_update, call_shutdown, broadcast_status, new_lifecycle_manager,
  ShutdownError, updating, not_running, is_running,
}
use open_machine_core.System.Listeners.{
  HasListeners, KeepsListeners, run_action-KeepsListeners, subscribe_status-KeepsListeners,
  unsubscribe_status-KeepsListeners,
}
use open_machine_core.System.Schedule.{
  System, Event, starts, shuts_down, subscribes, triggers, unsubscribes, turns, turn, step,
  run_events, new_system, with_thread, triggered,
}

-- how often a goroutine will close the shutdown channel
unfoldable pub closings : List Action → ℕ
closings [] = 0
closings (closing ∷ rest) = suc (closings rest)
closings (_ ∷ rest) = closings rest

unfoldable pub all_closings : List (List Action) → ℕ
all_closings [] = 0
all_closings (actions ∷ threads) = closings actions + all_closings threads

abbrev used : Bool → ℕ
used true = 1
used false = 0

pub record IsValid (s : System) : Type 0 where
  pub closes : s.lifecycle.shutdown_closes + all_closings s.threads ≤ used s.lifecycle.shutdown_once
  pub listeners : HasListeners s.lifecycle.status_listeners s.lifecycle.closed s.lifecycle.next

all_closings-append :
    (xs ys : List (List Action)) → all_closings (xs ++ ys) ≡ all_closings xs + all_closings ys
unfolding all_closings
all_closings-append [] ys = omega arith
all_closings-append (x ∷ xs) ys = omega (arith, all_closings-append xs ys)

all_closings-set :
    (threads : List (List Action)) (i : ℕ) (actions rest : List Action)
    → get_elem? threads i ≡ some actions
    → all_closings (set threads i rest) + closings actions ≡ all_closings threads + closings rest
unfolding all_closings
all_closings-set [] i actions rest h = cc
all_closings-set (t ∷ threads) zero actions rest h = ground (arith, h)
all_closings-set (t ∷ threads) (suc i) actions rest h =
    omega (arith, all_closings-set threads i actions rest h)

closings-execute_update : (path : String) → closings (execute_update path) ≡ 0
unfolding closings execute_update set_update_progress start
closings-execute_update path = refl

closings-start_failed : (caller : Caller) → closings (start_failed caller) ≡ 0
unfolding closings start_failed handle_update_error
closings-start_failed from_main = refl
closings-start_failed from_update = refl

-- What one action does to the count.
abbrev Counts : Action → List Action → Lifecycle → Ran → Type 0
Counts action rest lm r =
    (r.lifecycle.shutdown_closes + closings r.rest + all_closings r.spawned
      ≤ lm.shutdown_closes + closings (action ∷ rest))
    × (r.lifecycle.shutdown_once ≡ lm.shutdown_once)

closings-services_stopped :
    (caller : Caller) (r : Outcome ShutdownError (Unit {0})) (rest : List Action)
    → closings (services_stopped caller r rest) ≤ closings rest
unfolding closings services_stopped handle_update_error
closings-services_stopped from_main r rest = omega arith
closings-services_stopped from_update (ok _) rest = omega arith
closings-services_stopped from_update (err e) rest = omega arith
closings-services_stopped from_update panic rest = omega arith

start_grpc_server-Counts :
    (input : Input) (caller : Caller) (rest : List Action) (lm : Lifecycle)
    → Counts (starting_grpc caller) rest lm (start_grpc_server input caller rest lm)
unfolding closings all_closings start_grpc_server
start_grpc_server-Counts Input.refused caller rest lm =
    (omega (arith, closings-start_failed caller), refl)
start_grpc_server-Counts _ caller rest lm = (omega arith, refl)

run_action-Counts :
    (now : ℕ) (input : Input) (action : Action) (rest : List Action) (lm : Lifecycle)
    → Counts action rest lm (run_action now input action rest lm)
unfolding run_action closings all_closings set_state send_status
run_action-Counts now input (setting state) rest lm = (omega arith, refl)
run_action-Counts now input (progressing phase progress message) rest lm = (omega arith, refl)
run_action-Counts now input reading rest lm = (omega arith, refl)
run_action-Counts now input (sending status) rest lm = (omega arith, refl)
run_action-Counts now input loading_devices rest lm = (omega arith, refl)
run_action-Counts now input (starting_grpc caller) rest lm =
    start_grpc_server-Counts input caller rest lm
run_action-Counts now input starting_rest rest lm = (omega arith, refl)
run_action-Counts now input running_hub rest lm = (omega arith, refl)
run_action-Counts now input (stopping_services caller) rest lm =
    (omega (arith, closings-services_stopped caller (graceful_shutdown input lm) rest), refl)
run_action-Counts now input closing rest lm = (omega arith, refl)
run_action-Counts now input (spawning path) rest lm =
    (omega (arith, closings-execute_update path), refl)

turn-IsValid :
    (now i : ℕ) (input : Input) (found : Option (List Action)) (s : System)
    → get_elem? s.threads i ≡ found
    → IsValid s
    → IsValid (turn now i input found s)
unfolding all_closings
turn-IsValid now i input none s h v = v
turn-IsValid now i input (some []) s h v = v
turn-IsValid now i input (some (action ∷ rest)) s h v =
    let r = run_action now input action rest s.lifecycle in
    let c = run_action-Counts now input action rest s.lifecycle in
    record {
      closes = ground (
        arith,
        c,
        v.closes,
        ap used c.1,
        all_closings-append (set s.threads i r.rest) r.spawned,
        all_closings-set s.threads i (action ∷ rest) r.rest h,
      );
      listeners = run_action-KeepsListeners now input action rest s.lifecycle v.listeners;
    }

with_thread_closes :
    (actions : List Action) (s : System)
    → closings actions ≡ 0
    → IsValid s
    → IsValid (with_thread actions s)
unfolding all_closings
with_thread_closes actions s h v = record {
  closes = omega (arith, v.closes, h, all_closings-append s.threads (actions ∷ []));
  listeners = v.listeners;
}

triggered-IsValid :
    (passes : Bool) (path : String) (s : System)
    → IsValid s
    → IsValid (
        triggered
          (if passes
            then (set_state updating s.lifecycle, ok (broadcast_status ++ spawning path ∷ []))
            else (s.lifecycle, err not_running))
          s)
unfolding set_state broadcast_status closings
triggered-IsValid true path s v =
    with_thread_closes (broadcast_status ++ spawning path ∷ [])
      (record s { lifecycle = set_state updating s.lifecycle }) refl
      (record { closes = v.closes; listeners = v.listeners })
triggered-IsValid false path s v = v

call_shutdown-KeepsListeners :
    (once : Bool) (lm : Lifecycle)
    → KeepsListeners lm (
        let r : Lifecycle × List Action =
          if once then (lm, []) else (record lm { shutdown_once = true }, shutdown) in
        r.0)
call_shutdown-KeepsListeners true lm v = v
call_shutdown-KeepsListeners false lm v = v

shuts_down-IsValid : (now : ℕ) (s : System) → IsValid s → IsValid (step now shuts_down s)
unfolding step call_shutdown shutdown closings all_closings
shuts_down-IsValid now s v = record {
  closes = ground (
    arith,
    v.closes,
    all_closings-append s.threads (shutdown ∷ []),
    all_closings-append s.threads ([] ∷ []),
  );
  listeners = call_shutdown-KeepsListeners s.lifecycle.shutdown_once s.lifecycle v.listeners;
}

step-IsValid : (now : ℕ) (event : Event) (s : System) → IsValid s → IsValid (step now event s)
unfolding step start trigger_update closings all_closings
step-IsValid now starts s v = with_thread_closes (start from_main) s refl v
step-IsValid now shuts_down s v = shuts_down-IsValid now s v
step-IsValid now subscribes s v = record {
  closes = ground (arith, v.closes);
  listeners = subscribe_status-KeepsListeners s.lifecycle v.listeners;
}
step-IsValid now (triggers path) s v =
    triggered-IsValid (is_running s.lifecycle.current_state) path s v
step-IsValid now (unsubscribes ch) s v = record {
  closes = ground (arith, v.closes);
  listeners = unsubscribe_status-KeepsListeners ch s.lifecycle v.listeners;
}
step-IsValid now (turns i input) s v = turn-IsValid now i input (get_elem? s.threads i) s refl v

pub new_system-IsValid : IsValid new_system
unfolding new_lifecycle_manager all_closings occurs
new_system-IsValid = record {
  closes = omega arith;
  listeners = record { once = λ n. omega arith; fresh = λ n h. (refl, refl); bounded = tt };
}

-- However the calls of the lifecycle and its goroutines interleave, the shutdown channel is
-- closed at most once, as often as shutdown has run at most; a listener is subscribed at most
-- once and not any more once it is closed, and holds at most ten statuses.
pub run_events-IsValid :
    (events : List (ℕ × Event)) (s : System) → IsValid s → IsValid (run_events events s)
unfolding run_events
run_events-IsValid [] s v = v
run_events-IsValid ((now, event) ∷ events) s v =
    run_events-IsValid events (step now event s) (step-IsValid now event s v)
