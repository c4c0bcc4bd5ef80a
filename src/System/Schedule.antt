-- ===== src/System/Schedule.antt =====
-- lifecycle.go: any interleaving of the calls of the lifecycle and of its goroutines.
use open_machine_core.Prelude.{ℕ, String, List, [], ◌∷◌, ◌++◌, Option, none, some, get_elem?, set}
use open_machine_core.Prelude.Outcome.{Outcome, ok, err, panic}
use open_machine_core.System.{
  Lifecycle, Action, Caller, Input, Ran, TriggerError, start, run_action, trigger_update,
  call_shutdown, subscribe_status, unsubscribe_status, new_lifecycle_manager,
}

pub record System : Type 0 where
  pub lifecycle : Lifecycle
  pub threads : List (List Action)

abbrev pub new_system : System
new_system = record { lifecycle = new_lifecycle_manager; threads = [] }

pub data Event : Type 0 where
  starts shuts_down subscribes : Event
  triggers : String → Event
  unsubscribes : ℕ → Event
  turns : ℕ → Input → Event  -- one action of a goroutine

abbrev pub with_thread : List Action → System → System
with_thread actions s = record s { threads = s.threads ++ actions ∷ [] }

abbrev pub triggered : Lifecycle × Outcome TriggerError (List Action) → System → System
triggered (lm, ok actions) s = with_thread actions (record s { lifecycle = lm })
triggered (lm, err e) s = record s { lifecycle = lm }
triggered (lm, panic) s = record s { lifecycle = lm }

abbrev pub ran : ℕ → Ran → System → System
ran i r s = record s { lifecycle = r.lifecycle; threads = set s.threads i r.rest ++ r.spawned }

abbrev pub turn : ℕ → ℕ → Input → Option (List Action) → System → System
turn now i input none s = s
turn now i input (some []) s = s
turn now i input (some (action ∷ rest)) s = ran i (run_action now input action rest s.lifecycle) s

unfoldable pub step : ℕ → Event → System → System
unfolding start trigger_update call_shutdown subscribe_status unsubscribe_status run_action
step now starts s = with_thread (start Caller.from_main) s
step now shuts_down s =
    let (lm, actions) = call_shutdown s.lifecycle in
    with_thread actions (record s { lifecycle = lm })
step now subscribes s = record s { lifecycle = (subscribe_status s.lifecycle).1 }
step now (triggers path) s = triggered (trigger_update path s.lifecycle) s
step now (unsubscribes ch) s = record s { lifecycle = unsubscribe_status ch s.lifecycle }
step now (turns i input) s = turn now i input (get_elem? s.threads i) s

-- each event with its time
unfoldable pub run_events : List (ℕ × Event) → System → System
unfolding step
run_events [] s = s
run_events ((now, event) ∷ events) s = run_events events (step now event s)
