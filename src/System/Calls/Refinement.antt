-- ===== src/System/Calls/Refinement.antt =====
-- lifecycle.go: calls that do not overlap implement a machine of states and a shutdown flag.
use open_machine_core.Prelude.{
  ℕ, zero, suc, ◌+◌, some_inj, String, List, Option, none, some, [], ◌∷◌, ◌++◌, ◌≡◌, refl, sym,
  subst, ap, ◌∙◌, Bool, true, false, ◌&&◌, if◌then◌else◌,
}
use open_machine_core.Prelude.Outcome.{Outcome, ok, err}
use open_machine_core.System.{
  SystemState, running, updating, stopped, error, Lifecycle, Action, setting, progressing, reading,
  sending, loading_devices, starting_grpc, starting_rest, running_hub, stopping_services, closing,
  spawning, from_main, Input, ShutdownError, shutdown_timeout, rest_shutdown_failed, start,
  shutdown, execute_update, set_update_progress, start_failed, handle_update_error,
  services_stopped, graceful_shutdown, start_grpc_server, run_action, set_state, send_status,
  get_status_internal, trigger_update, call_shutdown, is_running, broadcast_status, not_running,
}
use open_machine_core.System.Calls.{
  concat, LifecycleCall, start_call, update_call, shutdown_call, run_alone, most_actions,
  trigger_actions, run_pair, run_call, and_then, run_calls, Abstract, stops, opens, abstract_step,
  abstract_steps, Implements, Ends,
}

-- What the states depend on. The listeners do not matter, so the loop of a broadcast is passed over.
record Core : Type 0 where
  state : SystemState
  once : Bool
  served : Bool

core_of : Lifecycle → Core
core_of lm = record { state = lm.current_state; once = lm.shutdown_once; served = lm.rest_server }

stopped_by : Input → Bool → Outcome ShutdownError (Unit {0})
stopped_by Input.timed_out served = err shutdown_timeout
stopped_by Input.rest_failed served = if served then err rest_shutdown_failed else ok tt
stopped_by _ served = ok tt

core_run : ℕ → Input → Input → List Action → Core → Option Core
core_run fuel stop grpc [] c = some c
core_run zero stop grpc (action ∷ rest) c = none
core_run (suc fuel) stop grpc (setting state ∷ rest) c =
    core_run fuel stop grpc rest (record c { state = state })
core_run (suc zero) stop grpc (reading ∷ rest) c = none
core_run (suc (suc fuel)) stop grpc (reading ∷ rest) c = core_run fuel stop grpc rest c
core_run (suc fuel) stop grpc (starting_grpc caller ∷ rest) c =
    core_run fuel stop grpc (if opens grpc then rest else start_failed caller) c
core_run (suc fuel) stop grpc (starting_rest ∷ rest) c =
    core_run fuel stop grpc rest (record c { served = true })
core_run (suc fuel) stop grpc (stopping_services caller ∷ rest) c =
    core_run fuel stop grpc (services_stopped caller (stopped_by stop c.served) rest) c
core_run (suc fuel) stop grpc (spawning path ∷ rest) c =
    core_run fuel stop grpc (concat (execute_update path ∷ []) ++ rest) c
core_run (suc fuel) stop grpc (_ ∷ rest) c = core_run fuel stop grpc rest c

Reached : Option Lifecycle → Core → Type 0
Reached r c = (lm : Lifecycle) × (r ≡ some lm) × (core_of lm ≡ c)

graceful_shutdown_lem :
    (input : Input) (lm : Lifecycle) → graceful_shutdown input lm ≡ stopped_by input lm.rest_server
unfolding graceful_shutdown stopped_by
graceful_shutdown_lem Input.timed_out lm = refl
graceful_shutdown_lem Input.rest_failed lm = refl
graceful_shutdown_lem Input.all_stopped lm = refl
graceful_shutdown_lem Input.listening lm = refl
graceful_shutdown_lem Input.refused lm = refl

run_alone_lem :
    (fuel now : ℕ) (stop grpc : Input) (actions : List Action) (lm : Lifecycle) {c : Core}
    → core_run fuel stop grpc actions (core_of lm) ≡ some c
    → Reached (run_alone fuel now stop grpc actions lm) c
unfolding run_alone run_action core_run core_of Reached set_state send_status start_grpc_server
run_alone_lem fuel now stop grpc [] lm h = (lm, refl, some_inj h)
run_alone_lem zero now stop grpc (action ∷ rest) lm h = cc
run_alone_lem (suc fuel) now stop grpc (setting state ∷ rest) lm h =
    run_alone_lem fuel now stop grpc rest (set_state state lm) h
run_alone_lem (suc zero) now stop grpc (reading ∷ rest) lm h = cc
run_alone_lem (suc (suc fuel)) now stop grpc (reading ∷ rest) lm h =
    run_alone_lem fuel now stop grpc rest (send_status (get_status_internal now lm) lm) h
run_alone_lem (suc fuel) now stop Input.refused (starting_grpc caller ∷ rest) lm h =
    run_alone_lem fuel now stop Input.refused (start_failed caller) lm h
run_alone_lem (suc fuel) now stop grpc (starting_grpc caller ∷ rest) lm h =
    run_alone_lem fuel now stop grpc rest (record lm { grpc_server = true }) h
run_alone_lem (suc fuel) now stop grpc (starting_rest ∷ rest) lm h =
    run_alone_lem fuel now stop grpc rest (record lm { rest_server = true }) h
run_alone_lem (suc fuel) now stop grpc (stopping_services caller ∷ rest) lm {c} h =
    run_alone_lem fuel now stop grpc (services_stopped caller (graceful_shutdown stop lm) rest) lm (
      ap (λ o. core_run fuel stop grpc (services_stopped caller o rest) (core_of lm))
        (graceful_shutdown_lem stop lm)
      ∙ h)
run_alone_lem (suc fuel) now stop grpc (spawning path ∷ rest) lm h =
    run_alone_lem fuel now stop grpc (concat (execute_update path ∷ []) ++ rest) lm h
run_alone_lem (suc fuel) now stop grpc (progressing phase progress message ∷ rest) lm h =
    run_alone_lem fuel now stop grpc rest
      (run_action now stop (progressing phase progress message) rest lm).lifecycle h
run_alone_lem (suc fuel) now stop grpc (sending status ∷ rest) lm h =
    run_alone_lem fuel now stop grpc rest (send_status status lm) h
run_alone_lem (suc fuel) now stop grpc (loading_devices ∷ rest) lm h =
    run_alone_lem fuel now stop grpc rest lm h
run_alone_lem (suc fuel) now stop grpc (running_hub ∷ rest) lm h =
    run_alone_lem fuel now stop grpc rest (record lm { hubs = lm.hubs + 1 }) h
run_alone_lem (suc fuel) now stop grpc (closing ∷ rest) lm h =
    run_alone_lem fuel now stop grpc rest (record lm { shutdown_closes = lm.shutdown_closes + 1 }) h

core : SystemState → Bool → Bool → Core
core state once served = record { state = state; once = once; served = served }

start-core :
    (stop grpc : Input) (c : Core)
    → core_run most_actions stop grpc (start from_main) c
      ≡ some (
          core
            (if opens grpc then running else error)
            c.once
            (if opens grpc then true else c.served))
unfolding core_run core start start_failed
start-core stop Input.refused c = refl
start-core stop Input.listening c = refl
start-core stop Input.all_stopped c = refl
start-core stop Input.timed_out c = refl
start-core stop Input.rest_failed c = refl

update-core :
    (stop grpc : Input) (path : String) (once : Bool)
    → core_run most_actions stop grpc
        (broadcast_status ++ spawning path ∷ [])
        (core updating once true)
      ≡ some (core (if stops stop && opens grpc then running else error) once true)
unfolding core_run core start start_failed execute_update set_update_progress handle_update_error
    services_stopped stopped_by broadcast_status
update-core Input.timed_out grpc path once = refl
update-core Input.rest_failed grpc path once = refl
update-core stop Input.refused path once = refl
update-core stop grpc path once = refl

shutdown-core :
    (stop grpc : Input) (c : Core)
    → core_run most_actions stop grpc shutdown c ≡ some (core stopped c.once c.served)
unfolding core_run core shutdown services_stopped stopped_by
shutdown-core stop grpc c = refl

Reached-Ends :
    (r : Option Lifecycle) (state : SystemState) (down served : Bool)
    → Reached r (core state down served)
    → (state ≡ running → served ≡ true)
    → Ends r (record { state = state; down = down })
unfolding Reached core core_of
Reached-Ends r state down served (lm, e, p) h = (
  lm,
  e,
  (
    ap (λ (c : Core). c.state) p,
    ap (λ (c : Core). c.once) p,
    λ q. ap (λ (c : Core). c.served) p ∙ h (sym (ap (λ (c : Core). c.state) p) ∙ q),
  ),
)

start_served :
    (grpc : Input) (served : Bool)
    → (if opens grpc then running else error) ≡ running
    → (if opens grpc then true else served) ≡ true
start_served Input.refused served h = cc
start_served _ served h = refl

start-Ends :
    (now : ℕ) (grpc : Input) (lm : Lifecycle) (a : Abstract)
    → Implements lm a
    → Ends (run_call now (start_call grpc) lm) (abstract_step (start_call grpc) a)
unfolding run_call core_of
start-Ends now grpc lm a h =
    subst
      (λ down.
        Ends (run_call now (start_call grpc) lm)
          (record { state = if opens grpc then running else error; down = down }))
      h.1
      (Reached-Ends _ (if opens grpc then running else error) lm.shutdown_once
        (if opens grpc then true else lm.rest_server)
        (run_alone_lem most_actions now Input.all_stopped grpc (start from_main) lm
          (start-core Input.all_stopped grpc (core_of lm)))
        (start_served grpc lm.rest_server))

update-Ends :
    (passes : Bool) (now : ℕ) (path : String) (stop grpc : Input) (lm : Lifecycle) (a : Abstract)
    → Implements lm a
    → (passes ≡ true → lm.rest_server ≡ true)
    → Ends
        (run_pair now stop grpc (
          trigger_actions (
            if passes
            then (set_state updating lm, ok (broadcast_status ++ spawning path ∷ []))
            else (lm, err not_running))))
        (if passes
          then record a { state = if stops stop && opens grpc then running else error }
          else a)
unfolding run_alone set_state core core_of
update-Ends false now path stop grpc lm a h served = (lm, refl, h)
update-Ends true now path stop grpc lm a h served =
    let state = if stops stop && opens grpc then running else error in
    let r =
      run_pair now stop grpc (set_state updating lm, broadcast_status ++ spawning path ∷ []) in
    subst (λ down. Ends r (record { state = state; down = down })) h.1
      (Reached-Ends r state lm.shutdown_once true
        (run_alone_lem most_actions now stop grpc (broadcast_status ++ spawning path ∷ [])
          (set_state updating lm)
          (ap
              (λ v.
                core_run most_actions stop grpc (broadcast_status ++ spawning path ∷ [])
                  (core updating lm.shutdown_once v))
              (served refl)
            ∙ update-core stop grpc path lm.shutdown_once))
        (λ e. refl))

shutdown-Ends :
    (once : Bool) (now : ℕ) (stop : Input) (lm : Lifecycle) (a : Abstract)
    → Implements lm a
    → Ends
        (run_pair now stop Input.listening
          (if once then (lm, []) else (record lm { shutdown_once = true }, shutdown)))
        (if once then a else record { state = stopped; down = true })
unfolding run_alone core_of
shutdown-Ends true now stop lm a h = (lm, refl, h)
shutdown-Ends false now stop lm a h =
    Reached-Ends _ stopped true lm.rest_server
      (run_alone_lem most_actions now stop Input.listening shutdown
        (record lm { shutdown_once = true })
        (shutdown-core stop Input.listening (core_of (record lm { shutdown_once = true }))))
      (λ e. cc)

is_running-eq : (s : SystemState) → is_running s ≡ true → s ≡ running
is_running-eq running h = refl
is_running-eq _ h = cc

run_call-Ends :
    (now : ℕ) (call : LifecycleCall) (lm : Lifecycle) (a : Abstract)
    → Implements lm a
    → Ends (run_call now call lm) (abstract_step call a)
unfolding run_call trigger_update call_shutdown
run_call-Ends now (start_call grpc) lm a h = start-Ends now grpc lm a h
run_call-Ends now (update_call path stop grpc) lm a h =
    subst
      (λ s. Ends (run_call now (update_call path stop grpc) lm) (
        if is_running s
        then record a { state = if stops stop && opens grpc then running else error }
        else a))
      h.0
      (update-Ends (is_running lm.current_state) now path stop grpc lm a h
        (λ e. h.2 (is_running-eq lm.current_state e)))
run_call-Ends now (shutdown_call stop) lm a h =
    subst
      (λ b.
        Ends (run_call now (shutdown_call stop) lm)
          (if b then a else record { state = stopped; down = true }))
      h.1 (shutdown-Ends lm.shutdown_once now stop lm a h)

and_then-Ends :
    (calls : List (ℕ × LifecycleCall)) (r : Option Lifecycle) (a : Abstract)
    → ((lm : Lifecycle) → Implements lm a → Ends (run_calls calls lm) (abstract_steps calls a))
    → Ends r a
    → Ends (and_then r (λ lm. run_calls calls lm)) (abstract_steps calls a)
and_then-Ends calls r a k (lm, e, h) =
    subst (λ x. Ends (and_then x (λ l. run_calls calls l)) (abstract_steps calls a)) (sym e)
      (k lm h)

-- Calls of start, update and shutdown that do not overlap implement a machine of a state and a
-- flag: a start ends running or in error, an update happens in the running state only and ends
-- running or in error, and only the first shutdown stops the system; each call runs to its end.
pub run_calls-abstract_steps :
    (calls : List (ℕ × LifecycleCall)) (lm : Lifecycle) (a : Abstract)
    → Implements lm a
    → Ends (run_calls calls lm) (abstract_steps calls a)
unfolding run_calls
run_calls-abstract_steps [] lm a h = (lm, refl, h)
run_calls-abstract_steps ((now, call) ∷ calls) lm a h =
    and_then-Ends calls (run_call now call lm) (abstract_step call a)
      (λ lm' h'. run_calls-abstract_steps calls lm' (abstract_step call a) h')
      (run_call-Ends now call lm a h)
