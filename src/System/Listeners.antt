-- ===== src/System/Listeners.antt =====
-- lifecycle.go: the listeners of the status and their channels.
use open_machine_core.Prelude.{
  ℕ, ◌+◌, ◌≤◌, List, [], ◌∷◌, ◌≡◌, ◌∙◌, length, length-append, map, arith, All, All-append,
}
use open_machine_core.Prelude.Channels.{
  Channel, send, remove, occurs, occurs-append, occurs-send, occurs-remove,
}
use open_machine_core.System.{
  Lifecycle, SystemStatus, Action, sending, starting_grpc, Caller, Input, capacity,
  start_grpc_server, run_action, set_state, send_status, subscribe_status, unsubscribe_status,
}

-- The listeners, those that were unsubscribed and the next number.
pub record HasListeners (listeners closed : List (Channel SystemStatus)) (next : ℕ) : Type 0 where
  pub once : (n : ℕ) → occurs n listeners + occurs n closed ≤ 1
  pub fresh : (n : ℕ) → next ≤ n → (occurs n listeners ≡ 0) × (occurs n closed ≡ 0)
  pub bounded : All (λ c. length c.buffer ≤ capacity) listeners

-- The listeners after an action: as they were, or sent a status.
abbrev pub KeepsListeners : Lifecycle → Lifecycle → Type 0
KeepsListeners lm lm' =
    HasListeners lm.status_listeners lm.closed lm.next
    → HasListeners lm'.status_listeners lm'.closed lm'.next

send_bounded :
    (status : SystemStatus) (cs : List (Channel SystemStatus))
    → All (λ c. length c.buffer ≤ capacity) cs
    → All (λ c. length c.buffer ≤ capacity) (map (λ c. send capacity status c) cs)
send_bounded status [] h = tt
send_bounded status (c ∷ cs) h =
    (ground (arith, h.0, length-append c.buffer (status ∷ [])), send_bounded status cs h.1)

send_status-KeepsListeners :
    (status : SystemStatus) (lm : Lifecycle) → KeepsListeners lm (send_status status lm)
unfolding send_status
send_status-KeepsListeners status lm v = record {
  once = λ n. omega (arith, occurs-send n capacity status lm.status_listeners, v.once n);
  fresh =
      λ n h. (occurs-send n capacity status lm.status_listeners ∙ (v.fresh n h).0, (v.fresh n h).1);
  bounded = send_bounded status lm.status_listeners v.bounded;
}

pub subscribe_status-KeepsListeners : (lm : Lifecycle) → KeepsListeners lm (subscribe_status lm).1
unfolding subscribe_status occurs
subscribe_status-KeepsListeners lm v = record {
  once = λ n. ground (
    arith,
    occurs-append n lm.status_listeners (record { number = lm.next; buffer = [] } ∷ []),
    v.once n,
    v.fresh n,
  );
  fresh = λ n h. ground (
    arith,
    occurs-append n lm.status_listeners (record { number = lm.next; buffer = [] } ∷ []),
    v.fresh n,
    h,
  );
  bounded =
      All-append (λ c. length c.buffer ≤ capacity) lm.status_listeners
        (record { number = lm.next; buffer = [] } ∷ []) v.bounded (omega arith, tt);
}

remove_bounded :
    (ch : ℕ) (cs : List (Channel SystemStatus))
    → All (λ c. length c.buffer ≤ capacity) cs
    → All (λ c. length c.buffer ≤ capacity) (remove ch cs).0
unfolding remove
remove_bounded ch [] h = tt
remove_bounded ch (c ∷ cs) h = ground (arith, remove_bounded ch cs h.1)

pub unsubscribe_status-KeepsListeners :
    (ch : ℕ) (lm : Lifecycle) → KeepsListeners lm (unsubscribe_status ch lm)
unfolding unsubscribe_status
unsubscribe_status-KeepsListeners ch lm v = record {
  once = λ n. omega (
    arith,
    occurs-remove n ch lm.status_listeners,
    occurs-append n (remove ch lm.status_listeners).1 lm.closed,
    v.once n,
  );
  fresh = λ n h. ground (
    arith,
    occurs-remove n ch lm.status_listeners,
    occurs-append n (remove ch lm.status_listeners).1 lm.closed,
    v.fresh n h,
  );
  bounded = remove_bounded ch lm.status_listeners v.bounded;
}

start_grpc_server-KeepsListeners :
    (input : Input) (caller : Caller) (rest : List Action) (lm : Lifecycle)
    → KeepsListeners lm (start_grpc_server input caller rest lm).lifecycle
unfolding start_grpc_server
start_grpc_server-KeepsListeners Input.refused caller rest lm v = v
start_grpc_server-KeepsListeners _ caller rest lm v = v

pub run_action-KeepsListeners :
    (now : ℕ) (input : Input) (action : Action) (rest : List Action) (lm : Lifecycle)
    → KeepsListeners lm (run_action now input action rest lm).lifecycle
unfolding run_action set_state
run_action-KeepsListeners now input (sending status) rest lm v =
    send_status-KeepsListeners status lm v
run_action-KeepsListeners now input (starting_grpc caller) rest lm v =
    start_grpc_server-KeepsListeners input caller rest lm v
run_action-KeepsListeners now input _ rest lm v = v
