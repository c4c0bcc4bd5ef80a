-- ===== src/Workflow/Streaming/Closing.antt =====
-- streamer.go: a channel is closed once, and nothing is sent to it afterwards; either would panic.
use open_machine_core.Prelude.{ℕ, ◌+◌, ◌≤◌, List, [], ◌∷◌, ◌≡◌, ◌≢◌, refl, ==_iff, Uuid, map, arith}
use open_machine_core.Prelude.Channels.{
  Channel, remove, occurs, occurs-append, occurs-send, occurs-remove,
}
use open_machine_core.Workflow.Streaming.{
  Streamer, capacity, new_event_streamer, subscribe, unsubscribe, offer, broadcast,
}

pub data Operation (E : Type 0) : Type 0 where
  subscribing : Uuid → Operation E
  unsubscribing : Uuid → ℕ → Operation E
  broadcasting : Uuid → E → Operation E

module _ {E : Type 0} where
  unfoldable pub run_operation : Operation E → Streamer E → Streamer E
  run_operation (subscribing id) s = (subscribe id s).1
  run_operation (unsubscribing id ch) s = unsubscribe id ch s
  run_operation (broadcasting id event) s = broadcast id event s

  unfoldable pub run_operations : List (Operation E) → Streamer E → Streamer E
  run_operations [] s = s
  run_operations (o ∷ os) s = run_operations os (run_operation o s)

  -- A channel subscribes once, to one execution, and not any more once it is closed.
  pub record IsValid (s : Streamer E) : Type 0 where
    pub once : (n : ℕ) (id : Uuid) → occurs n (s.subscribers id) + occurs n s.closed ≤ 1
    pub apart :
        (n : ℕ) (id other : Uuid)
        → id ≢ other
        → occurs n (s.subscribers id) + occurs n (s.subscribers other) ≤ 1
    pub fresh :
        (n : ℕ) (id : Uuid)
        → s.next ≤ n
        → (occurs n (s.subscribers id) ≡ 0) × (occurs n s.closed ≡ 0)

  pub new_event_streamer-IsValid : IsValid new_event_streamer
  unfolding new_event_streamer occurs
  new_event_streamer-IsValid = record {
    once = λ n id. omega arith;
    apart = λ n id other d. omega arith;
    fresh = λ n id h. (refl, refl);
  }

  occurs-offer :
      (n : ℕ) (event : E) (cs : List (Channel E))
      → occurs n (map (λ c. offer event c) cs) ≡ occurs n cs
  unfolding offer
  occurs-offer n event cs = occurs-send n capacity event cs

  subscribe-IsValid : (id : Uuid) (s : Streamer E) → IsValid s → IsValid (subscribe id s).1
  unfolding subscribe occurs
  subscribe-IsValid id s v = record {
    once = λ n k. ground (
      arith,
      occurs-append n (s.subscribers id) (record { number = s.next; buffer = [] } ∷ []),
      v.once n k,
      v.once n id,
      v.fresh n id,
      ==_iff k id,
    );
    apart = λ n k j d. ground (
      arith,
      occurs-append n (s.subscribers id) (record { number = s.next; buffer = [] } ∷ []),
      v.apart n k j d,
      v.apart n id j,
      v.apart n k id,
      v.fresh n id,
      v.fresh n k,
      v.fresh n j,
      ==_iff k id,
      ==_iff j id,
    );
    fresh = λ n k h. ground (
      arith,
      occurs-append n (s.subscribers id) (record { number = s.next; buffer = [] } ∷ []),
      v.fresh n k,
      v.fresh n id,
      h,
    );
  }

  unsubscribe-IsValid :
      (id : Uuid) (ch : ℕ) (s : Streamer E) → IsValid s → IsValid (unsubscribe id ch s)
  unfolding unsubscribe
  unsubscribe-IsValid id ch s v = record {
    once = λ n k. ground (
      arith,
      occurs-remove n ch (s.subscribers id),
      occurs-append n (remove ch (s.subscribers id)).1 s.closed,
      v.once n k,
      v.once n id,
      v.apart n k id,
      ==_iff k id,
    );
    apart = λ n k j d. ground (
      arith,
      occurs-remove n ch (s.subscribers id),
      occurs-append n (remove ch (s.subscribers id)).1 s.closed,
      v.apart n k j d,
      v.apart n id j,
      v.apart n k id,
      ==_iff k id,
      ==_iff j id,
    );
    fresh = λ n k h. ground (
      arith,
      occurs-remove n ch (s.subscribers id),
      occurs-append n (remove ch (s.subscribers id)).1 s.closed,
      v.fresh n k h,
      v.fresh n id h,
    );
  }

  broadcast-IsValid :
      (id : Uuid) (event : E) (s : Streamer E) → IsValid s → IsValid (broadcast id event s)
  unfolding broadcast
  broadcast-IsValid id event s v = record {
    once = λ n k.
        ground
          (arith, occurs-offer n event (s.subscribers id), v.once n k, v.once n id, ==_iff k id);
    apart = λ n k j d. ground (
      arith,
      occurs-offer n event (s.subscribers id),
      v.apart n k j d,
      v.apart n id j,
      v.apart n k id,
      ==_iff k id,
      ==_iff j id,
    );
    fresh = λ n k h.
        ground (arith, occurs-offer n event (s.subscribers id), v.fresh n k h, v.fresh n id h);
  }

  run_operation-IsValid :
      (o : Operation E) (s : Streamer E) → IsValid s → IsValid (run_operation o s)
  unfolding run_operation
  run_operation-IsValid (subscribing id) s v = subscribe-IsValid id s v
  run_operation-IsValid (unsubscribing id ch) s v = unsubscribe-IsValid id ch s v
  run_operation-IsValid (broadcasting id event) s v = broadcast-IsValid id event s v

  -- Subscribing, unsubscribing and broadcasting keep it true that a channel is subscribed at most
  -- once, to one execution, and is not subscribed once it is closed, and that the next channel is
  -- a new one: so none is closed twice, and no event is sent to a closed one.
  pub run_operations-IsValid :
      (os : List (Operation E)) (s : Streamer E) → IsValid s → IsValid (run_operations os s)
  unfolding run_operations
  run_operations-IsValid [] s v = v
  run_operations-IsValid (o ∷ os) s v =
      run_operations-IsValid os (run_operation o s) (run_operation-IsValid o s v)
