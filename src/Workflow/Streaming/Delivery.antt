-- ===== src/Workflow/Streaming/Delivery.antt =====
-- streamer.go: which events a subscriber gets.
use open_machine_core.Prelude.{
  ℕ, List, [], ◌∷◌, ◌++◌, ◌≡◌, ◌≢◌, refl, sym, ap, ◌∙◌, ==_iff, take, Uuid, map, arith,
}
use open_machine_core.Prelude.Channels.{Channel, send_all, send_all-take, send_all-number}
use open_machine_core.Workflow.Streaming.{Streamer, capacity, subscribe, offer, broadcast}

module _ {E : Type 0} where
  -- Broadcasting events one after the other.
  unfoldable pub broadcast_all : Uuid → List E → Streamer E → Streamer E
  broadcast_all id [] s = s
  broadcast_all id (event ∷ events) s = broadcast_all id events (broadcast id event s)

  map_append :
      (f : Channel E → Channel E) (xs ys : List (Channel E))
      → map f (xs ++ ys) ≡ map f xs ++ map f ys
  map_append f [] ys = refl
  map_append f (x ∷ xs) ys = ap (λ (r : List (Channel E)). f x ∷ r) (map_append f xs ys)

  map_compose :
      (f g : Channel E → Channel E) (xs : List (Channel E))
      → map f (map g xs) ≡ map (λ c. f (g c)) xs
  map_compose f g [] = refl
  map_compose f g (x ∷ xs) = ap (λ (r : List (Channel E)). f (g x) ∷ r) (map_compose f g xs)

  map_id : (xs : List (Channel E)) → map (λ c. c) xs ≡ xs
  map_id [] = refl
  map_id (x ∷ xs) = ap (λ (r : List (Channel E)). x ∷ r) (map_id xs)

  broadcast-at :
      (id : Uuid) (event : E) (s : Streamer E)
      → (broadcast id event s).subscribers id ≡ map (λ c. offer event c) (s.subscribers id)
  unfolding broadcast
  broadcast-at id event s = ground (arith, ==_iff id id)

  broadcast-other :
      (id other : Uuid) (event : E) (s : Streamer E)
      → other ≢ id
      → (broadcast id event s).subscribers other ≡ s.subscribers other
  unfolding broadcast
  broadcast-other id other event s n = ground (arith, ==_iff other id)

  -- Every subscriber of the execution is sent every event, and no other channel changes.
  pub broadcast_all-subscribers :
      (id : Uuid) (events : List E) (s : Streamer E)
      → ((broadcast_all id events s).subscribers id
          ≡ map (λ c. send_all capacity events c) (s.subscribers id))
        × ((other : Uuid)
            → other ≢ id
            → (broadcast_all id events s).subscribers other ≡ s.subscribers other)
        × ((broadcast_all id events s).closed ≡ s.closed)
  unfolding broadcast_all send_all offer broadcast
  broadcast_all-subscribers id [] s = (sym (map_id (s.subscribers id)), λ other n. refl, refl)
  broadcast_all-subscribers id (event ∷ events) s =
      let r = broadcast_all-subscribers id events (broadcast id event s) in
      (
        r.0
            ∙ ap (λ (cs : List (Channel E)). map (λ c. send_all capacity events c) cs)
                (broadcast-at id event s)
            ∙ map_compose (λ c. send_all capacity events c) (λ c. offer event c) (s.subscribers id),
        λ other n. r.1 other n ∙ broadcast-other id other event s n,
        r.2,
      )

  fresh : ℕ → List E → Channel E
  fresh n b = record { number = n; buffer = b }

  send_all-fresh :
      (n : ℕ) (events : List E)
      → send_all capacity events (fresh n []) ≡ fresh n (take capacity events)
  unfolding fresh
  send_all-fresh n events =
      let c = send_all capacity events (fresh n []) in
      ap (λ b. fresh c.number b) (send_all-take capacity events (fresh n []) (omega arith))
      ∙ ap (λ m. fresh m (take capacity events)) (send_all-number capacity events (fresh n []))

  subscribe-at :
      (id : Uuid) (s : Streamer E)
      → (subscribe id s).1.subscribers id ≡ s.subscribers id ++ fresh s.next [] ∷ []
  unfolding subscribe fresh
  subscribe-at id s = ground (arith, ==_iff id id)

  -- A new subscriber that does not read meanwhile holds the first 100 of the events broadcast for
  -- its execution, in their order; those that subscribed before it are still sent every event.
  pub subscribe-broadcast_all :
      (id : Uuid) (events : List E) (s : Streamer E)
      → (broadcast_all id events (subscribe id s).1).subscribers id
        ≡ map (λ c. send_all capacity events c) (s.subscribers id)
          ++ record { number = s.next; buffer = take capacity events } ∷ []
  unfolding fresh
  subscribe-broadcast_all id events s =
      (broadcast_all-subscribers id events (subscribe id s).1).0
      ∙ ap (λ (cs : List (Channel E)). map (λ c. send_all capacity events c) cs) (subscribe-at id s)
      ∙ map_append (λ c. send_all capacity events c) (s.subscribers id) (fresh s.next [] ∷ [])
      ∙ ap (λ c. map (λ c. send_all capacity events c) (s.subscribers id) ++ c ∷ [])
          (send_all-fresh s.next events)
