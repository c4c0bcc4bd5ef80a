-- ===== src/Workflow/Streaming.antt =====
-- internal/workflow/streaming/streamer.go: subscribers of the events of executions. The map is a
-- function, nil where no key was set. A channel is known by a number that `make` has not given
-- before; one that was closed is kept aside, as its reader still holds it.
pub mod Delivery
pub mod Closing
use open_machine_core.Prelude.{ℕ, suc, List, [], ◌∷◌, ◌++◌, ◌==◌, if◌then◌else◌, Uuid, map}
use open_machine_core.Prelude.Channels.{Channel, send, remove}

pub record Streamer (E : Type 0) : Type 0 where
  pub subscribers : Uuid → List (Channel E)
  pub closed : List (Channel E)
  pub next : ℕ  -- the number of the next channel

-- the capacity of a channel
abbrev pub capacity : ℕ
capacity = 100

module _ {E : Type 0} where
  -- m[key] = v
  abbrev pub set_key : Uuid → List (Channel E) → (Uuid → List (Channel E)) → Uuid → List (Channel E)
  set_key key v m k = if k == key then v else m k

  unfoldable pub new_event_streamer : Streamer E
  new_event_streamer = record { subscribers = λ _. []; closed = []; next = 0 }

  unfoldable pub subscribe : Uuid → Streamer E → ℕ × Streamer E
  subscribe execution_id s = (
    s.next,
    record s {
      subscribers =
          set_key execution_id
            (s.subscribers execution_id ++ record { number = s.next; buffer = [] } ∷ [])
            s.subscribers;
      next = suc s.next;
    },
  )

  unfoldable pub unsubscribe : Uuid → ℕ → Streamer E → Streamer E
  unfolding remove
  unsubscribe execution_id ch s =
      let (rest, found) = remove ch (s.subscribers execution_id) in
      record s { subscribers = set_key execution_id rest s.subscribers; closed = found ++ s.closed }

  -- a send that is skipped when the channel is full
  unfoldable pub offer : E → Channel E → Channel E
  offer event c = send capacity event c

  unfoldable pub broadcast : Uuid → E → Streamer E → Streamer E
  unfolding offer
  broadcast execution_id event s = record s {
    subscribers =
        set_key execution_id (map (λ c. offer event c) (s.subscribers execution_id)) s.subscribers;
  }
