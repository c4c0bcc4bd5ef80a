-- ===== src/Websocket.antt =====
-- internal/api/websocket/hub.go, client.go and messages.go: the hub and its clients. The hub's map of
-- clients is a flag of each client. A client is known by its place in the list of all that there were;
-- its goroutine `readPump` is a place in the code, its `writePump` a flag. A step is what happens
-- between two operations on a channel. Deadlines and pings show as failed reads and writes.
pub mod Messages
pub mod Safety
pub mod Runs
pub mod Delivery
pub mod Exposure
use open_machine_core.Prelude.{
  ℕ, suc, ◌+◌, String, List, [], ◌∷◌, ◌++◌, Bool, true, false, not, Option, none, some, str_eq, ltb,
  length, get_elem?, set, if◌then◌else◌,
}
use open_machine_core.Prelude.Outcome.{Outcome, ok, err, panic, ◌>>=◌}
use open_machine_core.Auth.{Permission}

-- What is sent to a client: the answers of the handshake, the machine's status, and broadcasts.
pub data Outgoing (E : Type 0) : Type 0 where
  auth_success : List Permission → Outgoing E
  auth_failed : String → Outgoing E
  machine_status : Outgoing E
  broadcasted : E → Outgoing E

-- `readPump` waits for a message, or is about to send the answer of the handshake, to register, to
-- send the machine's status, or to unregister; or it has ended.
pub data Pump : Type 0 where
  reading : Pump
  authorizing : List Permission → Pump
  failing : String → Pump
  registering informing leaving ended : Pump

pub record Client (E : Type 0) : Type 0 where
  pub registered : Bool  -- whether the hub's map has it
  pub buffer : List (Outgoing E)  -- what is in the channel `send`
  pub closed : Bool  -- whether that channel is closed
  pub authenticated : Bool
  pub permissions : List Permission
  pub pump : Pump
  pub writing : Bool  -- whether `writePump` runs
  pub written : List (Outgoing E)  -- what it has written, in order

pub record Hub (E : Type 0) : Type 0 where
  pub clients : List (Client E)
  pub broadcasts : List E  -- the channel `broadcast`
  pub provider : Bool  -- whether there is a provider of the machine's status

-- The fields of a message from a client that are texts.
pub record Incoming : Type 0 where
  pub message_type : Option String
  pub token : Option String

abbrev pub send_buffer_size : ℕ
send_buffer_size = 256

abbrev pub broadcast_buffer_size : ℕ
broadcast_buffer_size = 256

abbrev pub is_auth : Option String → Bool
is_auth none = false
is_auth (some t) = str_eq t "auth"

module _ {E : Type 0} where
  unfoldable pub new_hub : Hub E
  new_hub = record { clients = []; broadcasts = []; provider = false }

  unfoldable pub set_machine_status_provider : Hub E → Hub E
  set_machine_status_provider h = record h { provider = true }

  -- A new connection is registered before its pumps start.
  abbrev pub new_client : Client E
  new_client = record {
    registered = true;
    buffer = [];
    closed = false;
    authenticated = false;
    permissions = [];
    pump = reading;
    writing = true;
    written = [];
  }

  unfoldable pub serve_ws : Hub E → Hub E
  serve_ws h = record h { clients = h.clients ++ new_client ∷ [] }

  -- A send that waits while the channel is full, and panics when it is closed.
  abbrev pub send : Outgoing E → Pump → Client E → Outcome (Unit {0}) (Client E)
  send message next c =
      if c.closed
      then panic
      else if ltb (length c.buffer) send_buffer_size
      then ok (record c { buffer = c.buffer ++ message ∷ []; pump = next })
      else ok c

  unfoldable pub register : Client E → Client E
  register c = record c { registered = true; pump = informing }

  -- The deferred unregistration; closing a closed channel panics.
  unfoldable pub unregister : Client E → Outcome (Unit {0}) (Client E)
  unregister c =
      if c.registered
      then if c.closed
        then panic
        else ok (record c { registered = false; closed = true; pump = ended })
      else ok (record c { pump = ended })

  -- The answer of ValidateToken: the permissions, or an error.
  abbrev pub authorized : Option (List Permission) → Client E → Client E
  authorized none c = record c { pump = failing "Invalid or expired token" }
  authorized (some permissions) c = record c {
    authenticated = true;
    permissions = permissions;
    pump = authorizing permissions;
  }

  abbrev pub with_token : (String → Option (List Permission)) → Option String → Client E → Client E
  with_token validate_token none c = record c { pump = failing "Missing token in auth message" }
  with_token validate_token (some token) c =
      if str_eq token ""
      then record c { pump = failing "Missing token in auth message" }
      else authorized (validate_token token) c

  -- A message has been read. Those of an authenticated client are logged and dropped.
  unfoldable pub receive : (String → Option (List Permission)) → Incoming → Client E → Client E
  receive validate_token message c =
      if c.authenticated
      then c
      else if not (is_auth message.message_type)
      then record c { pump = failing "First message must be authentication" }
      else with_token validate_token message.token c

  abbrev pub received : (String → Option (List Permission)) → Incoming → Pump → Client E → Client E
  received validate_token message reading c = receive validate_token message c
  received validate_token message _ c = c

  abbrev pub read_failed : Pump → Client E → Client E
  read_failed reading c = record c { pump = leaving }
  read_failed _ c = c

  -- The next operation of `readPump` on a channel.
  abbrev pub pumped : Bool → Pump → Client E → Outcome (Unit {0}) (Client E)
  pumped provider reading c = ok c
  pumped provider (authorizing permissions) c = send (auth_success permissions) registering c
  pumped provider (failing reason) c = send (auth_failed reason) leaving c
  pumped provider registering c = ok (register c)
  pumped provider informing c =
      if provider then send machine_status reading c else ok (record c { pump = reading })
  pumped provider leaving c = unregister c
  pumped provider ended c = ok c

  -- `writePump` writes a message and all that are queued behind it, or sees the channel closed.
  abbrev pub wrote : List (Outgoing E) → Client E → Client E
  wrote [] c = if c.closed then record c { writing = false } else c
  wrote (m ∷ ms) c = record c { buffer = []; written = c.written ++ m ∷ ms }

  unfoldable pub write_pump : Client E → Client E
  write_pump c = if c.writing then wrote c.buffer c else c

  -- A message whose writer cannot be opened is lost.
  abbrev pub without_first : List (Outgoing E) → List (Outgoing E)
  without_first [] = []
  without_first (m ∷ ms) = ms

  unfoldable pub write_failed : Client E → Client E
  write_failed c =
      if c.writing then record c { writing = false; buffer = without_first c.buffer } else c

  -- The loop over the clients, of the hub's third case.
  abbrev pub deliver_to : E → Client E → Outcome (Unit {0}) (Client E)
  deliver_to message c =
      if not c.registered
      then ok c
      else if c.closed
      then panic
      else if ltb (length c.buffer) send_buffer_size
      then ok (record c { buffer = c.buffer ++ broadcasted message ∷ [] })
      else ok (record c { registered = false; closed = true })

  unfoldable pub deliver : E → List (Client E) → Outcome (Unit {0}) (List (Client E))
  deliver message [] = ok []
  deliver message (c ∷ cs) = deliver_to message c >>= λ d. deliver message cs >>= λ ds. ok (d ∷ ds)

  abbrev delivered : List E → Hub E → Outcome (Unit {0}) (Hub E)
  delivered [] h = ok h
  delivered (message ∷ messages) h = deliver message h.clients >>= λ clients.
      ok (record h { clients = clients; broadcasts = messages })

  -- Broadcast: a message is dropped when the hub's channel is full.
  unfoldable pub broadcast : E → Hub E → Hub E
  broadcast message h =
      if ltb (length h.broadcasts) broadcast_buffer_size
      then record h { broadcasts = h.broadcasts ++ message ∷ [] }
      else h

  abbrev count_registered : List (Client E) → ℕ
  count_registered [] = 0
  count_registered (c ∷ cs) = (if c.registered then 1 else 0) + count_registered cs

  unfoldable pub get_client_count : Hub E → ℕ
  get_client_count h = count_registered h.clients

  abbrev pub at :
      Hub E
      → ℕ
      → Option (Client E)
      → (Client E → Outcome (Unit {0}) (Client E))
      → Outcome (Unit {0}) (Hub E)
  at h i none f = ok h
  at h i (some c) f = f c >>= λ d. ok (record h { clients = set h.clients i d })

-- What happens: a connection, a call of `Broadcast`, a turn of the hub, or of a client's pumps.
pub data Event (E : Type 0) : Type 0 where
  connects delivers : Event E
  broadcasts : E → Event E
  reads : ℕ → Incoming → Event E
  fails_to_read pumps writes fails_to_write : ℕ → Event E

module _ {E : Type 0} (validate_token : String → Option (List Permission)) where
  unfoldable pub step : Event E → Hub E → Outcome (Unit {0}) (Hub E)
  unfolding serve_ws deliver broadcast receive register unregister write_pump write_failed
  step connects h = ok (serve_ws h)
  step delivers h = delivered h.broadcasts h
  step (broadcasts message) h = ok (broadcast message h)
  step (reads i message) h =
      at h i (get_elem? h.clients i) (λ c. ok (received validate_token message c.pump c))
  step (fails_to_read i) h = at h i (get_elem? h.clients i) (λ c. ok (read_failed c.pump c))
  step (pumps i) h = at h i (get_elem? h.clients i) (λ c. pumped h.provider c.pump c)
  step (writes i) h = at h i (get_elem? h.clients i) (λ c. ok (write_pump c))
  step (fails_to_write i) h = at h i (get_elem? h.clients i) (λ c. ok (write_failed c))

  unfoldable pub run : List (Event E) → Hub E → Outcome (Unit {0}) (Hub E)
  unfolding step
  run [] h = ok h
  run (e ∷ es) h = step e h >>= run es
