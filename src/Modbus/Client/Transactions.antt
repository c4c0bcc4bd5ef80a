-- ===== src/Modbus/Client/Transactions.antt =====
-- client.go: transaction ids, the connection invariant and the error paths of `SendFrame`.
use open_machine_core.Prelude.{
  ℕ, String, ◌+◌, ◌<◌, ◌≡◌, ◌≢◌, refl, List, [], ◌∷◌, Bool, true, false, Option, none, some, arith,
  uint16, IsWord, take, length, ◌∙◌, uint16_at, ap, ◌*◌, ◌/◌, ◌%◌,
}
use open_machine_core.Prelude.Outcome.{ok, panic}
use open_machine_core.Modbus.Frame.{ModbusFrame, decode_frame, encode}
use open_machine_core.Modbus.Frame.Codec.{decode-ne-panic, encode-mbap}
use open_machine_core.Modbus.Client.{
  Client, Peer, Exchange, write_fails, read_fails, received, receive, connect, close, send_frame,
  new_client, response_buffer_size,
}

-- The client holds a socket exactly while it is connected, and its counter is a uint16.
pub record IsValid (c : Client) : Type 0 where
  pub socket : c.connected ≡ true → c.conn ≢ none
  pub no_socket : c.connected ≡ false → c.conn ≡ none
  pub counter : IsWord c.transaction_id

pub data Operation : Type 0 where
  connecting : Option ℕ → Operation
  closing : Bool → Operation
  sending : Peer → ModbusFrame → Operation

pub run_operation : Operation → Client → Client
run_operation (connecting dial) c = (connect dial c).0
run_operation (closing fails) c = (close fails c).0
run_operation (sending peer request) c = (send_frame peer request c).0

pub new_client-IsValid : (address : String) → IsValid (new_client address)
unfolding new_client
new_client-IsValid address = ground arith

-- Connecting, closing and sending keep it true that the client holds a socket exactly while it is
-- connected and that its counter is a uint16.
pub run_operation-IsValid : (o : Operation) (c : Client) → IsValid c → IsValid (run_operation o c)
unfolding run_operation connect close send_frame
run_operation-IsValid (connecting none) c v = ground arith
run_operation-IsValid (connecting (some socket)) c v = ground arith
run_operation-IsValid (closing fails) c v = ground arith
run_operation-IsValid (sending peer request) c v = ground arith

receive-ne-panic : (n : ℕ) (e : Exchange) → receive n e ≢ panic
receive-ne-panic n write_fails h = cc
receive-ne-panic n read_fails h = cc
receive-ne-panic n (received bytes) h =
    ground (arith, decode-ne-panic (take response_buffer_size bytes))

receive-eq-ok :
    (n : ℕ) (e : Exchange) (response : ModbusFrame)
    → receive n e ≡ ok response
    → (bytes : List ℕ) × (e ≡ received bytes)
      × (decode_frame (take response_buffer_size bytes) ≡ ok response)
      × (response.transaction_id ≡ n)
receive-eq-ok n write_fails response h = cc
receive-eq-ok n read_fails response h = cc
receive-eq-ok n (received bytes) response h = (bytes, refl, ground arith, ground arith)

-- A client that holds a socket exactly while it is connected never panics on sending, whatever
-- the peer answers.
pub send_frame-ne-panic :
    (peer : Peer) (request : ModbusFrame) (c : Client)
    → IsValid c
    → (send_frame peer request c).1 ≢ panic
unfolding send_frame
send_frame-ne-panic peer request c v h =
    let sent = record request { transaction_id = uint16 (c.transaction_id + 1) } in
    ground (arith, receive-ne-panic sent.transaction_id (peer (encode sent).1))

-- A response that the client accepts was received for this request: it decodes the bytes that the
-- peer answered, and its id is the id that was just sent.
pub send_frame-eq-ok :
    (peer : Peer) (request response : ModbusFrame) (c : Client)
    → (send_frame peer request c).1 ≡ ok response
    → let sent = record request { transaction_id = uint16 (c.transaction_id + 1) } in
      (bytes : List ℕ) × (peer (encode sent).1 ≡ received bytes)
      × (decode_frame (take response_buffer_size bytes) ≡ ok response)
      × (response.transaction_id ≡ uint16 (c.transaction_id + 1))
unfolding send_frame
send_frame-eq-ok peer request response c h =
    let sent = record request { transaction_id = uint16 (c.transaction_id + 1) } in
    receive-eq-ok sent.transaction_id (peer (encode sent).1) response (ground arith)

pub send_all : List (Peer × ModbusFrame) → Client → Client
send_all [] c = c
send_all ((peer, request) ∷ rest) c = send_all rest (send_frame peer request c).0

-- While connected, every request takes the next id, so request k of a run carries id + k.
send_all_lem :
    (requests : List (Peer × ModbusFrame)) (c : Client)
    → IsWord c.transaction_id
    → c.connected ≡ true
    → (send_all requests c).transaction_id ≡ uint16 (c.transaction_id + length requests)
unfolding send_all send_frame
send_all_lem [] c w k = omega arith
send_all_lem ((peer, request) ∷ rest) c w k =
    ground (arith, send_all_lem rest (send_frame peer request c).0)

send_all-connected :
    (requests : List (Peer × ModbusFrame)) (c : Client)
    → (send_all requests c).connected ≡ c.connected
unfolding send_all send_frame
send_all-connected [] c = refl
send_all-connected ((peer, request) ∷ rest) c =
    ground (arith, send_all-connected rest (send_frame peer request c).0)

pub send_frame-keeps :
    (peer : Peer) (request : ModbusFrame) (c : Client)
    → ((send_frame peer request c).0.connected ≡ c.connected)
      × ((send_frame peer request c).0.conn ≡ c.conn)
unfolding send_frame
send_frame-keeps peer request c = ground arith

-- the id that the bytes of the latest request carry
abbrev pub sent_id : Client → Option ℕ
sent_id c = id_of c.sent
  where
    id_of : List (List ℕ) → Option ℕ
    id_of [] = none
    id_of (bytes ∷ before) = uint16_at bytes 0

two_bytes : (w : ℕ) → w / 256 * 256 + w % 256 ≡ w
two_bytes w = omega arith

uint16_at-encode : (f : ModbusFrame) → uint16_at (encode f).1 0 ≡ some f.transaction_id
unfolding encode
uint16_at-encode f = rw (encode-mbap f) (ap some (two_bytes f.transaction_id))

sent_id-send_frame :
    (peer : Peer) (request : ModbusFrame) (c : Client)
    → c.connected ≡ true
    → sent_id (send_frame peer request c).0 ≡ some (uint16 (c.transaction_id + 1))
unfolding send_frame
sent_id-send_frame peer request c up = rw up (uint16_at-encode _)

-- On a connected client whose counter is a uint16, two requests with fewer than 65535 requests
-- between them carry different transaction ids in the bytes that they write.
pub transaction_ids_differ :
    (earlier between : List (Peer × ModbusFrame)) (p q : Peer) (first second : ModbusFrame)
    (c : Client)
    → IsWord c.transaction_id
    → c.connected ≡ true
    → length between < 65535
    → let once : Client = (send_frame p first (send_all earlier c)).0 in
      (m n : ℕ) × (sent_id once ≡ some m)
      × (sent_id (send_frame q second (send_all between once)).0 ≡ some n)
      × (m ≢ n)
unfolding send_frame send_all
transaction_ids_differ earlier between p q first second c w k few =
    let start : Client = send_all earlier c in
    let once : Client = (send_frame p first start).0 in
    let up : start.connected ≡ true = send_all-connected earlier c ∙ k in
    let still : once.connected ≡ true = (send_frame-keeps p first start).0 ∙ up in
    let id = send_all_lem ((p, first) ∷ []) start (omega (arith, send_all_lem earlier c w k)) up in
    let next = send_all_lem between once (omega (arith, id)) still in
    (
      _,
      _,
      sent_id-send_frame p first start up,
      sent_id-send_frame q second (send_all between once) (send_all-connected between once ∙ still),
      λ e. omega (arith, id, next, e),
    )
