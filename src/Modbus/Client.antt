-- ===== src/Modbus/Client.antt =====
-- internal/modbus/client.go. The network enters as arguments: `dial` is the socket that
-- `net.DialTimeout` opens, if it does, `close_fails` tells of `conn.Close`, and `peer` says, for the
-- bytes that are written, how the exchange ends (a deadline that passes is a failed write or read).
pub mod Transactions
pub mod Server
use open_machine_core.Prelude.{
  ℕ, ◌+◌, String, List, [], ◌∷◌, Bool, true, false, not, Option, none, some, ◌==◌, if◌then◌else◌,
  take, uint16,
}
use open_machine_core.Prelude.Outcome.{Outcome, ok, err, panic, ◌>>=◌, wrap_err}
use open_machine_core.Modbus.Frame.{
  ModbusFrame, FrameError, encode, decode_frame, parse_register_response,
  read_holding_registers_request, read_input_registers_request, write_single_register_request,
}

pub record Client : Type 0 where
  pub address : String
  pub conn : Option ℕ  -- the socket
  pub transaction_id : ℕ  -- uint16
  pub connected : Bool
  pub sent : List (List ℕ)  -- what `conn.Write` was given, the latest first

pub data Exchange : Type 0 where
  write_fails : Exchange
  read_fails : Exchange
  received : List ℕ → Exchange

abbrev pub Peer : Type 0
Peer = List ℕ → Exchange

pub data ClientError : Type 0 where
  connection_failed : ClientError
  close_failed : ClientError
  not_connected : ClientError
  write_failed : ClientError
  read_failed : ClientError
  decode_failed : FrameError → ClientError
  transaction_id_mismatch : ℕ → ℕ → ClientError
  bad_response : FrameError → ClientError

unfoldable pub new_client : String → Client
new_client address = record {
  address = address;
  conn = none;
  transaction_id = 0;
  connected = false;
  sent = [];
}

abbrev dialled : Option ℕ → Client → Client × Outcome ClientError (Unit {0})
dialled none c = (c, err connection_failed)
dialled (some socket) c = (record c { conn = some socket; connected = true }, ok tt)

unfoldable pub connect : Option ℕ → Client → Client × Outcome ClientError (Unit {0})
connect dial c = if c.connected then (c, ok tt) else dialled dial c

-- Closing a nil connection would panic.
abbrev closed : Option ℕ → Bool → Client → Client × Outcome ClientError (Unit {0})
closed none close_fails c = (c, panic)
closed (some socket) close_fails c =
    (record c { connected = false; conn = none }, if close_fails then err close_failed else ok tt)

unfoldable pub close : Bool → Client → Client × Outcome ClientError (Unit {0})
close close_fails c = if not c.connected then (c, ok tt) else closed c.conn close_fails c

-- The read buffer has 260 bytes.
abbrev pub response_buffer_size : ℕ
response_buffer_size = 260

abbrev check_transaction : ℕ → ModbusFrame → Outcome ClientError ModbusFrame
check_transaction expected response =
    if not (response.transaction_id == expected)
    then err (transaction_id_mismatch expected response.transaction_id)
    else ok response

abbrev receive : ℕ → Exchange → Outcome ClientError ModbusFrame
receive expected write_fails = err write_failed
receive expected read_fails = err read_failed
receive expected (received bytes) =
    wrap_err decode_failed (decode_frame (take response_buffer_size bytes))
    >>= check_transaction expected

abbrev exchange : Option ℕ → Peer → ModbusFrame → Outcome ClientError ModbusFrame
exchange none peer request = panic
exchange (some socket) peer request = receive request.transaction_id (peer (encode request).1)

unfoldable pub send_frame : Peer → ModbusFrame → Client → Client × Outcome ClientError ModbusFrame
send_frame peer request c =
    if not c.connected
    then (c, err not_connected)
    else let request' = record request { transaction_id = uint16 (c.transaction_id + 1) } in
      (
        record c { transaction_id = request'.transaction_id; sent = (encode request').1 ∷ c.sent },
        exchange c.conn peer request',
      )

abbrev registers_of : Outcome ClientError ModbusFrame → Outcome ClientError (List ℕ)
registers_of r = r >>= λ response. wrap_err bad_response (parse_register_response response)

unfoldable pub read_holding_registers :
    Peer → ℕ → ℕ → ℕ → Client → Client × Outcome ClientError (List ℕ)
unfolding send_frame read_holding_registers_request
read_holding_registers peer unit_id start_addr quantity c =
    let (c', r) =
      send_frame peer (read_holding_registers_request 0 unit_id start_addr quantity) c in
    (c', registers_of r)

unfoldable pub read_input_registers :
    Peer → ℕ → ℕ → ℕ → Client → Client × Outcome ClientError (List ℕ)
unfolding send_frame read_input_registers_request
read_input_registers peer unit_id start_addr quantity c =
    let (c', r) = send_frame peer (read_input_registers_request 0 unit_id start_addr quantity) c in
    (c', registers_of r)

unfoldable pub write_single_register :
    Peer → ℕ → ℕ → ℕ → Client → Client × Outcome ClientError (Unit {0})
unfolding send_frame write_single_register_request
write_single_register peer unit_id addr value c =
    let (c', r) = send_frame peer (write_single_register_request 0 unit_id addr value) c in
    (c', r >>= λ _. ok tt)
