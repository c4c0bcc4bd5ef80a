-- ===== src/Examples/Modbus.antt =====
-- Frames, clients, devices and pollers of internal/modbus at concrete values.
use open_machine_core.Prelude.{
  ℕ, ◌+◌, ◌*◌, ◌≡◌, ◌≢◌, refl, sym, subst, List, [], ◌∷◌, true, false, some, arith, inl, inr, take,
  uint16, ◌↔◌, Memᴰ, Memᴰ-cons,
}
use open_machine_core.Prelude.Int.{pos}
use open_machine_core.Prelude.Outcome.{ok, panic}
use open_machine_core.Prelude.Maps.{lookup}
use open_machine_core.Types.{RegisterType, DataType, AccessType, RegisterDefinition}
use open_machine_core.Modbus.Frame.{
  ModbusFrame, encode, decode_frame, read_holding_registers_request,
}
use open_machine_core.Modbus.Frame.Codec.{decode-encode}
use open_machine_core.Modbus.Client.{Client, Peer, received, send_frame, response_buffer_size}
use open_machine_core.Modbus.Client.Server.{Slave, serve}
use open_machine_core.Modbus.Client.Transactions
use open_machine_core.Modbus.Client.Transactions.{
  send_frame-eq-ok, send_all, transaction_ids_differ, sent_id,
}
use open_machine_core.Modbus.Device.{
  Device, uint16_value, read_register, write_register, convert_register_value,
  get_register_quantity,
}
use open_machine_core.Modbus.Device.Conversion.{IsWordRegister, read_register_empty}
use open_machine_core.Modbus.Device.Access.{obeyed, read_register-write_register}
use open_machine_core.Modbus.Poller.{Poller, new_poller, poll_device, is_polled, start, stop}
use open_machine_core.Modbus.Poller.Life.{start_poller, stop_poller, run, run_stopped, stops_again}
use open_machine_core.Modbus.Poller.Round.{IsFresh, slave_peer, poll_device-serve}
use open_machine_core.Examples.{whole}

abbrev frame : ModbusFrame
frame = record {
  transaction_id = 258;
  protocol_id = 0;
  length_field = 0;
  unit_id = 1;
  function_code = 3;
  data_bytes = 0 ∷ 107 ∷ 0 ∷ 3 ∷ [];
}

decode-encode_example : decode_frame (encode frame).1 ≡ ok (encode frame).0
decode-encode_example = decode-encode frame refl

-- A connected client whose counter is about to wrap.
abbrev client : Client
client = record {
  address = "10.0.0.5:502";
  conn = some 7;
  transaction_id = 65535;
  connected = true;
  sent = [];
}

client-IsValid : Transactions.IsValid client
client-IsValid = record { socket = λ _ e. cc; no_socket = λ e. cc; counter = omega arith }

abbrev slave : Slave
slave = record { holding = λ i. i + 100; input = λ i. i * 2 }

abbrev pub peer : Peer
peer = λ bytes. (serve slave bytes).1

abbrev echo : Peer
echo = λ bytes. received bytes

abbrev sent_frame : ModbusFrame
sent_frame = record frame { transaction_id = 0; length_field = 6 }

echoed : (send_frame echo frame client).1 ≡ ok sent_frame
unfolding send_frame encode decode_frame
echoed = refl

send_frame-eq-ok_example :
    (bytes : List ℕ) × (echo (encode (record frame { transaction_id = uint16 (65535 + 1) })).1
      ≡ received bytes)
    × (decode_frame (take response_buffer_size bytes) ≡ ok sent_frame)
    × (sent_frame.transaction_id ≡ uint16 (65535 + 1))
send_frame-eq-ok_example = send_frame-eq-ok echo frame sent_frame client echoed

abbrev once : Client
once = (send_frame echo frame (send_all ((echo, frame) ∷ []) client)).0

transaction_ids_differ_example :
    (m n : ℕ) × (sent_id once ≡ some m)
    × (sent_id (send_frame peer frame (send_all ((peer, frame) ∷ []) once)).0 ≡ some n)
    × (m ≢ n)
transaction_ids_differ_example =
    transaction_ids_differ ((echo, frame) ∷ []) ((peer, frame) ∷ []) echo peer frame frame client
      (omega arith) refl (omega arith)

-- A device with one register that is written and one that is only read.
abbrev setpoint : RegisterDefinition ℕ
setpoint = record {
  name = "setpoint";
  address = 40;
  register_type = RegisterType.holding_register;
  data_type = DataType.uint16;
  scale_factor = 1;
  unit = "rpm";
  access = AccessType.read_write;
  description = "";
}

abbrev level : RegisterDefinition ℕ
level = record setpoint {
  name = "level";
  address = 3;
  register_type = RegisterType.input_register;
  access = AccessType.read_only;
}

abbrev pub device : Device ℕ
device = record {
  name = "drive";
  profile = record {
    device_profile = record {
      id = "drive";
      vendor = "acme";
      model = "d1";
      version = "1.0";
      description = "";
    };
    connection = record {
      protocol = "modbus_tcp";
      port = pos 502;
      unit_id = pos 1;
      poll_interval_ms = pos 50;
      timeout_ms = pos 1000;
    };
    registers = setpoint ∷ level ∷ [];
    groups = [];
  };
  client = client;
  io_mapping = ("speed", "setpoint") ∷ [];
  register_map = ("setpoint", setpoint) ∷ ("level", level) ∷ [];
  last_values = [];
  connected = true;
}

setpoint_found : lookup "setpoint" device.register_map ≡ some setpoint
unfolding lookup
setpoint_found = refl

level_found : lookup "level" device.register_map ≡ some level
unfolding lookup
level_found = refl

abbrev written : Device ℕ
written = (write_register whole peer "setpoint" (uint16_value 9) device).0

read_register-write_register_example :
    (read_register whole
      (λ bytes. (serve (obeyed slave written.client.sent) bytes).1)
      "setpoint"
      written).1
    ≡ convert_register_value whole (9 ∷ []) DataType.uint16 1
read_register-write_register_example =
    read_register-write_register whole slave device "setpoint" setpoint setpoint_found {socket = 7}
      refl refl 9 refl refl refl

-- An answer that announces no bytes.
abbrev empty_peer : Peer
empty_peer = λ _. received (0 ∷ 0 ∷ 0 ∷ 0 ∷ 0 ∷ 3 ∷ 1 ∷ 3 ∷ 0 ∷ [])

abbrev empty_answer : ModbusFrame
empty_answer = record {
  transaction_id = 0;
  protocol_id = 0;
  length_field = 3;
  unit_id = 1;
  function_code = 3;
  data_bytes = 0 ∷ [];
}

empty_received :
    (send_frame empty_peer (read_holding_registers_request 0 1 40 1) device.client).1
    ≡ ok empty_answer
unfolding send_frame encode decode_frame read_holding_registers_request
empty_received = refl

read_register_empty_example : (read_register whole empty_peer "setpoint" device).1 ≡ panic
unfolding get_register_quantity
read_register_empty_example =
    read_register_empty whole device "setpoint" setpoint setpoint_found empty_peer empty_answer 0 []
      refl empty_received refl (omega arith) (omega arith)

mapped_at :
    (reg : RegisterDefinition ℕ)
    → Memᴰ reg device.profile.registers
    → (lookup reg.name device.register_map ≡ some reg) × IsWordRegister reg.register_type
mapped_at reg m = elim ((Memᴰ-cons reg setpoint (level ∷ [])).0 m) [
  | inl e ↦
      subst
        (λ (r : RegisterDefinition ℕ).
          (lookup r.name device.register_map ≡ some r) × IsWordRegister r.register_type)
        (sym e) (setpoint_found, inl refl)
  | inr m' ↦ elim ((Memᴰ-cons reg level []).0 m') [
    | inl e ↦
        subst
          (λ (r : RegisterDefinition ℕ).
            (lookup r.name device.register_map ≡ some r) × IsWordRegister r.register_type)
          (sym e) (level_found, inr refl)
    | inr m'' ↦ elim m'' [ ]
  ]
]

poll_device-serve_example :
    (d' : Device ℕ) × (poll_device whole (slave_peer whole slave) device ≡ ok d')
    × ((reg : RegisterDefinition ℕ)
        → Memᴰ reg device.profile.registers
        → is_polled whole reg.access ≡ true
        → IsFresh whole slave d' reg)
poll_device-serve_example =
    poll_device-serve whole slave device
      (record { up = refl; open_conn = λ e. cc; mapped = λ reg m. mapped_at reg m })

abbrev once_stopped : Poller
once_stopped = record { running = false; stop_closed = true; loops = 0 }

ran : run (start_poller ∷ start_poller ∷ stop_poller ∷ []) new_poller ≡ ok once_stopped
unfolding run new_poller start stop
ran = refl

run_stopped_example :
    (run (start_poller ∷ stop_poller ∷ []) once_stopped ≡ panic)
    ↔ (stops_again false (start_poller ∷ stop_poller ∷ []) ≡ true)
run_stopped_example = run_stopped (start_poller ∷ stop_poller ∷ []) once_stopped refl
