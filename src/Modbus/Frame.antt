-- ===== src/Modbus/Frame.antt =====
-- internal/modbus/frame.go: the MBAP frame, its codec, the three requests and the register response.
pub mod Codec
pub mod Response
use open_machine_core.Prelude.{
  ℕ, zero, suc, ◌+◌, ◌*◌, ◌/◌, List, [], ◌∷◌, Option, none, some, ltb, ◌==◌, not, if◌then◌else◌,
  length, get_elem?, set, drop, make, put_uint16, copy_at, uint16, uint16_at,
}
use open_machine_core.Prelude.Outcome.{Outcome, ok, err, panic, ◌>>=◌}

pub record ModbusFrame : Type 0 where
  pub transaction_id : ℕ  -- uint16
  pub protocol_id : ℕ  -- uint16
  pub length_field : ℕ  -- uint16, `Length`
  pub unit_id : ℕ  -- uint8
  pub function_code : ℕ  -- uint8
  pub data_bytes : List ℕ  -- `Data`

pub data FrameError : Type 0 where
  frame_too_short : ℕ → FrameError
  invalid_protocol_id : ℕ → FrameError
  response_too_short : FrameError
  incomplete_response_data : FrameError

abbrev pub func_code_read_holding_registers : ℕ
func_code_read_holding_registers = 0x03

abbrev pub func_code_read_input_registers : ℕ
func_code_read_input_registers = 0x04

abbrev pub func_code_write_single_register : ℕ
func_code_write_single_register = 0x06

-- `Encode` sets the receiver's `Length` and returns the bytes.
unfoldable pub encode : ModbusFrame → ModbusFrame × List ℕ
encode f =
    let f' = record f { length_field = uint16 (length f.data_bytes + 2) } in
    let frame = make (7 + length f'.data_bytes + 1) in
    let frame = put_uint16 frame 0 f'.transaction_id in
    let frame = put_uint16 frame 2 f'.protocol_id in
    let frame = put_uint16 frame 4 f'.length_field in
    let frame = set frame 6 f'.unit_id in
    let frame = set frame 7 f'.function_code in (f', copy_at frame 8 f'.data_bytes)

-- A slice or index out of range would panic.
abbrev pub or_panic {ℓ κ} : {E : Type ℓ} {A : Type κ} → Option A → Outcome E A
or_panic none = panic
or_panic (some a) = ok a

abbrev check_protocol : ModbusFrame → Outcome FrameError ModbusFrame
check_protocol f =
    if not (f.protocol_id == 0) then err (invalid_protocol_id f.protocol_id) else ok f

unfoldable pub decode_frame : List ℕ → Outcome FrameError ModbusFrame
decode_frame bytes = if ltb (length bytes) 8 then err (frame_too_short (length bytes)) else do
  transaction_id ← or_panic (uint16_at bytes 0)
  protocol_id ← or_panic (uint16_at bytes 2)
  length_field ← or_panic (uint16_at bytes 4)
  unit_id ← or_panic (get_elem? bytes 6)
  function_code ← or_panic (get_elem? bytes 7)
  check_protocol (record {
    transaction_id = transaction_id;
    protocol_id = protocol_id;
    length_field = length_field;
    unit_id = unit_id;
    function_code = function_code;
    data_bytes = drop 8 bytes;
  })

-- the four bytes of the requests: two words, the second at offset 2
abbrev pub two_words : ℕ → ℕ → List ℕ
two_words a b = put_uint16 (put_uint16 (make 4) 0 a) 2 b

-- A request leaves `Length` at 0: `Encode` fills it in.
abbrev request : ℕ → ℕ → ℕ → List ℕ → ModbusFrame
request transaction_id unit_id function_code data_bytes = record {
  transaction_id = transaction_id;
  protocol_id = 0x0000;
  length_field = 0;
  unit_id = unit_id;
  function_code = function_code;
  data_bytes = data_bytes;
}

unfoldable pub read_holding_registers_request : ℕ → ℕ → ℕ → ℕ → ModbusFrame
read_holding_registers_request transaction_id unit_id start_addr quantity =
    request transaction_id unit_id func_code_read_holding_registers (two_words start_addr quantity)

unfoldable pub read_input_registers_request : ℕ → ℕ → ℕ → ℕ → ModbusFrame
read_input_registers_request transaction_id unit_id start_addr quantity =
    request transaction_id unit_id func_code_read_input_registers (two_words start_addr quantity)

unfoldable pub write_single_register_request : ℕ → ℕ → ℕ → ℕ → ModbusFrame
write_single_register_request transaction_id unit_id addr value =
    request transaction_id unit_id func_code_write_single_register (two_words addr value)

-- the loop of `ParseRegisterResponse`, with `i` counted up and the rounds left counted down
unfoldable pub read_registers : List ℕ → ℕ → ℕ → Outcome FrameError (List ℕ)
read_registers bytes i zero = ok []
read_registers bytes i (suc rounds) =
    let rest = read_registers bytes (suc i) rounds in
    or_panic (uint16_at bytes (1 + i * 2)) >>= λ w. rest >>= λ ws. ok (w ∷ ws)

abbrev parse_counted : List ℕ → ℕ → Outcome FrameError (List ℕ)
parse_counted bytes byte_count =
    if ltb (length bytes) (byte_count + 1)
    then err incomplete_response_data
    else read_registers bytes 0 (byte_count / 2)

abbrev parse_bytes : List ℕ → Outcome FrameError (List ℕ)
parse_bytes [] = err response_too_short
parse_bytes (byte_count ∷ rest) = parse_counted (byte_count ∷ rest) byte_count

unfoldable pub parse_register_response : ModbusFrame → Outcome FrameError (List ℕ)
unfolding read_registers
parse_register_response f = parse_bytes f.data_bytes
