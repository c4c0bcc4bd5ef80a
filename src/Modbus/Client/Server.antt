-- ===== src/Modbus/Client/Server.antt =====
-- client.go against a slave that follows the Modbus specification: what the client reads is what the
-- slave holds, and what it writes is what a later read returns.
use open_machine_core.Prelude.{
  ℕ, zero, suc, ◌+◌, ◌*◌, ◌/◌, ◌%◌, ◌≤◌, ◌≡◌, refl, List, [], ◌∷◌, true, Option, some, arith, ◌==◌,
  if◌then◌else◌, length, take, take_all, uint16, uint16_at, ◌∙◌, ap,
}
use open_machine_core.Prelude.Outcome.{Outcome, ok}
use open_machine_core.Modbus.Frame.{
  ModbusFrame, FrameError, encode, decode_frame, two_words, read_holding_registers_request,
  read_input_registers_request, write_single_register_request,
}
use open_machine_core.Modbus.Frame.Codec.{decode-encode, length-encode}
use open_machine_core.Modbus.Frame.Response.{words, parse-words, length-words}
use open_machine_core.Modbus.Client.{
  Client, Exchange, read_fails, received, read_holding_registers, read_input_registers,
  write_single_register, response_buffer_size, receive, registers_of,
}

-- Two banks of registers, by address.
pub record Slave : Type 0 where
  pub holding : ℕ → ℕ
  pub input : ℕ → ℕ

abbrev pub registers_from : (ℕ → ℕ) → ℕ → ℕ → List ℕ
registers_from bank start zero = []
registers_from bank start (suc n) = bank start ∷ registers_from bank (suc start) n

length-registers_from : (bank : ℕ → ℕ) (start n : ℕ) → length (registers_from bank start n) ≡ n
length-registers_from bank start zero = refl
length-registers_from bank start (suc n) = ap suc (length-registers_from bank (suc start) n)

abbrev update : (ℕ → ℕ) → ℕ → ℕ → ℕ → ℕ
update bank addr value i = if i == addr then value else bank i

-- An answer repeats the ids and the function code of its request.
abbrev reply : ModbusFrame → List ℕ → Exchange
reply f bytes = received (encode (record f { data_bytes = bytes })).1

abbrev read_answer : ModbusFrame → (ℕ → ℕ) → ℕ → ℕ → Exchange
read_answer f bank start quantity =
    reply f ((2 * quantity) ∷ words (registers_from bank start quantity))

abbrev serve_words : Slave → ModbusFrame → Option ℕ → Option ℕ → Slave × Exchange
serve_words s f (some a) (some b) =
    if f.function_code == 3
    then (s, read_answer f s.holding a b)
    else if f.function_code == 4
    then (s, read_answer f s.input a b)
    else if f.function_code == 6
    then (record s { holding = update s.holding a b }, reply f f.data_bytes)
    else (s, read_fails)
serve_words s f _ _ = (s, read_fails)

abbrev serve_frame : Slave → Outcome FrameError ModbusFrame → Slave × Exchange
serve_frame s (ok f) = serve_words s f (uint16_at f.data_bytes 0) (uint16_at f.data_bytes 2)
serve_frame s _ = (s, read_fails)

-- What the slave does with the bytes that it receives.
unfoldable pub serve : Slave → List ℕ → Slave × Exchange
serve s bytes = serve_frame s (decode_frame bytes)

word : (w : ℕ) → w / 256 * 256 + w % 256 ≡ w
word w = omega arith

-- A well-formed request reaches the slave as it was sent.
serve-encode :
    (s : Slave) (f : ModbusFrame) (a b : ℕ)
    → f.protocol_id ≡ 0
    → f.data_bytes ≡ two_words a b
    → serve s (encode f).1 ≡ serve_words s (encode f).0 (some a) (some b)
unfolding serve encode
serve-encode s f a b p d = rw (decode-encode f p) (ground (arith, word a, word b))

encode_ids :
    (f : ModbusFrame)
    → ((encode f).0.transaction_id ≡ f.transaction_id) × ((encode f).0.data_bytes ≡ f.data_bytes)
unfolding encode
encode_ids f = (refl, refl)

-- An answer of at most 260 bytes passes the read buffer and the check of its id.
receive-reply :
    (f : ModbusFrame) (n : ℕ) (bytes : List ℕ)
    → f.protocol_id ≡ 0
    → f.transaction_id ≡ n
    → length bytes ≤ 252
    → receive n (reply f bytes) ≡ ok (encode (record f { data_bytes = bytes })).0
receive-reply f n bytes p t short =
    let f' : ModbusFrame = record f { data_bytes = bytes } in
    let whole : take response_buffer_size (encode f').1 ≡ (encode f').1 =
      take_all response_buffer_size (encode f').1 (omega (arith, length-encode f')) in
    rw (whole, decode-encode f' p) (ground (arith, encode_ids f'))

-- The registers of a specified answer reach the caller.
registers_of-reply :
    (f : ModbusFrame) (n q : ℕ) (ws : List ℕ)
    → f.protocol_id ≡ 0
    → f.transaction_id ≡ n
    → length ws ≡ q
    → q ≤ 125
    → registers_of (receive n (reply f ((2 * q) ∷ words ws))) ≡ ok ws
registers_of-reply f n q ws p t e few =
    let bytes : List ℕ = (2 * q) ∷ words ws in
    let f' = (encode (record f { data_bytes = bytes })).0 in
    let whole : f'.data_bytes ≡ (2 * length ws) ∷ words ws =
      (encode_ids (record f { data_bytes = bytes })).1 ∙ rw e refl in
    rw (receive-reply f n bytes p t (omega (arith, length-words ws)), parse-words f' ws whole) refl

-- The bytes that a connected client writes for a single register.
abbrev pub write_bytes : Client → ℕ → ℕ → ℕ → List ℕ
write_bytes c unit_id addr value =
    (encode (record (write_single_register_request 0 unit_id addr value) {
      transaction_id = uint16 (c.transaction_id + 1);
    })).1

module _ (s : Slave) (c : Client) {socket : ℕ} (up : c.connected ≡ true)
    (open_conn : c.conn ≡ some socket) where
  -- A connected client that reads at most 125 holding registers of a slave that follows the
  -- specification gets the slave's registers, in order.
  pub read_holding_registers-serve :
      (unit_id start quantity : ℕ)
      → quantity ≤ 125
      → (read_holding_registers (λ bytes. (serve s bytes).1) unit_id start quantity c).1
        ≡ ok (registers_from s.holding start quantity)
  unfolding read_holding_registers encode
  read_holding_registers-serve unit_id start quantity few =
      let request : ModbusFrame = record (read_holding_registers_request 0 unit_id start quantity) {
        transaction_id = uint16 (c.transaction_id + 1);
      } in
      rw (up, open_conn)
        (rw (serve-encode s request start quantity refl refl) (
          registers_of-reply (encode request).0 (uint16 (c.transaction_id + 1)) quantity
            (registers_from s.holding start quantity) refl refl
            (length-registers_from s.holding start quantity) few))

  -- and its input registers
  pub read_input_registers-serve :
      (unit_id start quantity : ℕ)
      → quantity ≤ 125
      → (read_input_registers (λ bytes. (serve s bytes).1) unit_id start quantity c).1
        ≡ ok (registers_from s.input start quantity)
  unfolding read_input_registers encode
  read_input_registers-serve unit_id start quantity few =
      let request : ModbusFrame = record (read_input_registers_request 0 unit_id start quantity) {
        transaction_id = uint16 (c.transaction_id + 1);
      } in
      rw (up, open_conn)
        (rw (serve-encode s request start quantity refl refl) (
          registers_of-reply (encode request).0 (uint16 (c.transaction_id + 1)) quantity
            (registers_from s.input start quantity) refl refl
            (length-registers_from s.input start quantity) few))

  -- A connected client's write of one register of a slave that follows the specification
  -- succeeds, and changes that register of the slave and no other.
  pub write_single_register-serve :
      (unit_id addr value : ℕ)
      → ((write_single_register (λ bytes. (serve s bytes).1) unit_id addr value c).1 ≡ ok tt)
        × ((serve s (write_bytes c unit_id addr value)).0
            ≡ record s { holding = λ i. if i == addr then value else s.holding i })
  unfolding write_single_register encode
  write_single_register-serve unit_id addr value =
      let request : ModbusFrame = record (write_single_register_request 0 unit_id addr value) {
        transaction_id = uint16 (c.transaction_id + 1);
      } in
      let served = serve-encode s request addr value refl refl in
      (
        rw (up, open_conn)
            (rw served (
              rw
                (receive-reply (encode request).0 request.transaction_id (two_words addr value) refl
                  refl (omega arith))
                refl)),
        ap (λ (r : Slave × Exchange). r.0) served,
      )
