-- ===== src/Modbus/Device/Conversion.antt =====
-- device.go: when the conversion of registers panics, and what a register of a slave is read as.
use open_machine_core.Prelude.{
  ℕ, suc, ◌+◌, ◌*◌, ◌<◌, ◌≤◌, ◌≡◌, ◌↔◌, ◌⊎◌, refl, List, [], ◌∷◌, true, some, String, arith, length,
  eq_refl, IsWord, List-cases, inl, inr, ap,
}
use open_machine_core.Prelude.Int.{wrap}
use open_machine_core.Prelude.Outcome.{Outcome, ok, err, panic}
use open_machine_core.Prelude.Maps.{lookup, lookup-insert}
use open_machine_core.Types.{Float64, RegisterType, DataType, RegisterDefinition}
use open_machine_core.Modbus.Frame.{ModbusFrame, read_holding_registers_request}
use open_machine_core.Modbus.Frame.Response.{parse_counts}
use open_machine_core.Modbus.Client.{Peer, send_frame, read_holding_registers, read_input_registers}
use open_machine_core.Modbus.Client.Server.{
  Slave, serve, registers_from, read_holding_registers-serve, read_input_registers-serve,
}
use open_machine_core.Modbus.Device.{
  Device, DeviceError, Value, cache, int32, uint8_of, convert_register_value, read_register,
  get_last_value, get_register_quantity,
}

-- An int32 is the two's complement reading of the two registers, the high word first.
pub wrap-int32 :
    (hi lo : ℕ)
    → IsWord hi
    → IsWord lo
    → wrap 4294967296 (int32 (hi * 65536 + lo)) ≡ hi * 65536 + lo
wrap-int32 hi lo h l = ground arith

get_register_quantity-le : (t : DataType) → get_register_quantity t ≤ 4
unfolding get_register_quantity
get_register_quantity-le DataType.bool = omega arith
get_register_quantity-le _ = omega arith

-- The registers that are words of the slave.
abbrev pub IsWordRegister : RegisterType → Type 0
IsWordRegister t = (t ≡ RegisterType.holding_register) ⊎ (t ≡ RegisterType.input_register)

abbrev pub bank_of : Slave → RegisterType → ℕ → ℕ
bank_of s RegisterType.holding_register = s.holding
bank_of s RegisterType.input_register = s.input
bank_of s _ = s.input

get_register_quantity_pos : (t : DataType) → (n : ℕ) × (get_register_quantity t ≡ suc n)
unfolding get_register_quantity
get_register_quantity_pos DataType.bool = (0, refl)
get_register_quantity_pos DataType.int16 = (0, refl)
get_register_quantity_pos DataType.uint16 = (0, refl)
get_register_quantity_pos DataType.int32 = (1, refl)
get_register_quantity_pos DataType.uint32 = (1, refl)
get_register_quantity_pos DataType.float32 = (1, refl)
get_register_quantity_pos DataType.float64 = (3, refl)
get_register_quantity_pos (DataType.other t) = (0, refl)

module _ (fl : Float64) where
  open fl use {F}

  -- The conversion panics exactly when there is no register to convert.
  pub convert-panic :
      (rs : List ℕ) (t : DataType) (scale : F)
      → (convert_register_value fl rs t scale ≡ panic) ↔ (rs ≡ [])
  unfolding convert_register_value
  convert-panic [] t scale = ground arith
  convert-panic (r ∷ []) t scale = ground arith
  convert-panic (r ∷ q ∷ rs) t scale = ground arith

  cache-ok :
      (name : String) (o : Outcome DeviceError (Value F)) (d : Device F)
      → ((cache fl name o d).1 ≡ o)
        × ((v : Value F) → o ≡ ok v → lookup name (cache fl name o d).0.last_values ≡ some v)
  cache-ok name (ok u) d = (refl, λ v e. rw (lookup-insert, eq_refl) (ground (arith, e)))
  cache-ok name (err x) d = (refl, λ v e. cc)
  cache-ok name panic d = (refl, λ v e. cc)

  -- With a register to convert there is a value.
  pub convert_returns :
      (r : ℕ) (rs : List ℕ) (t : DataType) (scale : F)
      → (v : Value F) × (convert_register_value fl (r ∷ rs) t scale ≡ ok v)
  unfolding convert_register_value
  convert_returns r [] DataType.uint16 scale = (_, refl)
  convert_returns r [] _ scale = (_, refl)
  convert_returns r (q ∷ rs) DataType.uint16 scale = (_, refl)
  convert_returns r (q ∷ rs) _ scale = (_, refl)

  -- What a slave holds for a register.
  abbrev pub value_at : Slave → RegisterDefinition F → Outcome DeviceError (Value F)
  value_at s reg =
      convert_register_value fl
        (registers_from (bank_of s reg.register_type) reg.address
          (get_register_quantity reg.data_type))
        reg.data_type reg.scale_factor

  pub value_at_returns :
      (s : Slave) (reg : RegisterDefinition F) → (v : Value F) × (value_at s reg ≡ ok v)
  value_at_returns s reg =
      let (n, e) = get_register_quantity_pos reg.data_type in
      let bank = bank_of s reg.register_type in
      rw e (
        convert_returns (bank reg.address) (registers_from bank (suc reg.address) n) reg.data_type
          reg.scale_factor)

  module _ (d : Device F) (name : String) (reg : RegisterDefinition F)
      (found : lookup name d.register_map ≡ some reg) where
    -- On a connected device with a slave that follows the specification, a mapped holding or
    -- input register is read as the conversion of the slave's registers at its address, and the
    -- value is remembered.
    pub read_register-serve :
        (s : Slave) {socket : ℕ}
        → d.client.connected ≡ true
        → d.client.conn ≡ some socket
        → IsWordRegister reg.register_type
        → let r = read_register fl (λ bytes. (serve s bytes).1) name d in
          (r.1 ≡ value_at s reg)
          × ((v : Value F) → value_at s reg ≡ ok v → get_last_value name r.0 ≡ some v)
    unfolding read_register get_last_value
    read_register-serve s up conn kind =
        let unit : ℕ = uint8_of d.profile.connection.unit_id in
        let quantity : ℕ = get_register_quantity reg.data_type in
        let few : quantity ≤ 125 = omega (arith, get_register_quantity-le reg.data_type) in
        let peer : Peer = λ bytes. (serve s bytes).1 in
        elim kind [
          | inl holding ↦
              let after = (read_holding_registers peer unit reg.address quantity d.client).0 in
              let read =
                read_holding_registers-serve s d.client up conn unit reg.address quantity few in
              simp (found, holding) (rw read (cache-ok name _ (record d { client = after })))
          | inr input ↦
              let after = (read_input_registers peer unit reg.address quantity d.client).0 in
              let read =
                read_input_registers-serve s d.client up conn unit reg.address quantity few in
              simp (found, input) (rw read (cache-ok name _ (record d { client = after })))
        ]

    -- Reading a mapped holding register panics when the response that the client accepts
    -- announces fewer than two bytes and holds them.
    pub read_register_empty :
        (peer : Peer) (response : ModbusFrame) (byte_count : ℕ) (rest : List ℕ)
        → reg.register_type ≡ RegisterType.holding_register
        → (send_frame peer
            (read_holding_registers_request 0
              (uint8_of d.profile.connection.unit_id)
              reg.address
              (get_register_quantity reg.data_type))
            d.client).1
          ≡ ok response
        → response.data_bytes ≡ byte_count ∷ rest
        → byte_count < 2
        → byte_count ≤ length rest
        → (read_register fl peer name d).1 ≡ panic
    unfolding read_register read_holding_registers
    read_register_empty peer response byte_count rest holding sent bytes few all =
        elim (parse_counts response byte_count rest bytes) [
          | inl (_, (ws, parsed, n)) ↦ elim (List-cases ws) [
            | inl e ↦
                simp (found, holding, sent, parsed)
                  (rw ((convert-panic ws reg.data_type reg.scale_factor).1 e) refl)
            | inr (w, more, e) ↦ absurd (omega (arith, ap length e))
          ]
          | inr (short, _) ↦ absurd (omega arith)
        ]
