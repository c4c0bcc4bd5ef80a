-- ===== src/Modbus/Device.antt =====
-- internal/modbus/device.go: registers read and written by name, and their conversion. The peer of
-- the client is an argument, as in `Client`; the uuid of a device is left to the device manager.
pub mod Conversion
pub mod Access
use open_machine_core.Prelude.{
  ℕ, ◌+◌, ◌-◌, ◌*◌, String, List, [], ◌∷◌, Bool, true, false, not, Option, none, some, ◌==◌,
  if◌then◌else◌, ltb, length,
}
use open_machine_core.Prelude.Int.{ℤ, pos, negsuc, wrap, int16}
use open_machine_core.Prelude.Outcome.{Outcome, ok, err, panic, ◌>>=◌, wrap_err}
use open_machine_core.Prelude.Maps.{StringMap, lookup, insert}
use open_machine_core.Types.{
  Float64, RegisterType, DataType, AccessType, RegisterDefinition, DeviceProfileDefinition,
}
use open_machine_core.Modbus.Client
use open_machine_core.Modbus.Client.{
  Client, ClientError, Peer, new_client, read_holding_registers, read_input_registers,
  write_single_register,
}

-- What an `interface{}` holds where the program looks at it.
pub data Value (F : Type 0) : Type 0 where
  bool_value : Bool → Value F
  int_value : ℤ → Value F
  int16_value : ℤ → Value F
  uint16_value : ℕ → Value F
  float64_value : F → Value F
  other_value : String → Value F  -- of another type, by its name

pub data DeviceError : Type 0 where
  connect_failed : ClientError → DeviceError
  disconnect_failed : ClientError → DeviceError
  register_not_found : String → DeviceError
  coil_not_implemented : DeviceError
  unsupported_register_type : String → DeviceError
  read_register_failed : String → ClientError → DeviceError
  register_is_read_only : String → DeviceError
  unsupported_value_type : String → DeviceError
  write_register_failed : ClientError → DeviceError
  logical_name_not_mapped : String → DeviceError

pub record Device (F : Type 0) : Type 0 where
  pub name : String
  pub profile : DeviceProfileDefinition F
  pub client : Client
  pub io_mapping : StringMap String  -- logical name to register name
  pub register_map : StringMap (RegisterDefinition F)
  pub last_values : StringMap (Value F)
  pub connected : Bool

-- int32(x) of a uint32
abbrev pub int32 : ℕ → ℤ
int32 x = if ltb x 2147483648 then pos x else negsuc (4294967295 - x)

-- The uint8 of the profile's unit id.
abbrev pub uint8_of : ℤ → ℕ
uint8_of = wrap 256

module _ {F : Type 0} where
  -- registerMap[reg.Name] = reg for each register in turn: of two with one name, the later stays
  unfoldable pub register_map_of :
      List (RegisterDefinition F)
      → StringMap (RegisterDefinition F)
      → StringMap (RegisterDefinition F)
  register_map_of [] m = m
  register_map_of (reg ∷ regs) m = register_map_of regs (insert reg.name reg m)

  -- `address` is the "ip:port" that the client dials.
  unfoldable pub new_device :
      String → String → DeviceProfileDefinition F → StringMap String → Device F
  unfolding register_map_of new_client
  new_device name address profile io_mapping = record {
    name = name;
    profile = profile;
    client = new_client address;
    io_mapping = io_mapping;
    register_map = register_map_of profile.registers [];
    last_values = [];
    connected = false;
  }

  abbrev connected_if :
      Outcome ClientError (Unit {0}) → Device F → Device F × Outcome DeviceError (Unit {0})
  connected_if (ok _) d = (record d { connected = true }, ok tt)
  connected_if (err e) d = (d, err (connect_failed e))
  connected_if panic d = (d, panic)

  unfoldable pub connect : Option ℕ → Device F → Device F × Outcome DeviceError (Unit {0})
  connect dial d =
      let (client, r) = Client.connect dial d.client in
      connected_if r (record d { client = client })

  abbrev disconnected_if :
      Outcome ClientError (Unit {0}) → Device F → Device F × Outcome DeviceError (Unit {0})
  disconnected_if (ok _) d = (record d { connected = false }, ok tt)
  disconnected_if (err e) d = (d, err (disconnect_failed e))
  disconnected_if panic d = (d, panic)

  unfoldable pub disconnect : Bool → Device F → Device F × Outcome DeviceError (Unit {0})
  disconnect close_fails d =
      if not d.connected
      then (d, ok tt)
      else let (client, r) = Client.close close_fails d.client in
        disconnected_if r (record d { client = client })

  unfoldable pub get_last_value : String → Device F → Option (Value F)
  get_last_value name d = lookup name d.last_values

unfoldable pub get_register_quantity : DataType → ℕ
get_register_quantity DataType.bool = 1
get_register_quantity DataType.int16 = 1
get_register_quantity DataType.uint16 = 1
get_register_quantity DataType.int32 = 2
get_register_quantity DataType.uint32 = 2
get_register_quantity DataType.float32 = 2
get_register_quantity DataType.float64 = 4
get_register_quantity (DataType.other _) = 1

module _ (fl : Float64) where
  open fl use {F, one, of_int, mul, div, is_zero, is_positive, to_uint16}

  -- registers[0], on which the conversions of 16 bits and all fall-throughs rest
  abbrev with_first : List ℕ → (ℕ → Value F) → Outcome DeviceError (Value F)
  with_first [] f = panic
  with_first (r ∷ _) f = ok (f r)

  -- the first two registers, if there are two; else the code falls through to registers[0]
  abbrev with_two : List ℕ → (ℕ → Value F) → Outcome DeviceError (Value F)
  with_two (r ∷ q ∷ _) f = ok (f (r * 65536 + q))
  with_two rs f = with_first rs uint16_value

  abbrev scaled : ℤ → F → Value F
  scaled n scale = float64_value (mul (of_int n) scale)

  abbrev convert : DataType → List ℕ → F → Outcome DeviceError (Value F)
  convert DataType.bool rs scale = with_first rs (λ r. bool_value (not (r == 0)))
  convert DataType.uint16 rs scale = with_first rs (λ r. scaled (pos r) scale)
  convert DataType.int16 rs scale = with_first rs (λ r. scaled (int16 r) scale)
  convert DataType.uint32 rs scale = with_two rs (λ w. scaled (pos w) scale)
  convert DataType.int32 rs scale = with_two rs (λ w. scaled (int32 w) scale)
  convert DataType.float32 rs scale = with_two rs (λ w. float64_value (of_int (pos w)))
  convert DataType.float64 rs scale = with_first rs uint16_value
  convert (DataType.other _) rs scale = with_first rs uint16_value

  unfoldable pub convert_register_value : List ℕ → DataType → F → Outcome DeviceError (Value F)
  convert_register_value registers data_type scale_factor =
      convert data_type registers (if is_zero scale_factor then one else scale_factor)

  -- The conversion and the cache update that end `ReadRegister`.
  abbrev cache :
      String → Outcome DeviceError (Value F) → Device F → Device F × Outcome DeviceError (Value F)
  cache name (ok v) d = (record d { last_values = insert name v d.last_values }, ok v)
  cache name (err e) d = (d, err e)
  cache name panic d = (d, panic)

  abbrev finish_read :
      RegisterDefinition F
      → String
      → Client × Outcome ClientError (List ℕ)
      → Device F
      → Device F × Outcome DeviceError (Value F)
  finish_read reg name (client, r) d =
      cache name
        (wrap_err (read_register_failed name) r >>= λ values.
          convert_register_value values reg.data_type reg.scale_factor)
        (record d { client = client })

  abbrev read_by_type :
      RegisterType
      → Peer
      → RegisterDefinition F
      → String
      → Device F
      → Device F × Outcome DeviceError (Value F)
  read_by_type RegisterType.coil peer reg name d = (d, err coil_not_implemented)
  read_by_type RegisterType.discrete_input peer reg name d = (d, err coil_not_implemented)
  read_by_type (RegisterType.other t) peer reg name d = (d, err (unsupported_register_type t))
  read_by_type RegisterType.holding_register peer reg name d =
      finish_read reg name
        (read_holding_registers peer (uint8_of d.profile.connection.unit_id) reg.address
          (get_register_quantity reg.data_type) d.client)
        d
  read_by_type RegisterType.input_register peer reg name d =
      finish_read reg name
        (read_input_registers peer (uint8_of d.profile.connection.unit_id) reg.address
          (get_register_quantity reg.data_type) d.client)
        d

  abbrev read_found :
      Option (RegisterDefinition F)
      → Peer
      → String
      → Device F
      → Device F × Outcome DeviceError (Value F)
  read_found none peer name d = (d, err (register_not_found name))
  read_found (some reg) peer name d = read_by_type reg.register_type peer reg name d

  unfoldable pub read_register : Peer → String → Device F → Device F × Outcome DeviceError (Value F)
  unfolding convert_register_value get_register_quantity
  read_register peer register_name d =
      read_found (lookup register_name d.register_map) peer register_name d

  abbrev is_read_write : AccessType → Bool
  is_read_write AccessType.read_write = true
  is_read_write AccessType.read_only = false
  is_read_write (AccessType.other _) = false

  abbrev is_bool : DataType → Bool
  is_bool DataType.bool = true
  is_bool DataType.int16 = false
  is_bool _ = false

  abbrev bit : Bool → ℕ
  bit true = 1
  bit false = 0

  -- the type switch of `WriteRegister`
  abbrev word_of_value : RegisterDefinition F → Value F → Outcome DeviceError ℕ
  word_of_value reg (bool_value b) = ok (bit b)
  word_of_value reg (int_value n) = ok (wrap 65536 n)
  word_of_value reg (int16_value n) = ok (wrap 65536 n)
  word_of_value reg (uint16_value w) = ok w
  word_of_value reg (float64_value x) =
      ok (if is_bool reg.data_type then bit (is_positive x) else to_uint16 (div x reg.scale_factor))
  word_of_value reg (other_value t) = err (unsupported_value_type t)

  abbrev write_word :
      Peer
      → RegisterDefinition F
      → Outcome DeviceError ℕ
      → Device F
      → Device F × Outcome DeviceError (Unit {0})
  write_word peer reg (ok w) d =
      let (client, r) =
        write_single_register peer (uint8_of d.profile.connection.unit_id) reg.address w d.client in
      (record d { client = client }, wrap_err write_register_failed r)
  write_word peer reg (err e) d = (d, err e)
  write_word peer reg panic d = (d, panic)

  abbrev write_found :
      Option (RegisterDefinition F)
      → Peer
      → String
      → Value F
      → Device F
      → Device F × Outcome DeviceError (Unit {0})
  write_found none peer name value d = (d, err (register_not_found name))
  write_found (some reg) peer name value d =
      if not (is_read_write reg.access)
      then (d, err (register_is_read_only name))
      else write_word peer reg (word_of_value reg value) d

  unfoldable pub write_register :
      Peer → String → Value F → Device F → Device F × Outcome DeviceError (Unit {0})
  write_register peer register_name value d =
      write_found (lookup register_name d.register_map) peer register_name value d

  abbrev read_mapped :
      Option String → Peer → String → Device F → Device F × Outcome DeviceError (Value F)
  read_mapped none peer logical_name d = (d, err (logical_name_not_mapped logical_name))
  read_mapped (some register_name) peer logical_name d = read_register peer register_name d

  unfoldable pub read_logical : Peer → String → Device F → Device F × Outcome DeviceError (Value F)
  read_logical peer logical_name d =
      read_mapped (lookup logical_name d.io_mapping) peer logical_name d

  abbrev write_mapped :
      Option String → Peer → String → Value F → Device F → Device F × Outcome DeviceError (Unit {0})
  write_mapped none peer logical_name value d = (d, err (logical_name_not_mapped logical_name))
  write_mapped (some register_name) peer logical_name value d =
      write_register peer register_name value d

  unfoldable pub write_logical :
      Peer → String → Value F → Device F → Device F × Outcome DeviceError (Unit {0})
  write_logical peer logical_name value d =
      write_mapped (lookup logical_name d.io_mapping) peer logical_name value d
