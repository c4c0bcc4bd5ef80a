-- ===== src/Workflow/Operations.antt =====
-- internal/workflow/executor/executor.go: the operations of a device step.
use open_machine_core.Prelude.{
  ℕ, String, List, [], ◌∷◌, true, not, Option, none, some, str_eq, if◌then◌else◌,
}
use open_machine_core.Prelude.Outcome.{Outcome, ok, err, ◌>>=◌, wrap_err}
use open_machine_core.Prelude.Maps.{StringMap, lookup, insert}
use open_machine_core.Types.{Float64}
use open_machine_core.Modbus.Client.{
  Client, ClientError, Peer, read_holding_registers, read_input_registers, write_single_register,
}
use open_machine_core.Modbus.Device.{
  Device, DeviceError, Value, bool_value, int_value, int16_value, uint16_value, float64_value,
  other_value, read_register, write_register, read_logical, write_logical, uint8_of,
}
use open_machine_core.Workflow.Definition.{
  Any, text, number, truth, words, word, int, short, composite,
}

pub data ExecError : Type 0 where
  unsupported_step_type : String → ExecError
  device_not_found : String → ExecError
  unsupported_operation : String → ExecError
  bad_parameter : String → ExecError
  missing_parameter : String → ExecError
  invalid_register_type : String → ExecError
  client_failed : ClientError → ExecError
  device_failed : DeviceError → ExecError
  device_operation_failed : ExecError → ExecError
  wait_interrupted : ExecError
  invalid_workflow_id : String → ExecError
  load_failed : String → ExecError
  parse_failed : String → ExecError
  sub_step_failed : ℕ → String → ExecError → ExecError

abbrev pub Data : Type 0 → Type 0
Data F = StringMap (Any F)

module _ {F : Type 0} where
  abbrev any_of_value : Value F → Any F
  any_of_value (bool_value b) = truth b
  any_of_value (int_value n) = int n
  any_of_value (int16_value n) = short n
  any_of_value (uint16_value w) = word w
  any_of_value (float64_value x) = number x
  any_of_value (other_value t) = composite t

  abbrev value_of_any : Any F → Value F
  value_of_any (text s) = other_value "string"
  value_of_any (number x) = float64_value x
  value_of_any (truth b) = bool_value b
  value_of_any (words ws) = other_value "[]uint16"
  value_of_any (word w) = uint16_value w
  value_of_any (int n) = int_value n
  value_of_any (short n) = int16_value n
  value_of_any (composite t) = other_value t

  -- params[k] = v for each entry
  abbrev insert_all : Data F → Data F → Data F
  insert_all [] params = params
  insert_all ((k, v) ∷ entries) params = insert_all entries (insert k v params)

  -- the parameters of a step, overridden by the input
  unfoldable pub merge_params : Option (Data F) → Data F → Data F
  unfolding insert
  merge_params none input = insert_all input []
  merge_params (some parameters) input = insert_all input (insert_all parameters [])

  -- params[k].(string) and params[k].(float64)
  abbrev as_text : Option (Any F) → Option String
  as_text (some (text s)) = some s
  as_text _ = none

  abbrev as_number : Option (Any F) → Option F
  as_number (some (number x)) = some x
  as_number _ = none

module _ (fl : Float64) where
  open fl use {F, of_int, to_uint16}

  abbrev pub Acts : Type 0
  Acts = Device F × Outcome ExecError (Data F)

  -- an operation of the client of a device
  abbrev with_client :
      (Peer → Client → Client × Outcome ClientError (List ℕ)) → Peer → Device F → Acts
  with_client operation peer d =
      let (client, r) = operation peer d.client in
      (
        record d { client = client },
        wrap_err client_failed r >>= λ values. ok (("values", words values) ∷ []),
      )

  abbrev read_of_type : String → ℕ → ℕ → Peer → Device F → Acts
  read_of_type register_type address count peer d =
      let unit_id = uint8_of d.profile.connection.unit_id in
      if str_eq register_type "holding"
      then with_client (λ p c. read_holding_registers p unit_id address count c) peer d
      else if str_eq register_type "input"
      then with_client (λ p c. read_input_registers p unit_id address count c) peer d
      else (d, err (invalid_register_type register_type))

  abbrev count_of : Option F → ℕ
  count_of none = 1
  count_of (some c) = to_uint16 c

  abbrev read_with : Option String → Option F → Option F → Peer → Device F → Acts
  read_with none address count peer d = (d, err (bad_parameter "register_type"))
  read_with (some t) none count peer d = (d, err (bad_parameter "address"))
  read_with (some t) (some address) count peer d =
      read_of_type t (to_uint16 address) (count_of count) peer d

  unfoldable pub execute_read : Data F → Peer → Device F → Acts
  unfolding read_holding_registers read_input_registers lookup
  execute_read params peer d =
      read_with (as_text (lookup "register_type" params)) (as_number (lookup "address" params))
        (as_number (lookup "count" params)) peer d

  abbrev write_of_type : String → ℕ → ℕ → Peer → Device F → Acts
  write_of_type register_type address value peer d =
      let (client, r) =
        write_single_register peer (uint8_of d.profile.connection.unit_id) address value d.client in
      if not (str_eq register_type "holding")
      then (d, err (invalid_register_type register_type))
      else (
        record d { client = client },
        wrap_err client_failed r >>= λ _.
            ok (("success", truth true) ∷ ("address", word address) ∷ ("value", word value) ∷ []),
      )

  abbrev write_with : Option String → Option F → Option F → Peer → Device F → Acts
  write_with none address value peer d = (d, err (bad_parameter "register_type"))
  write_with (some t) none value peer d = (d, err (bad_parameter "address"))
  write_with (some t) (some address) none peer d = (d, err (bad_parameter "value"))
  write_with (some t) (some address) (some value) peer d =
      write_of_type t (to_uint16 address) (to_uint16 value) peer d

  unfoldable pub execute_write : Data F → Peer → Device F → Acts
  unfolding write_single_register lookup
  execute_write params peer d =
      write_with (as_text (lookup "register_type" params)) (as_number (lookup "address" params))
        (as_number (lookup "value" params)) peer d

  -- a register read by name, and its result
  abbrev read_named :
      (Peer → String → Device F → Device F × Outcome DeviceError (Value F))
      → Option String
      → Peer
      → Device F
      → Acts
  read_named operation none peer d = (d, err (bad_parameter "register"))
  read_named operation (some register) peer d =
      let (d', r) = operation peer register d in
      (
        d',
        wrap_err device_failed r >>= λ v.
            ok (("register", text register) ∷ ("value", any_of_value v) ∷ []),
      )

  abbrev write_named :
      (Peer → String → Value F → Device F → Device F × Outcome DeviceError (Unit {0}))
      → Option String
      → Option (Any F)
      → Peer
      → Device F
      → Acts
  write_named operation none value peer d = (d, err (bad_parameter "register"))
  write_named operation (some register) none peer d = (d, err (missing_parameter "value"))
  write_named operation (some register) (some value) peer d =
      let (d', r) = operation peer register (value_of_any value) d in
      (
        d',
        wrap_err device_failed r >>= λ _.
            ok (("register", text register) ∷ ("value", value) ∷ ("success", truth true) ∷ []),
      )

  unfoldable pub execute_operation : String → Data F → Peer → Device F → Acts
  unfolding execute_read execute_write read_register write_register read_logical write_logical
      lookup
  execute_operation operation params peer d =
      let register = as_text (lookup "register" params) in
      let value = lookup "value" params in
      if str_eq operation "read"
      then execute_read params peer d
      else if str_eq operation "write"
      then execute_write params peer d
      else if str_eq operation "read_logical"
      then read_named (λ p n e. read_logical fl p n e) register peer d
      else if str_eq operation "write_logical"
      then write_named (λ p n v e. write_logical fl p n v e) register value peer d
      else if str_eq operation "read_register"
      then read_named (λ p n e. read_register fl p n e) register peer d
      else if str_eq operation "write_register"
      then write_named (λ p n v e. write_register fl p n v e) register value peer d
      else (d, err (unsupported_operation operation))
